-- ===== src/Nodes/References.antt =====
-- The operations on instances of management/node.go keep every reference to a node alive.
use kplayer_go.Prelude.{
  ℕ, ◌≡◌, true, false, not, String, List, [], ◌∷◌, arith, str_eq, Option-cases, inl, inr, ap, sym,
  ◌∙◌,
}
use mathlib.Core.Path.{subst}
use kplayer_go.Prelude.Lists.{All, All-append}
use kplayer_go.Model.{Data, Node, Instance, InstanceStatus}
use kplayer_go.Model.Err.{invalid}
use kplayer_go.Result.{Txn, commit, keep, fail, refuse, outcome, outcome-check}
use kplayer_go.Collection.{find, has_id}
use kplayer_go.Collection.Laws.{find-any, All-put_first}
use kplayer_go.Catalog.{change}
use kplayer_go.Catalog.Laws.{Kept}
use kplayer_go.Catalog.Members.{has, change-All}
use kplayer_go.Nodes.{known_status, id_of, name_of, find_node}
use kplayer_go.Nodes.Instances as Instances

-- A node has a name, an address and a known status.
abbrev pub IsNode : Node → Type 0
IsNode n =
    (str_eq n.name "" ≡ false) × (str_eq n.address "" ≡ false) × (known_status n.status ≡ true)

-- The node of an instance is there.
abbrev pub HasNode : List Node → Instance → Type 0
HasNode ns i = has id_of i.node_id ns ≡ true

pub record WellFormed (d : Data) : Type 0 where
  pub nodes_kept : Kept id_of name_of IsNode d.nodes
  pub refs_live : All (HasNode d.nodes) d.instances

-- A step that is taken only if the node of a spec is there.
check_node-WellFormed :
    (d : Data) (s : Instances.InstanceSpec) (k : Txn Data Instance)
    → WellFormed d
    → (has id_of s.node_id d.nodes ≡ true → WellFormed (outcome d k))
    → WellFormed (outcome d (Instances.check_node d s k))
unfolding find_node
check_node-WellFormed d s k w after = elim (Option-cases (find_node d s.node_id)) [
  | inl gone ↦
      let same : d ≡ outcome d (Instances.check_node d s k) = ground (arith, gone) in
      subst WellFormed same w
  | inr (n, f) ↦
      let same : outcome d k ≡ outcome d (Instances.check_node d s k) = ground (arith, f) in
      subst WellFormed same (after (find-any (has_id id_of s.node_id) d.nodes n f))
]

pub create_instance-WellFormed :
    (id : String) (now : ℕ) (spec : Instances.InstanceSpec) (d : Data)
    → WellFormed d
    → WellFormed (outcome d (Instances.create id now spec d))
unfolding Instances.create
create_instance-WellFormed id now spec d w =
    outcome-check WellFormed d (Instances.normalize_spec spec) _ w λ s e.
      check_node-WellFormed d s _ w λ there. record {
        nodes_kept = w.nodes_kept;
        refs_live =
            All-append (HasNode d.nodes) d.instances (Instances.new_instance id now s ∷ [])
              w.refs_live (there, tt);
      }

put_instance-WellFormed :
    (id : String) (i : Instance) (d : Data)
    → HasNode d.nodes i
    → WellFormed d
    → WellFormed (Instances.put_instance id i d)
put_instance-WellFormed id i d h w = record {
  nodes_kept = w.nodes_kept;
  refs_live =
      All-put_first (has_id Instances.id_of id) (HasNode d.nodes) i d.instances w.refs_live h;
}

pub update_instance-WellFormed :
    (id : String) (now : ℕ) (spec : Instances.InstanceSpec) (d : Data)
    → WellFormed d
    → WellFormed (outcome d (Instances.update id now spec d))
unfolding Instances.update
update_instance-WellFormed id now spec d w =
    outcome-check WellFormed d (Instances.normalize_spec spec) _ w λ s e.
      elim (Option-cases (find (has_id Instances.id_of id) d.instances)) [
        | inl gone ↦ rw gone w
        | inr (i, g) ↦ rw g (
            check_node-WellFormed d s _ w
              (λ there. put_instance-WellFormed id (Instances.configured s now i) d there w))
      ]

-- A change of the instances alone, each of which still has its node.
pub instances_changed {ℓ} :
    {A : Type ℓ} (d : Data) (t : Txn (List Instance) A)
    → WellFormed d
    → All (HasNode d.nodes) (outcome d.instances t)
    → WellFormed (outcome d (Instances.in_instances d t))
instances_changed d (commit is a) w r = record { nodes_kept = w.nodes_kept; refs_live = r }
instances_changed d (keep a) w r = w
instances_changed d (fail e) w r = w

with_status-keeps :
    (s : InstanceStatus) (now : ℕ) (i j b : Instance)
    → Instances.with_status s now i ≡ commit j b
    → j.node_id ≡ i.node_id
with_status-keeps s now i j b h =
    let same : record i { status = s; updated_at = now } ≡ j = ground (arith, h) in
    ap (λ (x : Instance). x.node_id) (sym same)

pub set_status-WellFormed :
    (id : String) (now : ℕ) (status : InstanceStatus) (d : Data)
    → WellFormed d
    → WellFormed (outcome d (Instances.set_status id now status d))
unfolding Instances.set_status
set_status-WellFormed id now status d w =
    let s = Instances.default_status status in
    outcome-check WellFormed d (refuse (not (Instances.known_status s)) invalid) _ w λ _ _.
      instances_changed d
        (change Instances.id_of id (λ i. i) (Instances.with_status s now) d.instances) w
        (change-All Instances.id_of (HasNode d.nodes) id (λ i. i) (Instances.with_status s now)
          d.instances
          (λ i j b e r. ap (λ n. has id_of n d.nodes) (with_status-keeps s now i j b e) ∙ r)
          w.refs_live)
