-- ===== src/Nodes/Integrity.antt =====
-- The nodes and the instances of management/node.go stay well-formed under every operation.
use kplayer_go.Prelude.{
  ℕ, ◌≡◌, refl, Bool, true, false, String, List, arith, str_eq, eq_iff, Bool-cases, Option-cases,
  inl, inr, ap, sym, ◌∙◌,
}
use mathlib.Core.Path.{subst}
use kplayer_go.Prelude.Lists.{any, All, All-mono, All-none, All-both}
use kplayer_go.Prelude.Text.{trim_space}
use kplayer_go.Model.{Data, Node, Instance, InstanceStatus}
use kplayer_go.Result.{ok, Txn, commit, keep, fail, outcome, outcome-check}
use kplayer_go.Collection.{find, has_id}
use kplayer_go.Catalog.{add, replace, change, remove}
use kplayer_go.Catalog.Laws.{
  Kept, commit-Keeps, add-Holds, replace-Holds, change-Holds, remove-Holds,
}
use kplayer_go.Catalog.Members.{has, add-has, replace-has, change-has, remove-has, remove-All}
use kplayer_go.Nodes.{
  NodeSpec, known_status, normalize_spec, id_of, name_of, in_nodes, new_node, configured, stamped,
  create, update, set_enabled, delete, seen, heartbeat, default_status,
}
use kplayer_go.Nodes.Instances as Instances
use kplayer_go.Nodes.References.{
  IsNode, HasNode, WellFormed, instances_changed, create_instance-WellFormed,
  update_instance-WellFormed, set_status-WellFormed,
}

-- The calls of the two services that change nodes and instances.
pub data Call : Type 0 where
  creating : String → ℕ → NodeSpec → Call
  updating : String → ℕ → NodeSpec → Call
  enabling : String → ℕ → Bool → Call
  beating : String → ℕ → Call
  deleting : String → Call
  creating_instance : String → ℕ → Instances.InstanceSpec → Call
  updating_instance : String → ℕ → Instances.InstanceSpec → Call
  deleting_instance : String → Call
  setting_status : String → ℕ → InstanceStatus → Call

pub after_call : Call → Data → Data
after_call (creating id now spec) d = outcome d (create id now spec d)
after_call (updating id now spec) d = outcome d (update id now spec d)
after_call (enabling id now enabled) d = outcome d (set_enabled id now enabled d)
after_call (beating id now) d = outcome d (heartbeat id now d)
after_call (deleting id) d = outcome d (delete id d)
after_call (creating_instance id now spec) d = outcome d (Instances.create id now spec d)
after_call (updating_instance id now spec) d = outcome d (Instances.update id now spec d)
after_call (deleting_instance id) d = outcome d (Instances.delete id d)
after_call (setting_status id now status) d = outcome d (Instances.set_status id now status d)

-- The id that the creation of a node draws is new.
abbrev pub HasNewId : Call → Data → Type 0
HasNewId (creating id now spec) d = any (has_id id_of id) d.nodes ≡ false
HasNewId _ d = Unit

abbrev put : Data → List Node → Data
put d ns = record d { nodes = ns }

abbrev read : Data → List Node
read d = d.nodes

normalize_spec-IsNode :
    (spec s : NodeSpec) (id : String) (now : ℕ)
    → normalize_spec spec ≡ ok s
    → IsNode (new_node id now s)
unfolding normalize_spec
normalize_spec-IsNode spec s id now h =
    let name = trim_space spec.name in
    let address = trim_space spec.address in
    let status = default_status spec.status in
    let named : str_eq name "" ≡ false = ground (arith, h) in
    let placed : str_eq address "" ≡ false = ground (arith, h) in
    let known : known_status status ≡ true = ground (arith, h) in
    let t : NodeSpec = record spec { name = name; address = address; status = status } in
    let same : t ≡ s = ground (arith, named, placed, known, h) in
    subst (λ (x : NodeSpec). IsNode (new_node id now x)) same (named, placed, known)

-- A change of the nodes alone, under which every node that an instance needs stays.
nodes_changed {ℓ} :
    {A : Type ℓ} (d : Data) (t : Txn (List Node) A)
    → Kept id_of name_of IsNode (outcome d (in_nodes d t)).nodes
    → All (HasNode (outcome d.nodes t)) d.instances
    → WellFormed (outcome d (in_nodes d t))
nodes_changed d (commit ns a) k r = record { nodes_kept = k; refs_live = r }
nodes_changed d (keep a) k r = record { nodes_kept = k; refs_live = r }
nodes_changed d (fail e) k r = record { nodes_kept = k; refs_live = r }

-- A change that keeps the set of ids.
still {ℓ} :
    {A : Type ℓ} (d : Data) (t : Txn (List Node) A)
    → ((j : String) → has id_of j (outcome d.nodes t) ≡ has id_of j d.nodes)
    → All (HasNode d.nodes) d.instances
    → All (HasNode (outcome d.nodes t)) d.instances
still d t h = All-mono _ _ (λ i r. h i.node_id ∙ r) d.instances

committed {ℓ} : {A : Type ℓ} {n m : Node} {a b : A} → commit n a ≡ commit m b → n ≡ m
committed h = ground (arith, h)

-- A callback that sets other fields of one node.
set_node-WellFormed {ℓ} :
    {A : Type ℓ} (id : String) (now : ℕ) (fn : Node → Node) (g : Node → A) (d : Data)
    → ((n : Node) → (fn n).id ≡ n.id)
    → ((n : Node) → (fn n).name ≡ n.name)
    → ((n : Node) → IsNode n → IsNode (fn n))
    → WellFormed d
    → WellFormed
        (outcome d (in_nodes d (change id_of id (stamped now) (λ n. commit (fn n) (g n)) d.nodes)))
set_node-WellFormed id now fn g d same_id same_name good w =
    let t = change id_of id (stamped now) (λ n. commit (fn n) (g n)) d.nodes in
    nodes_changed d t
      (change-Holds id_of name_of IsNode put read (λ d ns. refl) id (stamped now)
        (λ n. commit (fn n) (g n)) d
        (commit-Keeps id_of name_of IsNode (stamped now) fn g same_id same_name good) w.nodes_kept)
      (still d t
        (λ j.
          change-has id_of name_of id (stamped now) (λ n. commit (fn n) (g n)) j d.nodes
            (λ n m a e. ap (λ (x : Node). x.id) (sym (committed e)) ∙ same_id n))
        w.refs_live)

delete-WellFormed : (id : String) (d : Data) → WellFormed d → WellFormed (outcome d (delete id d))
unfolding delete
delete-WellFormed id d w = elim (Option-cases (find (has_id id_of id) d.nodes)) [
  | inl n ↦ subst WellFormed (ground (arith, n)) w
  | inr (n, f) ↦ elim (Bool-cases (any (λ (i : Instance). str_eq i.node_id id) d.instances)) [
    | inl used ↦ subst WellFormed (ground (arith, f, used)) w
    | inr free ↦
        let t = remove id_of id d.nodes in
        let same : outcome d (in_nodes d t) ≡ outcome d (delete id d) = ground (arith, f, free) in
        subst WellFormed same (
          nodes_changed d t
            (remove-Holds id_of name_of IsNode put read (λ d ns. refl) id d w.nodes_kept)
            (All-both _ _ _
              (λ i r other.
                remove-has id_of name_of id i.node_id d.nodes
                  (ground (arith, other, eq_iff i.node_id id, eq_iff id i.node_id))
                ∙ r)
              d.instances w.refs_live
              (All-none (λ (i : Instance). str_eq i.node_id id) d.instances free)))
  ]
]

-- Whatever is called, with whichever outcome, no two nodes share a name or an id afterwards, every
-- node has a name, an address and a known status, and every instance belongs to a node that is
-- there, if all this was so before and the creation of a node draws a new id.
pub after_node_call-WellFormed :
    (k : Call) (d : Data) → HasNewId k d → WellFormed d → WellFormed (after_call k d)
unfolding after_call create update set_enabled heartbeat Instances.delete
after_node_call-WellFormed (creating id now spec) d new w =
    outcome-check WellFormed d (normalize_spec spec) _ w λ s e.
      nodes_changed d (add id_of name_of (new_node id now s) d.nodes)
        (add-Holds id_of name_of IsNode put read (λ d ns. refl) (new_node id now s) d new
          (normalize_spec-IsNode spec s id now e) w.nodes_kept)
        (All-mono _ _ (λ i r. add-has id_of name_of i.node_id (new_node id now s) d.nodes r)
          d.instances w.refs_live)
after_node_call-WellFormed (updating id now spec) d new w =
    outcome-check WellFormed d (normalize_spec spec) _ w λ s e.
      let t = replace id_of name_of id s.name (configured s now) d.nodes in
      nodes_changed d t
        (replace-Holds id_of name_of IsNode put read (λ d ns. refl) id s.name (configured s now) d
          (λ n. refl) (λ n. refl) (λ n _. normalize_spec-IsNode spec s id now e) w.nodes_kept)
        (still d t
          (λ j. replace-has id_of name_of id s.name (configured s now) j d.nodes (λ n. refl))
          w.refs_live)
after_node_call-WellFormed (enabling id now enabled) d new w =
    set_node-WellFormed id now (λ n. record n { enabled = enabled }) (λ n. tt {0}) d (λ n. refl)
      (λ n. refl) (λ n k. k) w
after_node_call-WellFormed (beating id now) d new w =
    set_node-WellFormed id now (seen now) (seen now) d (λ n. refl) (λ n. refl)
      (λ n k. (k.0, k.1, refl)) w
after_node_call-WellFormed (deleting id) d new w = delete-WellFormed id d w
after_node_call-WellFormed (creating_instance id now spec) d new w =
    create_instance-WellFormed id now spec d w
after_node_call-WellFormed (updating_instance id now spec) d new w =
    update_instance-WellFormed id now spec d w
after_node_call-WellFormed (deleting_instance id) d new w =
    instances_changed d (remove Instances.id_of id d.instances) w
      (remove-All Instances.id_of (HasNode d.nodes) id d.instances w.refs_live)
after_node_call-WellFormed (setting_status id now status) d new w =
    set_status-WellFormed id now status d w
