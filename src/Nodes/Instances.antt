-- ===== src/Nodes/Instances.antt =====
-- `InstanceService` of management/node.go.
use kplayer_go.Prelude.{
  ℕ, String, Bool, true, false, not, none, some, List, [], ◌∷◌, ◌++◌, str_eq, if◌then◌else◌,
}
use kplayer_go.Prelude.Lists.{select}
use kplayer_go.Prelude.Text.{trim_space, less_text}
use kplayer_go.Model.{Data, Instance, InstanceStatus}
use kplayer_go.Model.Err.{not_found, invalid}
use kplayer_go.Result.{Result, ok, err, Txn, commit, keep, fail, refuse, check, ◌>>◌}
use kplayer_go.Collection.{find, put_first, has_id}
use kplayer_go.Ordering.{sort_by}
use kplayer_go.Catalog.{change, remove, within}
use kplayer_go.Nodes.{find_node}

pub record InstanceSpec : Type 0 where
  pub node_id : String
  pub name : String
  pub status : InstanceStatus
  pub channel_id : String

-- `validateInstanceStatus`
abbrev pub known_status : InstanceStatus → Bool
known_status InstanceStatus.running = true
known_status InstanceStatus.stopped = true
known_status InstanceStatus.unknown = true
known_status _ = false

abbrev pub default_status : InstanceStatus → InstanceStatus
default_status InstanceStatus.unset = InstanceStatus.unknown
default_status s = s

-- The comparison of two statuses.
abbrev pub is_status : InstanceStatus → InstanceStatus → Bool
is_status InstanceStatus.unset InstanceStatus.unset = true
is_status InstanceStatus.running InstanceStatus.running = true
is_status InstanceStatus.stopped InstanceStatus.stopped = true
is_status InstanceStatus.unknown InstanceStatus.unknown = true
is_status (InstanceStatus.other s) (InstanceStatus.other t) = str_eq s t
is_status _ _ = false

-- `normalizeInstanceSpec`
unfoldable pub normalize_spec : InstanceSpec → Result InstanceSpec
normalize_spec spec =
    let name = trim_space spec.name in
    let status = default_status spec.status in
    (do
      refuse (str_eq name "") invalid
      refuse (not (known_status status)) invalid
      ok (record spec { name = name; status = status }))

abbrev pub id_of : Instance → String
id_of i = i.id

abbrev pub in_instances {ℓ} : {A : Type ℓ} → Data → Txn (List Instance) A → Txn Data A
in_instances d = within (λ is. record d { instances = is })

abbrev pub by_name : List Instance → List Instance
by_name = sort_by (λ (a b : Instance). less_text a.name b.name)

-- `List`, `ListByNode` and `Get`
unfoldable pub list : Data → List Instance
list d = by_name d.instances

unfoldable pub list_by_node : String → Data → List Instance
list_by_node node d = by_name (select (λ (i : Instance). str_eq i.node_id node) d.instances)

unfoldable pub get : String → Data → Result Instance
get id d = elim (find (has_id id_of id) d.instances) [ none ↦ err not_found | some i ↦ ok i ]

abbrev pub new_instance : String → ℕ → InstanceSpec → Instance
new_instance id now s = record {
  id = id;
  node_id = s.node_id;
  name = s.name;
  status = s.status;
  channel_id = s.channel_id;
  created_at = now;
  updated_at = now;
}

-- The node of a spec must be there.
abbrev pub check_node : Data → InstanceSpec → Txn Data Instance → Txn Data Instance
check_node d s k = elim (find_node d s.node_id) [ none ↦ fail not_found | some n ↦ k ]

-- `Create`
unfoldable pub create : String → ℕ → InstanceSpec → Data → Txn Data Instance
unfolding normalize_spec find_node
create id now spec d = check (normalize_spec spec) λ s. check_node d s (
    commit (record d { instances = d.instances ++ new_instance id now s ∷ [] })
      (new_instance id now s))

abbrev pub configured : InstanceSpec → ℕ → Instance → Instance
configured s now i = record i {
  node_id = s.node_id;
  name = s.name;
  status = s.status;
  channel_id = s.channel_id;
  updated_at = now;
}

abbrev pub put_instance : String → Instance → Data → Data
put_instance id i d = record d { instances = put_first (has_id id_of id) i d.instances }

-- `Update`
unfoldable pub update : String → ℕ → InstanceSpec → Data → Txn Data Instance
unfolding normalize_spec find_node
update id now spec d = check (normalize_spec spec) λ s. elim (find (has_id id_of id) d.instances) [
  | none ↦ fail not_found
  | some i ↦ check_node d s (commit (put_instance id (configured s now i) d) (configured s now i))
]

-- `Delete`
unfoldable pub delete : String → Data → Txn Data (Unit {0})
delete id d = in_instances d (remove id_of id d.instances)

abbrev pub with_status : InstanceStatus → ℕ → Instance → Txn Instance Instance
with_status s now i =
    if is_status i.status s
    then keep i
    else commit (record i { status = s; updated_at = now })
        (record i { status = s; updated_at = now })

-- `SetStatus`
unfoldable pub set_status : String → ℕ → InstanceStatus → Data → Txn Data Instance
set_status id now status d =
    let s = default_status status in
    check (refuse (not (known_status s)) invalid)
      λ _. in_instances d (change id_of id (λ i. i) (with_status s now) d.instances)
