-- ===== src/Nodes.antt =====
-- management/node.go: `NodeService` and `InstanceService`. Each operation is the callback of
-- `Store.Update` that it runs, after its checks.
pub mod Instances
pub mod References
pub mod Integrity
use kplayer_go.Prelude.{
  ℕ, ◌-◌, String, Bool, true, false, not, ◌||◌, Option, none, some, List, str_eq, if◌then◌else◌,
  ◌==◌,
}
use kplayer_go.Prelude.Lists.{any}
use kplayer_go.Prelude.Int.{ℤ, pos, leb_ℤ, time_sub, is_zero_time}
use kplayer_go.Prelude.Text.{trim_space, less_text}
use kplayer_go.Model.{Data, Node, NodeStatus, Instance}
use kplayer_go.Model.Err.{not_found, invalid, in_use}
use kplayer_go.Result.{Result, ok, err, Txn, commit, fail, refuse, check, ◌>>◌}
use kplayer_go.Collection.{find, cut_first, put_first, has_id}
use kplayer_go.Ordering.{sort_by}
use kplayer_go.Catalog.{add, replace, change, setting, remove, within}

pub record NodeSpec : Type 0 where
  pub name : String
  pub address : String
  pub status : NodeStatus
  pub enabled : Bool

-- `validateNodeStatus`
abbrev pub known_status : NodeStatus → Bool
known_status NodeStatus.online = true
known_status NodeStatus.offline = true
known_status NodeStatus.unknown = true
known_status _ = false

abbrev pub default_status : NodeStatus → NodeStatus
default_status NodeStatus.unset = NodeStatus.unknown
default_status s = s

-- `normalizeNodeSpec`
unfoldable pub normalize_spec : NodeSpec → Result NodeSpec
normalize_spec spec =
    let name = trim_space spec.name in
    let address = trim_space spec.address in
    let status = default_status spec.status in
    (do
      refuse (str_eq name "") invalid
      refuse (str_eq address "") invalid
      refuse (not (known_status status)) invalid
      ok (record spec { name = name; address = address; status = status }))

abbrev pub id_of : Node → String
id_of n = n.id

abbrev pub name_of : Node → String
name_of n = n.name

abbrev pub in_nodes {ℓ} : {A : Type ℓ} → Data → Txn (List Node) A → Txn Data A
in_nodes d = within (λ ns. record d { nodes = ns })

-- `List`, `Get` and `findNode`
unfoldable pub list : Data → List Node
list d = sort_by (λ (a b : Node). less_text a.name b.name) d.nodes

unfoldable pub find_node : Data → String → Option Node
find_node d id = find (has_id id_of id) d.nodes

unfoldable pub get : String → Data → Result Node
unfolding find_node
get id d = elim (find_node d id) [ none ↦ err not_found | some n ↦ ok n ]

abbrev pub new_node : String → ℕ → NodeSpec → Node
new_node id now s = record {
  id = id;
  name = s.name;
  address = s.address;
  status = s.status;
  last_seen = 0;
  enabled = s.enabled;
  created_at = now;
  updated_at = now;
}

-- `Create`
unfoldable pub create : String → ℕ → NodeSpec → Data → Txn Data Node
unfolding normalize_spec
create id now spec d =
    check (normalize_spec spec) λ s. in_nodes d (add id_of name_of (new_node id now s) d.nodes)

abbrev pub configured : NodeSpec → ℕ → Node → Node
configured s now n = record n {
  name = s.name;
  address = s.address;
  status = s.status;
  enabled = s.enabled;
  updated_at = now;
}

-- `Update`
unfoldable pub update : String → ℕ → NodeSpec → Data → Txn Data Node
unfolding normalize_spec
update id now spec d =
    check (normalize_spec spec)
      λ s. in_nodes d (replace id_of name_of id s.name (configured s now) d.nodes)

abbrev pub stamped : ℕ → Node → Node
stamped now n = record n { updated_at = now }

-- `SetEnabled`
unfoldable pub set_enabled : String → ℕ → Bool → Data → Txn Data (Unit {0})
set_enabled id now enabled d =
    in_nodes d
      (change id_of id (stamped now) (setting (λ n. record n { enabled = enabled })) d.nodes)

-- `Delete`
unfoldable pub delete : String → Data → Txn Data (Unit {0})
delete id d = elim (find (has_id id_of id) d.nodes) [
  | none ↦ fail not_found
  | some n ↦
      if any (λ (i : Instance). str_eq i.node_id id) d.instances
      then fail in_use
      else in_nodes d (remove id_of id d.nodes)
]

abbrev pub seen : ℕ → Node → Node
seen now n = record n { status = NodeStatus.online; last_seen = now; updated_at = now }

-- `Heartbeat`
unfoldable pub heartbeat : String → ℕ → Data → Txn Data Node
heartbeat id now d =
    in_nodes d (change id_of id (stamped now) (λ n. commit (seen now n) (seen now n)) d.nodes)

-- `NodeStale`; `none` is a nil node.
unfoldable pub node_stale : Option Node → ℕ → ℤ → Bool
node_stale none now timeout = true
node_stale (some n) now timeout =
    is_zero_time n.last_seen || not (leb_ℤ (time_sub now n.last_seen) timeout)
