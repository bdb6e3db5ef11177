-- ===== src/OutputGroups.antt =====
-- management/output_group.go: `OutputGroupService`. Each operation is the callback of
-- `Store.Update` that it runs, after its checks.
pub mod References
pub mod Invariant
use kplayer_go.Prelude.{
  ℕ, String, Bool, true, false, not, ◌||◌, Option, none, some, List, [], ◌∷◌, ◌++◌, str_eq,
  if◌then◌else◌,
}
use kplayer_go.Prelude.Lists.{any, select}
use kplayer_go.Prelude.Text.{trim_space, is_blank, less_text}
use kplayer_go.Model.{Data, OutputGroup}
use kplayer_go.Model.Err.{not_found, invalid, in_use}
use kplayer_go.Result.{Result, ok, err, Txn, commit, keep, fail, refuse, check}
use kplayer_go.Collection.{find, has_id}
use kplayer_go.Ordering.{sort_by}
use kplayer_go.Catalog.{add, replace, change, setting, remove, within}

pub record OutputGroupSpec : Type 0 where
  pub name : String
  pub description : String
  pub platform : String
  pub region : String
  pub business : String
  pub outputs : List String
  pub enabled : Bool

-- `validateOutputGroupSpec`
unfoldable pub validate_spec : OutputGroupSpec → Result (Unit {0})
validate_spec s = refuse (is_blank s.name) invalid

-- A turn of the loop of `normalizeOutputRefs`; the keys of `seen` are the elements of `out`.
abbrev pub with_ref : List String → String → List String
with_ref out r = if str_eq r "" || any (λ o. str_eq o r) out then out else out ++ r ∷ []

unfoldable pub normalize_onto : List String → List String → List String
normalize_onto out [] = out
normalize_onto out (r ∷ rs) = normalize_onto (with_ref out (trim_space r)) rs

-- `normalizeOutputRefs`
unfoldable pub normalize_refs : List String → List String
unfolding normalize_onto
normalize_refs refs = normalize_onto [] refs

abbrev pub id_of : OutputGroup → String
id_of g = g.id

abbrev pub name_of : OutputGroup → String
name_of g = g.name

abbrev pub in_groups {ℓ} : {A : Type ℓ} → Data → Txn (List OutputGroup) A → Txn Data A
in_groups d = within (λ gs. record d { output_groups = gs })

-- `List` and `Get`
unfoldable pub list : Data → List OutputGroup
list d = sort_by (λ (a b : OutputGroup). less_text a.name b.name) d.output_groups

unfoldable pub get : String → Data → Result OutputGroup
get id d = elim (find (has_id id_of id) d.output_groups) [ none ↦ err not_found | some g ↦ ok g ]

abbrev pub new_group : String → ℕ → OutputGroupSpec → OutputGroup
new_group id now s = record {
  id = id;
  name = s.name;
  description = s.description;
  platform = s.platform;
  region = s.region;
  business = s.business;
  outputs = normalize_refs s.outputs;
  enabled = s.enabled;
  created_at = now;
  updated_at = now;
}

-- `Create`
unfoldable pub create : String → ℕ → OutputGroupSpec → Data → Txn Data OutputGroup
unfolding validate_spec
create id now spec d =
    check (validate_spec spec)
      λ _. in_groups d (add id_of name_of (new_group id now spec) d.output_groups)

abbrev pub configured : OutputGroupSpec → ℕ → OutputGroup → OutputGroup
configured s now g = record g {
  name = s.name;
  description = s.description;
  platform = s.platform;
  region = s.region;
  business = s.business;
  outputs = normalize_refs s.outputs;
  enabled = s.enabled;
  updated_at = now;
}

-- `Update`
unfoldable pub update : String → ℕ → OutputGroupSpec → Data → Txn Data OutputGroup
unfolding validate_spec
update id now spec d =
    check (validate_spec spec)
      λ _. in_groups d (replace id_of name_of id spec.name (configured spec now) d.output_groups)

abbrev pub stamped : ℕ → OutputGroup → OutputGroup
stamped now g = record g { updated_at = now }

-- `update`
unfoldable pub change_group :
    String → ℕ → (OutputGroup → Txn OutputGroup (Unit {0})) → Data → Txn Data (Unit {0})
change_group id now fn d = in_groups d (change id_of id (stamped now) fn d.output_groups)

-- `SetEnabled`
unfoldable pub set_enabled : String → ℕ → Bool → Data → Txn Data (Unit {0})
unfolding change_group
set_enabled id now enabled = change_group id now (setting (λ g. record g { enabled = enabled }))

-- The callback of `AddOutput`, of the trimmed reference
abbrev pub with_output : String → OutputGroup → Txn OutputGroup (Unit {0})
with_output r g =
    if str_eq r ""
    then fail invalid
    else if any (λ o. str_eq o r) g.outputs
    then keep tt
    else commit (record g { outputs = g.outputs ++ r ∷ [] }) tt

-- `AddOutput`
unfoldable pub add_output : String → ℕ → String → Data → Txn Data (Unit {0})
unfolding change_group
add_output id now unique = change_group id now (with_output (trim_space unique))

-- The callback of `RemoveOutput`, of the trimmed reference
abbrev pub without_output : String → OutputGroup → Txn OutputGroup (Unit {0})
without_output r g =
    if str_eq r ""
    then fail invalid
    else if any (λ o. str_eq o r) g.outputs
    then commit (record g { outputs = select (λ o. not (str_eq o r)) g.outputs }) tt
    else keep tt

-- `RemoveOutput`
unfoldable pub remove_output : String → ℕ → String → Data → Txn Data (Unit {0})
unfolding change_group
remove_output id now unique = change_group id now (without_output (trim_space unique))

-- `outputGroupInUse`
abbrev pub output_group_in_use : Data → OutputGroup → Bool
output_group_in_use d g = false

-- `Delete`
unfoldable pub delete : String → Data → Txn Data (Unit {0})
delete id d = elim (find (has_id id_of id) d.output_groups) [
  | none ↦ fail not_found
  | some g ↦
      if output_group_in_use d g then fail in_use else in_groups d (remove id_of id d.output_groups)
]
