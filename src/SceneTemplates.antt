-- ===== src/SceneTemplates.antt =====
-- management/scene_template.go: `SceneTemplateService`. Each operation is the callback of
-- `Store.Update` that it runs, after its checks. The check of a reference stands in Tasks.
pub mod Invariant
use Prim.Native.String.{◌++◌ as text_append}
use kplayer_go.Prelude.{
  ℕ, String, Bool, true, false, not, Option, none, some, List, [], ◌∷◌, ◌++◌, if◌then◌else◌,
}
use kplayer_go.Prelude.Text.{is_blank, less_text}
use kplayer_go.Model.{Data, SceneTemplate, SceneKind}
use kplayer_go.Model.Err.{not_found, invalid}
use kplayer_go.Result.{Result, ok, err, Txn, commit, fail, refuse, check, ◌>>◌}
use kplayer_go.Collection.{find, has_id}
use kplayer_go.Ordering.{sort_by}
use kplayer_go.Catalog.{add, replace, change, setting, remove, within}

pub record SceneTemplateSpec : Type 0 where
  pub name : String
  pub kind : SceneKind
  pub params : List (String × String)
  pub enabled : Bool

-- `validateSceneKind`
abbrev pub known_kind : SceneKind → Bool
known_kind (SceneKind.other s) = false
known_kind _ = true

-- `validateSceneTemplateSpec`
unfoldable pub validate_spec : SceneTemplateSpec → Result (Unit {0})
validate_spec s = do refuse (is_blank s.name) invalid; refuse (not (known_kind s.kind)) invalid

abbrev pub id_of : SceneTemplate → String
id_of t = t.id

abbrev pub name_of : SceneTemplate → String
name_of t = t.name

abbrev pub in_templates {ℓ} : {A : Type ℓ} → Data → Txn (List SceneTemplate) A → Txn Data A
in_templates d = within (λ ts. record d { scene_templates = ts })

-- `List` and `Get`
unfoldable pub list : Data → List SceneTemplate
list d = sort_by (λ (a b : SceneTemplate). less_text a.name b.name) d.scene_templates

unfoldable pub get : String → Data → Result SceneTemplate
get id d = elim (find (has_id id_of id) d.scene_templates) [ none ↦ err not_found | some t ↦ ok t ]

abbrev pub new_template : String → ℕ → SceneTemplateSpec → SceneTemplate
new_template id now s = record {
  id = id;
  name = s.name;
  kind = s.kind;
  params = s.params;
  enabled = s.enabled;
  created_at = now;
  updated_at = now;
}

-- `Create`
unfoldable pub create : String → ℕ → SceneTemplateSpec → Data → Txn Data SceneTemplate
unfolding validate_spec
create id now spec d =
    check (validate_spec spec)
      λ _. in_templates d (add id_of name_of (new_template id now spec) d.scene_templates)

abbrev pub configured : SceneTemplateSpec → ℕ → SceneTemplate → SceneTemplate
configured s now t = record t {
  name = s.name;
  kind = s.kind;
  params = s.params;
  enabled = s.enabled;
  updated_at = now;
}

-- `Update`
unfoldable pub update : String → ℕ → SceneTemplateSpec → Data → Txn Data SceneTemplate
unfolding validate_spec
update id now spec d =
    check (validate_spec spec) λ _.
      in_templates d (replace id_of name_of id spec.name (configured spec now) d.scene_templates)

abbrev pub stamped : ℕ → SceneTemplate → SceneTemplate
stamped now t = record t { updated_at = now }

-- `SetEnabled`
unfoldable pub set_enabled : String → ℕ → Bool → Data → Txn Data (Unit {0})
set_enabled id now enabled d = in_templates d (
    change id_of id (stamped now) (setting (λ t. record t { enabled = enabled })) d.scene_templates)

-- The copy that `Duplicate` makes.
abbrev pub copy_of : String → ℕ → SceneTemplate → SceneTemplate
copy_of new_id now t = record t {
  id = new_id;
  name = text_append t.name " (copy)";
  created_at = now;
  updated_at = now;
}

-- `Duplicate`
unfoldable pub duplicate : String → ℕ → String → Data → Txn Data SceneTemplate
duplicate new_id now id d = elim (find (has_id id_of id) d.scene_templates) [
  | none ↦ fail not_found
  | some t ↦ in_templates d (add id_of name_of (copy_of new_id now t) d.scene_templates)
]

-- `Delete`
unfoldable pub delete : String → Data → Txn Data (Unit {0})
delete id d = in_templates d (remove id_of id d.scene_templates)
