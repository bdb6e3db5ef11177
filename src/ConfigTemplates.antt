-- ===== src/ConfigTemplates.antt =====
-- management/config_template.go: `ConfigTemplateService`. Each operation is the callback of
-- `Store.Update` that it runs, after its checks. `json.Valid` is a parameter. `Expand` is not
-- modelled.
pub mod Invariant
use Prim.Native.Char.{code}
use kplayer_go.Prelude.{
  ℕ, String, Bool, false, not, Option, none, some, List, [], ◌∷◌, if◌then◌else◌, ◌==◌,
}
use kplayer_go.Prelude.Text.{trim_space, is_blank, less_text}
use kplayer_go.Model.{Data, ConfigTemplate}
use kplayer_go.Model.Err.{not_found, invalid}
use kplayer_go.Result.{Result, ok, err, Txn, refuse, check, ◌>>◌}
use kplayer_go.Collection.{find, has_id}
use kplayer_go.Ordering.{sort_by}
use kplayer_go.Catalog.{add, replace, change, setting, remove, within}

pub record ConfigTemplateSpec : Type 0 where
  pub name : String
  pub type_name : String
  pub body : String
  pub enabled : Bool

-- `trimmed[0] == '{'`, false of an empty text
abbrev pub starts_object : String → Bool
starts_object String.[] = false
starts_object (String.◌∷◌ c s) = code c == 123

abbrev pub id_of : ConfigTemplate → String
id_of r = r.id

abbrev pub name_of : ConfigTemplate → String
name_of r = r.name

abbrev pub in_templates {ℓ} : {A : Type ℓ} → Data → Txn (List ConfigTemplate) A → Txn Data A
in_templates d = within (λ rs. record d { config_templates = rs })

-- `List` and `Get`
unfoldable pub list : Data → List ConfigTemplate
list d = sort_by (λ (a b : ConfigTemplate). less_text a.name b.name) d.config_templates

unfoldable pub get : String → Data → Result ConfigTemplate
get id d = elim (find (has_id id_of id) d.config_templates) [ none ↦ err not_found | some r ↦ ok r ]

abbrev pub new_template : String → ℕ → ConfigTemplateSpec → ConfigTemplate
new_template id now s = record {
  id = id;
  name = s.name;
  type_name = s.type_name;
  body = s.body;
  enabled = s.enabled;
  created_at = now;
  updated_at = now;
}

abbrev pub configured : ConfigTemplateSpec → ℕ → ConfigTemplate → ConfigTemplate
configured s now t = record t {
  name = s.name;
  type_name = s.type_name;
  body = s.body;
  enabled = s.enabled;
  updated_at = now;
}

module _ (is_json : String → Bool) where
  -- `validateConfigTemplateBody`
  unfoldable pub validate_body : String → Result (Unit {0})
  validate_body body = do
    refuse (not (is_json body)) invalid
    refuse (not (starts_object (trim_space body))) invalid

  -- `validateConfigTemplateSpec`
  unfoldable pub validate_spec : ConfigTemplateSpec → Result (Unit {0})
  unfolding validate_body
  validate_spec s = do
    refuse (is_blank s.name) invalid
    refuse (is_blank s.type_name) invalid
    validate_body s.body

  -- `Create`
  unfoldable pub create : String → ℕ → ConfigTemplateSpec → Data → Txn Data ConfigTemplate
  unfolding validate_spec
  create id now spec d =
      check (validate_spec spec)
        λ _. in_templates d (add id_of name_of (new_template id now spec) d.config_templates)

  -- `Update`
  unfoldable pub update : String → ℕ → ConfigTemplateSpec → Data → Txn Data ConfigTemplate
  unfolding validate_spec
  update id now spec d = check (validate_spec spec) λ _.
      in_templates d (replace id_of name_of id spec.name (configured spec now) d.config_templates)

abbrev pub stamped : ℕ → ConfigTemplate → ConfigTemplate
stamped now r = record r { updated_at = now }

-- `SetEnabled`, and `update`
unfoldable pub set_enabled : String → ℕ → Bool → Data → Txn Data (Unit {0})
set_enabled id now enabled d = in_templates d (
    change id_of id (stamped now) (setting (λ r. record r { enabled = enabled }))
      d.config_templates)

-- `Delete`
unfoldable pub delete : String → Data → Txn Data (Unit {0})
delete id d = in_templates d (remove id_of id d.config_templates)
