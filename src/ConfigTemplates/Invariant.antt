-- ===== src/ConfigTemplates/Invariant.antt =====
-- The templates of management/config_template.go stay well-formed under every operation.
use kplayer_go.Prelude.{ℕ, ◌≡◌, refl, Bool, true, false, String, List, arith}
use kplayer_go.Prelude.Lists.{any}
use kplayer_go.Prelude.Text.{trim_space, is_blank}
use kplayer_go.Model.{Data, ConfigTemplate}
use kplayer_go.Result.{ok, outcome, outcome-check}
use kplayer_go.Collection.{has_id}
use kplayer_go.Catalog.Laws.{Kept, add-Holds, replace-Holds, set-Holds, remove-Holds}
use kplayer_go.ConfigTemplates.{
  ConfigTemplateSpec, starts_object, validate_body, validate_spec, id_of, name_of, new_template,
  configured, stamped, create, update, set_enabled, delete,
}

-- A template has a name and a type, and its body is a JSON object.
abbrev pub IsTemplate : (String → Bool) → ConfigTemplate → Type 0
IsTemplate is_json t =
    (is_blank t.name ≡ false)
    × (is_blank t.type_name ≡ false)
    × (is_json t.body ≡ true)
    × (starts_object (trim_space t.body) ≡ true)

abbrev pub WellFormed : (String → Bool) → List ConfigTemplate → Type 0
WellFormed is_json = Kept id_of name_of (IsTemplate is_json)

-- The calls that change templates.
pub data Call : Type 0 where
  creating updating : String → ℕ → ConfigTemplateSpec → Call
  enabling : String → ℕ → Bool → Call
  deleting : String → Call

pub after_call : (String → Bool) → Call → Data → Data
after_call is_json (creating id now spec) d = outcome d (create is_json id now spec d)
after_call is_json (updating id now spec) d = outcome d (update is_json id now spec d)
after_call is_json (enabling id now enabled) d = outcome d (set_enabled id now enabled d)
after_call is_json (deleting id) d = outcome d (delete id d)

-- The id that a creation draws is new.
abbrev pub HasNewId : Call → Data → Type 0
HasNewId (creating id now spec) d = any (has_id id_of id) d.config_templates ≡ false
HasNewId _ d = Unit

abbrev put : Data → List ConfigTemplate → Data
put d ts = record d { config_templates = ts }

abbrev read : Data → List ConfigTemplate
read d = d.config_templates

spec-IsTemplate :
    (is_json : String → Bool) (s : ConfigTemplateSpec) (id : String) (now : ℕ) (u : Unit {0})
    → validate_spec is_json s ≡ ok u
    → IsTemplate is_json (new_template id now s)
unfolding validate_spec validate_body
spec-IsTemplate is_json s id now u h =
    (ground (arith, h), ground (arith, h), ground (arith, h), ground (arith, h))

-- Whatever is called, with whichever outcome, no two configuration templates share a name or an
-- id afterwards, and every template has a name and a type that are not blank and a body that is
-- valid JSON and begins as an object, if all this was so before and a creation draws a new id.
pub after_config_call-WellFormed :
    (is_json : String → Bool) (k : Call) (d : Data)
    → HasNewId k d
    → WellFormed is_json d.config_templates
    → WellFormed is_json (after_call is_json k d).config_templates
unfolding after_call create update set_enabled delete
after_config_call-WellFormed is_json (creating id now spec) d new good =
    outcome-check (λ (x : Data). WellFormed is_json x.config_templates) d
      (validate_spec is_json spec) _ good
      λ u e.
        add-Holds id_of name_of (IsTemplate is_json) put read (λ d ts. refl)
          (new_template id now spec) d new (spec-IsTemplate is_json spec id now u e) good
after_config_call-WellFormed is_json (updating id now spec) d new good =
    outcome-check (λ (x : Data). WellFormed is_json x.config_templates) d
      (validate_spec is_json spec) _ good
      λ u e.
        replace-Holds id_of name_of (IsTemplate is_json) put read (λ d ts. refl) id spec.name
          (configured spec now) d (λ t. refl) (λ t. refl)
          (λ t _. spec-IsTemplate is_json spec id now u e) good
after_config_call-WellFormed is_json (enabling id now enabled) d new good =
    set-Holds id_of name_of (IsTemplate is_json) put read (λ d ts. refl) id (stamped now)
      (λ t. record t { enabled = enabled }) d (λ t. refl) (λ t. refl) (λ t k. k) good
after_config_call-WellFormed is_json (deleting id) d new good =
    remove-Holds id_of name_of (IsTemplate is_json) put read (λ d ts. refl) id d good
