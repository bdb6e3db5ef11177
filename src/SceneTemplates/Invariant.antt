-- ===== src/SceneTemplates/Invariant.antt =====
-- The templates of management/scene_template.go stay well-formed under every operation.
use kplayer_go.Prelude.{
  ℕ, ◌≡◌, refl, Bool, true, false, String, List, arith, Option-cases, inl, inr,
}
use mathlib.Core.Path.{subst}
use kplayer_go.Prelude.Lists.{any}
use kplayer_go.Model.{Data, SceneTemplate}
use kplayer_go.Result.{ok, outcome, outcome-check}
use kplayer_go.Collection.{find, has_id}
use kplayer_go.Collection.Laws.{All-find}
use kplayer_go.Catalog.{add}
use kplayer_go.Catalog.Laws.{Kept, add-Holds, replace-Holds, set-Holds, remove-Holds}
use kplayer_go.SceneTemplates.{
  SceneTemplateSpec, known_kind, validate_spec, id_of, name_of, in_templates, new_template,
  configured, stamped, copy_of, create, update, set_enabled, duplicate, delete,
}

abbrev pub IsTemplate : SceneTemplate → Type 0
IsTemplate t = known_kind t.kind ≡ true

abbrev pub WellFormed : List SceneTemplate → Type 0
WellFormed = Kept id_of name_of IsTemplate

-- The calls that change templates.
pub data Call : Type 0 where
  creating updating : String → ℕ → SceneTemplateSpec → Call
  enabling : String → ℕ → Bool → Call
  duplicating : String → ℕ → String → Call
  deleting : String → Call

pub after_call : Call → Data → Data
after_call (creating id now spec) d = outcome d (create id now spec d)
after_call (updating id now spec) d = outcome d (update id now spec d)
after_call (enabling id now enabled) d = outcome d (set_enabled id now enabled d)
after_call (duplicating new_id now id) d = outcome d (duplicate new_id now id d)
after_call (deleting id) d = outcome d (delete id d)

-- The id that a creation or a copy draws is new.
abbrev pub HasNewId : Call → Data → Type 0
HasNewId (creating id now spec) d = any (has_id id_of id) d.scene_templates ≡ false
HasNewId (duplicating new_id now id) d = any (has_id id_of new_id) d.scene_templates ≡ false
HasNewId _ d = Unit

abbrev put : Data → List SceneTemplate → Data
put d ts = record d { scene_templates = ts }

abbrev read : Data → List SceneTemplate
read d = d.scene_templates

spec-known_kind :
    (s : SceneTemplateSpec) (u : Unit {0}) → validate_spec s ≡ ok u → known_kind s.kind ≡ true
unfolding validate_spec
spec-known_kind s u h = ground (arith, h)

duplicate-WellFormed :
    (new_id : String) (now : ℕ) (id : String) (d : Data)
    → any (has_id id_of new_id) d.scene_templates ≡ false
    → WellFormed d.scene_templates
    → WellFormed (outcome d (duplicate new_id now id d)).scene_templates
unfolding duplicate
duplicate-WellFormed new_id now id d new good =
    elim (Option-cases (find (has_id id_of id) d.scene_templates)) [
      | inl gone ↦
          let same : d ≡ outcome d (duplicate new_id now id d) = ground (arith, gone) in
          subst (λ (x : Data). WellFormed x.scene_templates) same good
      | inr (t, f) ↦
          let c = copy_of new_id now t in
          let same : outcome d (in_templates d (add id_of name_of c d.scene_templates))
              ≡ outcome d (duplicate new_id now id d) =
            ground (arith, f) in
          subst (λ (x : Data). WellFormed x.scene_templates) same
            (add-Holds id_of name_of IsTemplate put read (λ d ts. refl) c d new
              (All-find (has_id id_of id) IsTemplate d.scene_templates t good.each f) good)
    ]

-- Whatever is called, with whichever outcome, no two scene templates share a name or an id
-- afterwards, and every template has a known kind, if all this was so before and a creation or a
-- copy draws a new id.
pub after_template_call-WellFormed :
    (k : Call) (d : Data)
    → HasNewId k d
    → WellFormed d.scene_templates
    → WellFormed (after_call k d).scene_templates
unfolding after_call create update set_enabled delete
after_template_call-WellFormed (creating id now spec) d new good =
    outcome-check (λ (x : Data). WellFormed x.scene_templates) d (validate_spec spec) _ good
      λ u e.
        add-Holds id_of name_of IsTemplate put read (λ d ts. refl) (new_template id now spec) d new
          (spec-known_kind spec u e) good
after_template_call-WellFormed (updating id now spec) d new good =
    outcome-check (λ (x : Data). WellFormed x.scene_templates) d (validate_spec spec) _ good
      λ u e.
        replace-Holds id_of name_of IsTemplate put read (λ d ts. refl) id spec.name
          (configured spec now) d (λ t. refl) (λ t. refl) (λ t _. spec-known_kind spec u e) good
after_template_call-WellFormed (enabling id now enabled) d new good =
    set-Holds id_of name_of IsTemplate put read (λ d ts. refl) id (stamped now)
      (λ t. record t { enabled = enabled }) d (λ t. refl) (λ t. refl) (λ t k. k) good
after_template_call-WellFormed (duplicating new_id now id) d new good =
    duplicate-WellFormed new_id now id d new good
after_template_call-WellFormed (deleting id) d new good =
    remove-Holds id_of name_of IsTemplate put read (λ d ts. refl) id d good
