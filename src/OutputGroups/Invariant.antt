-- ===== src/OutputGroups/Invariant.antt =====
-- The groups of management/output_group.go stay well-formed under every operation.
use kplayer_go.Prelude.{
  ℕ, ◌≡◌, refl, Bool, false, not, String, List, [], ◌∷◌, ◌++◌, arith, str_eq, Option-cases, inl,
  inr,
}
use mathlib.Core.Path.{subst}
use kplayer_go.Prelude.Lists.{any, select, All-select}
use kplayer_go.Prelude.Text.{trim_space, is_blank}
use kplayer_go.Model.{Data, OutputGroup}
use kplayer_go.Result.{ok, outcome, outcome-check}
use kplayer_go.Collection.{find, has_id}
use kplayer_go.Collection.Distinct.{Distinct-select}
use kplayer_go.Catalog.{remove}
use kplayer_go.Catalog.Laws.{
  Kept, Keeps, add-Holds, replace-Holds, change-Holds, set-Holds, remove-Holds,
}
use kplayer_go.OutputGroups.{
  OutputGroupSpec, validate_spec, id_of, name_of, in_groups, new_group, configured, stamped,
  change_group, create, update, set_enabled, add_output, remove_output, with_output, without_output,
  delete,
}
use kplayer_go.OutputGroups.References.{AreRefs, append-AreRefs, normalize_refs_exact}

abbrev pub IsGroup : OutputGroup → Type 0
IsGroup g = (is_blank g.name ≡ false) × AreRefs g.outputs

abbrev pub WellFormed : List OutputGroup → Type 0
WellFormed = Kept id_of name_of IsGroup

-- The calls that change groups.
pub data Call : Type 0 where
  creating : String → ℕ → OutputGroupSpec → Call
  updating : String → ℕ → OutputGroupSpec → Call
  enabling : String → ℕ → Bool → Call
  adding : String → ℕ → String → Call
  removing : String → ℕ → String → Call
  deleting : String → Call

pub after_call : Call → Data → Data
after_call (creating id now spec) d = outcome d (create id now spec d)
after_call (updating id now spec) d = outcome d (update id now spec d)
after_call (enabling id now enabled) d = outcome d (set_enabled id now enabled d)
after_call (adding id now unique) d = outcome d (add_output id now unique d)
after_call (removing id now unique) d = outcome d (remove_output id now unique d)
after_call (deleting id) d = outcome d (delete id d)

-- The id that a creation draws is new.
abbrev pub HasNewId : Call → Data → Type 0
HasNewId (creating id now spec) d = any (has_id id_of id) d.output_groups ≡ false
HasNewId _ d = Unit

abbrev put : Data → List OutputGroup → Data
put d gs = record d { output_groups = gs }

abbrev read : Data → List OutputGroup
read d = d.output_groups

spec-named :
    (spec : OutputGroupSpec) (u : Unit {0}) → validate_spec spec ≡ ok u → is_blank spec.name ≡ false
unfolding validate_spec
spec-named spec u h = ground (arith, h)

with_output-Keeps :
    (now : ℕ) (r : String) → Keeps id_of name_of IsGroup (stamped now) (with_output r)
with_output-Keeps now r g y u h good =
    let filled : str_eq r "" ≡ false = ground (arith, h) in
    let new : any (λ o. str_eq o r) g.outputs ≡ false = ground (arith, h) in
    let same : record g { outputs = g.outputs ++ r ∷ [] } ≡ y = ground (arith, h) in
    subst (λ (z : OutputGroup). (z.id ≡ g.id) × (z.name ≡ g.name) × IsGroup z) same
      (refl, refl, (good.0, append-AreRefs g.outputs r filled new good.1))

without_output-Keeps :
    (now : ℕ) (r : String) → Keeps id_of name_of IsGroup (stamped now) (without_output r)
without_output-Keeps now r g y u h good =
    let stays : String → Bool = λ o. not (str_eq o r) in
    let same : record g { outputs = select stays g.outputs } ≡ y = ground (arith, h) in
    subst (λ (z : OutputGroup). (z.id ≡ g.id) × (z.name ≡ g.name) × IsGroup z) same
      (
        refl,
        refl,
        (
          good.0,
          (
            Distinct-select (λ x. x) stays g.outputs good.1.0,
            All-select (λ x. str_eq x "" ≡ false) stays g.outputs good.1.1,
          ),
        ),
      )

delete-WellFormed :
    (id : String) (d : Data)
    → WellFormed d.output_groups
    → WellFormed (outcome d (delete id d)).output_groups
unfolding delete
delete-WellFormed id d good = elim (Option-cases (find (has_id id_of id) d.output_groups)) [
  | inl n ↦
      let same : d ≡ outcome d (delete id d) = ground (arith, n) in
      subst (λ (x : Data). WellFormed x.output_groups) same good
  | inr (g, f) ↦
      let same : outcome d (in_groups d (remove id_of id d.output_groups))
          ≡ outcome d (delete id d) =
        ground (arith, f) in
      subst (λ (x : Data). WellFormed x.output_groups) same
        (remove-Holds id_of name_of IsGroup put read (λ d gs. refl) id d good)
]

-- Whatever is called, with whichever outcome, no two groups share a name or an id afterwards, and
-- every group has a name that is not blank and references that are set and stand once, if all
-- this was so before and a creation draws a new id.
pub after_group_call-WellFormed :
    (k : Call) (d : Data)
    → HasNewId k d
    → WellFormed d.output_groups
    → WellFormed (after_call k d).output_groups
unfolding after_call create update change_group set_enabled add_output remove_output
after_group_call-WellFormed (creating id now spec) d new good =
    outcome-check (λ (x : Data). WellFormed x.output_groups) d (validate_spec spec) _ good
      λ u e.
        add-Holds id_of name_of IsGroup put read (λ d gs. refl) (new_group id now spec) d new
          (spec-named spec u e, (normalize_refs_exact spec.outputs).0) good
after_group_call-WellFormed (updating id now spec) d new good =
    outcome-check (λ (x : Data). WellFormed x.output_groups) d (validate_spec spec) _ good
      λ u e.
        replace-Holds id_of name_of IsGroup put read (λ d gs. refl) id spec.name
          (configured spec now) d (λ g. refl) (λ g. refl)
          (λ g _. (spec-named spec u e, (normalize_refs_exact spec.outputs).0)) good
after_group_call-WellFormed (enabling id now enabled) d new good =
    set-Holds id_of name_of IsGroup put read (λ d gs. refl) id (stamped now)
      (λ g. record g { enabled = enabled }) d (λ g. refl) (λ g. refl) (λ g k. k) good
after_group_call-WellFormed (adding id now unique) d new good =
    change-Holds id_of name_of IsGroup put read (λ d gs. refl) id (stamped now)
      (with_output (trim_space unique)) d (with_output-Keeps now (trim_space unique)) good
after_group_call-WellFormed (removing id now unique) d new good =
    change-Holds id_of name_of IsGroup put read (λ d gs. refl) id (stamped now)
      (without_output (trim_space unique)) d (without_output-Keeps now (trim_space unique)) good
after_group_call-WellFormed (deleting id) d new good = delete-WellFormed id d good
