-- ===== src/SmartRules/Invariant.antt =====
-- The rules of management/smart_rule.go stay well-formed under every operation.
use kplayer_go.Prelude.{ℕ, ◌≡◌, refl, Bool, false, String, List, [], ◌∷◌, arith, inl, inr}
use kplayer_go.Prelude.Lists.{any, All}
use kplayer_go.Prelude.Int.{pos, ltb_ℤ}
use kplayer_go.Model.{Data, SmartRule, TimeSlot}
use kplayer_go.Result.{ok, Result-cases, outcome, outcome-check}
use kplayer_go.Collection.{has_id}
use kplayer_go.Catalog.Laws.{Kept, add-Holds, replace-Holds, set-Holds, remove-Holds}
use kplayer_go.SmartRules.{
  SmartRuleSpec, is_negative, validate_slot, validate_slots, validate_spec, id_of, name_of,
  new_rule, configured, stamped, create, update, set_enabled, delete,
}

-- A window inside one day
abbrev pub IsSlot : TimeSlot → Type 0
IsSlot s =
    (is_negative s.start_hour ≡ false)
    × (ltb_ℤ s.end_hour s.start_hour ≡ false)
    × (ltb_ℤ (pos 23) s.end_hour ≡ false)

abbrev pub IsRule : SmartRule → Type 0
IsRule r =
    All IsSlot r.time_slots
    × (is_negative r.max_duration_sec ≡ false)
    × (is_negative r.repeat_lookback ≡ false)
    × (is_negative r.max_items ≡ false)

abbrev pub WellFormed : List SmartRule → Type 0
WellFormed = Kept id_of name_of IsRule

-- The calls that change rules.
pub data Call : Type 0 where
  creating updating : String → ℕ → SmartRuleSpec → Call
  enabling : String → ℕ → Bool → Call
  deleting : String → Call

pub after_call : Call → Data → Data
after_call (creating id now spec) d = outcome d (create id now spec d)
after_call (updating id now spec) d = outcome d (update id now spec d)
after_call (enabling id now enabled) d = outcome d (set_enabled id now enabled d)
after_call (deleting id) d = outcome d (delete id d)

-- The id that a creation draws is new.
abbrev pub HasNewId : Call → Data → Type 0
HasNewId (creating id now spec) d = any (has_id id_of id) d.smart_rules ≡ false
HasNewId _ d = Unit

abbrev put : Data → List SmartRule → Data
put d rs = record d { smart_rules = rs }

abbrev read : Data → List SmartRule
read d = d.smart_rules

validate_slot-IsSlot : (s : TimeSlot) (u : Unit {0}) → validate_slot s ≡ ok u → IsSlot s
unfolding validate_slot
validate_slot-IsSlot s u h = (ground (arith, h), ground (arith, h), ground (arith, h))

validate_slots-IsSlot :
    (slots : List TimeSlot) (u : Unit {0}) → validate_slots slots ≡ ok u → All IsSlot slots
validate_slots-IsSlot [] u h = tt
validate_slots-IsSlot (s ∷ slots) u h = elim (Result-cases (validate_slot s)) [
  | inl (v, e) ↦ (validate_slot-IsSlot s v e, validate_slots-IsSlot slots u (ground (arith, e, h)))
  | inr (x, e) ↦ absurd (ground (arith, e, h))
]

spec-IsRule :
    (s : SmartRuleSpec) (id : String) (now : ℕ) (u : Unit {0})
    → validate_spec s ≡ ok u
    → IsRule (new_rule id now s)
unfolding validate_spec
spec-IsRule s id now u h = elim (Result-cases (validate_slots s.time_slots)) [
  | inl (v, e) ↦ (
    validate_slots-IsSlot s.time_slots v e,
    ground (arith, e, h),
    ground (arith, e, h),
    ground (arith, e, h),
  )
  | inr (x, e) ↦ absurd (ground (arith, e, h))
]

-- Whatever is called, with whichever outcome, no two smart rules share a name or an id afterwards,
-- every time slot of a rule starts at hour 0 or later, does not end before it starts and ends at
-- hour 23 or earlier, and no limit of a rule is negative, if all this was so before and a creation
-- draws a new id.
pub after_rule_call-WellFormed :
    (k : Call) (d : Data)
    → HasNewId k d
    → WellFormed d.smart_rules
    → WellFormed (after_call k d).smart_rules
unfolding after_call create update set_enabled delete
after_rule_call-WellFormed (creating id now spec) d new good =
    outcome-check (λ (x : Data). WellFormed x.smart_rules) d (validate_spec spec) _ good
      λ u e.
        add-Holds id_of name_of IsRule put read (λ d rs. refl) (new_rule id now spec) d new
          (spec-IsRule spec id now u e) good
after_rule_call-WellFormed (updating id now spec) d new good =
    outcome-check (λ (x : Data). WellFormed x.smart_rules) d (validate_spec spec) _ good
      λ u e.
        replace-Holds id_of name_of IsRule put read (λ d rs. refl) id spec.name
          (configured spec now) d (λ r. refl) (λ r. refl) (λ r _. spec-IsRule spec id now u e) good
after_rule_call-WellFormed (enabling id now enabled) d new good =
    set-Holds id_of name_of IsRule put read (λ d rs. refl) id (stamped now)
      (λ r. record r { enabled = enabled }) d (λ r. refl) (λ r. refl) (λ r k. k) good
after_rule_call-WellFormed (deleting id) d new good =
    remove-Holds id_of name_of IsRule put read (λ d rs. refl) id d good
