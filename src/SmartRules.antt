-- ===== src/SmartRules.antt =====
-- management/smart_rule.go: `SmartRuleService`. Each operation is the callback of `Store.Update`
-- that it runs, after its checks. Generation is
-- the step from a rule to a playlist.
pub mod Invariant
pub mod Generation
use kplayer_go.Prelude.{ℕ, String, Bool, not, ◌||◌, Option, none, some, List, [], ◌∷◌}
use kplayer_go.Prelude.Int.{ℤ, pos, ltb_ℤ}
use kplayer_go.Prelude.Text.{is_blank, less_text}
use kplayer_go.Model.{Data, SmartRule, TimeSlot}
use kplayer_go.Model.Err.{not_found, invalid}
use kplayer_go.Result.{Result, ok, err, Txn, refuse, check, ◌>>◌}
use kplayer_go.Collection.{find, has_id}
use kplayer_go.Ordering.{sort_by}
use kplayer_go.Catalog.{add, replace, change, setting, remove, within}

pub record SmartRuleSpec : Type 0 where
  pub name : String
  pub description : String
  pub time_slots : List TimeSlot
  pub tags : List String
  pub max_duration_sec : ℤ
  pub avoid_repeat : Bool
  pub repeat_lookback : ℤ
  pub max_items : ℤ
  pub enabled : Bool

abbrev pub is_negative : ℤ → Bool
is_negative z = ltb_ℤ z (pos 0)

-- `validateTimeSlot`
unfoldable pub validate_slot : TimeSlot → Result (Unit {0})
validate_slot s = do
  refuse
      (is_negative s.start_hour
        || ltb_ℤ (pos 23) s.start_hour
        || is_negative s.end_hour
        || ltb_ℤ (pos 23) s.end_hour)
      invalid
  refuse (ltb_ℤ s.end_hour s.start_hour) invalid

-- The loop over the slots
abbrev pub validate_slots : List TimeSlot → Result (Unit {0})
validate_slots [] = ok tt
validate_slots (s ∷ slots) = validate_slot s >> validate_slots slots

-- `validateSmartRuleSpec`
unfoldable pub validate_spec : SmartRuleSpec → Result (Unit {0})
validate_spec s = do
  refuse (is_blank s.name) invalid
  validate_slots s.time_slots
  refuse (is_negative s.max_duration_sec) invalid
  refuse (is_negative s.repeat_lookback) invalid
  refuse (is_negative s.max_items) invalid

abbrev pub id_of : SmartRule → String
id_of r = r.id

abbrev pub name_of : SmartRule → String
name_of r = r.name

abbrev pub in_rules {ℓ} : {A : Type ℓ} → Data → Txn (List SmartRule) A → Txn Data A
in_rules d = within (λ rs. record d { smart_rules = rs })

-- `List` and `Get`
unfoldable pub list : Data → List SmartRule
list d = sort_by (λ (a b : SmartRule). less_text a.name b.name) d.smart_rules

unfoldable pub get : String → Data → Result SmartRule
get id d = elim (find (has_id id_of id) d.smart_rules) [ none ↦ err not_found | some r ↦ ok r ]

abbrev pub new_rule : String → ℕ → SmartRuleSpec → SmartRule
new_rule id now s = record {
  id = id;
  name = s.name;
  description = s.description;
  time_slots = s.time_slots;
  tags = s.tags;
  max_duration_sec = s.max_duration_sec;
  avoid_repeat = s.avoid_repeat;
  repeat_lookback = s.repeat_lookback;
  max_items = s.max_items;
  enabled = s.enabled;
  created_at = now;
  updated_at = now;
}

-- `Create`
unfoldable pub create : String → ℕ → SmartRuleSpec → Data → Txn Data SmartRule
unfolding validate_spec
create id now spec d =
    check (validate_spec spec)
      λ _. in_rules d (add id_of name_of (new_rule id now spec) d.smart_rules)

abbrev pub configured : SmartRuleSpec → ℕ → SmartRule → SmartRule
configured s now r = record r {
  name = s.name;
  description = s.description;
  time_slots = s.time_slots;
  tags = s.tags;
  max_duration_sec = s.max_duration_sec;
  avoid_repeat = s.avoid_repeat;
  repeat_lookback = s.repeat_lookback;
  max_items = s.max_items;
  enabled = s.enabled;
  updated_at = now;
}

-- `Update`
unfoldable pub update : String → ℕ → SmartRuleSpec → Data → Txn Data SmartRule
unfolding validate_spec
update id now spec d =
    check (validate_spec spec)
      λ _. in_rules d (replace id_of name_of id spec.name (configured spec now) d.smart_rules)

abbrev pub stamped : ℕ → SmartRule → SmartRule
stamped now r = record r { updated_at = now }

-- `SetEnabled`, and `update`
unfoldable pub set_enabled : String → ℕ → Bool → Data → Txn Data (Unit {0})
set_enabled id now enabled d =
    in_rules d
      (change id_of id (stamped now) (setting (λ r. record r { enabled = enabled })) d.smart_rules)

-- `Delete`
unfoldable pub delete : String → Data → Txn Data (Unit {0})
delete id d = in_rules d (remove id_of id d.smart_rules)
