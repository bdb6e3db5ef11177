-- ===== src/Cron/Errors.antt =====
-- The errors of the parser of management/cron.go.
use kplayer_go.Prelude.{
  ℕ, ◌≡◌, ◌≢◌, refl, Bool, true, false, List, [], ◌∷◌, arith, ◌⊎◌, inl, inr, ap, ◌∙◌,
}
use kplayer_go.Prelude.Lists.{length}
use kplayer_go.Prelude.Text.{trim_codes}
use kplayer_go.Model.{Err, invalid, plain}
use kplayer_go.Result.{Result, ok, err, Result-cases}
use kplayer_go.Cron.Scan.{Names, month_names, dow_names, fields, split}
use kplayer_go.Cron.{
  CronField, Cron, parse_value, parse_step, parse_range, parse_field_part, parse_parts, parse_field,
  parse_fields, parse_cron,
}

-- Not an error, or one that wraps no sentinel.
abbrev is_plain : Err → Bool
is_plain plain = true
is_plain _ = false

abbrev fine_or_plain : {A : Type 0} → Result A → Bool
fine_or_plain (ok a) = true
fine_or_plain (err e) = is_plain e

parse_value_plain :
    (s : List ℕ) (min max : ℕ) (names : Names) → fine_or_plain (parse_value s min max names) ≡ true
unfolding parse_value
parse_value_plain s min max names = ground arith

parse_step_plain : (part : List ℕ) → fine_or_plain (parse_step part) ≡ true
unfolding parse_step
parse_step_plain part = ground arith

parse_range_plain :
    (part : List ℕ) (f : CronField) (names : Names)
    → fine_or_plain (parse_range part f names) ≡ true
unfolding parse_range
parse_range_plain part f names = grind (arith, parse_value_plain)

parse_field_part_plain :
    (part : List ℕ) (f : CronField) (names : Names)
    → fine_or_plain (parse_field_part part f names) ≡ true
unfolding parse_field_part
parse_field_part_plain part f names = elim (Result-cases (parse_step part)) [
  | inr (x, e) ↦ ground (arith, e, parse_step_plain part)
  | inl ((range_part, step), e) ↦ ground (arith, e, parse_range_plain range_part f names)
]

parse_parts_plain :
    (parts : List (List ℕ)) (f : CronField) (names : Names)
    → fine_or_plain (parse_parts parts f names) ≡ true
unfolding parse_parts
parse_parts_plain [] f names = refl
parse_parts_plain (part ∷ parts) f names =
    elim (Result-cases (parse_field_part (trim_codes part) f names)) [
      | inl (g, e) ↦ rw e (parse_parts_plain parts g names)
      | inr (x, e) ↦ rw e (ground (arith, e, parse_field_part_plain (trim_codes part) f names))
    ]

parse_field_plain :
    (tok : List ℕ) (min max : ℕ) (names : Names)
    → fine_or_plain (parse_field tok min max names) ≡ true
unfolding parse_field
parse_field_plain tok min max names = ground (
  arith,
  parse_parts_plain (split b',' (trim_codes tok))
      (record { min = min; max = max; values = []; star = false }) names,
)

parse_fields_plain :
    (a b c d e : List ℕ) → fine_or_plain (parse_fields (a ∷ b ∷ c ∷ d ∷ e ∷ [])) ≡ true
unfolding parse_fields
parse_fields_plain a b c d e = ground (
  arith,
  parse_field_plain a 0 59 [],
  parse_field_plain b 0 23 [],
  parse_field_plain c 1 31 [],
  parse_field_plain d 1 12 month_names,
  parse_field_plain e 0 7 dow_names,
)

plain_error : {A : Type 0} (r : Result A) (x : Err) → fine_or_plain r ≡ true → r ≡ err x → x ≡ plain
plain_error (ok a) x h e = cc
plain_error (err plain) x h e = cc
plain_error (err _) x h e = cc

-- How a parse of fields may end.
abbrev Ends : List (List ℕ) → Result Cron → Type 0
Ends fs r =
    ((length fs ≢ 5) × (r ≡ err invalid))
    ⊎ ((length fs ≡ 5) × ((r ≡ err plain) ⊎ ((c : Cron) × (r ≡ ok c))))

parse_fields-error : (fs : List (List ℕ)) → Ends fs (parse_fields fs)
unfolding parse_fields
parse_fields-error [] = inl (λ q. omega arith, refl)
parse_fields-error (a ∷ []) = inl (λ q. omega arith, refl)
parse_fields-error (a ∷ b ∷ []) = inl (λ q. omega arith, refl)
parse_fields-error (a ∷ b ∷ c ∷ []) = inl (λ q. omega arith, refl)
parse_fields-error (a ∷ b ∷ c ∷ d ∷ []) = inl (λ q. omega arith, refl)
parse_fields-error (a ∷ b ∷ c ∷ d ∷ e ∷ []) =
    let r = parse_fields (a ∷ b ∷ c ∷ d ∷ e ∷ []) in
    inr (
      refl,
      elim (Result-cases r) [
        | inl (v, p) ↦ inr (v, p)
        | inr (x, p) ↦ inl (p ∙ ap err (plain_error r x (parse_fields_plain a b c d e) p))
      ],
    )
parse_fields-error (a ∷ b ∷ c ∷ d ∷ e ∷ f ∷ fs) = inl (λ q. omega arith, refl)

-- How `ParseCron` ends: it reports an error that wraps ErrInvalid exactly where the number of
-- fields is not five; with five fields it gives an expression, or an error that wraps no sentinel.
pub parse_cron-error :
    (expr : List ℕ)
    → ((length (fields expr) ≢ 5) × (parse_cron expr ≡ err invalid))
      ⊎ ((length (fields expr) ≡ 5)
          × ((parse_cron expr ≡ err plain) ⊎ ((c : Cron) × (parse_cron expr ≡ ok c))))
unfolding parse_cron
parse_cron-error expr = parse_fields-error (fields expr)
