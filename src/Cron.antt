-- ===== src/Cron.antt =====
-- management/cron.go: the parser of five-field cron expressions, over the code points of the
-- text, and the search for the next time that matches.
pub mod Scan
pub mod Values
pub mod Errors
pub mod Bounds
pub mod Next
use kplayer_go.Prelude.{
  ℕ, zero, suc, ◌+◌, ◌-◌, ◌<◌, Bool, true, false, ◌&&◌, ◌||◌, not, Option, none, some, List, [],
  ◌∷◌, leb, ltb, ◌==◌, if◌then◌else◌,
}
use kplayer_go.Prelude.Lists.{any, select}
use kplayer_go.Prelude.Int.{ℤ, pos, negsuc, leb_ℤ, ltb_ℤ, wrap64, add_ℤ, eq_ℤ}
use kplayer_go.Prelude.Text.{trim_codes}
use kplayer_go.Model.{Err, invalid, plain}
use kplayer_go.Result.{Result, ok, err, ◌>>=◌, ◌>>◌, refuse}
use kplayer_go.Cron.Scan.{
  Names, fields, split, cut, atoi, lower, name_value, month_names, dow_names, same_codes,
}

-- The set of allowed values is the list of the keys that the map holds.
pub record CronField : Type 0 where
  pub min : ℕ
  pub max : ℕ
  pub values : List ℤ
  pub star : Bool

pub record Cron : Type 0 where
  pub minute : CronField
  pub hour : CronField
  pub dom : CronField
  pub month : CronField
  pub dow : CronField

-- `f.values[v]`
abbrev pub allows : CronField → ℕ → Bool
allows f v = any (eq_ℤ (pos v)) f.values

-- `parseValue`; the bounds are not negative, so a value within them is not either.
abbrev pub in_range : ℕ → ℕ → ℤ → Result ℕ
in_range min max (pos n) = if ltb n min || ltb max n then err plain else ok n
in_range min max (negsuc n) = err plain

unfoldable pub parse_value : List ℕ → ℕ → ℕ → Names → Result ℕ
parse_value s min max names =
    let t = trim_codes (lower s) in
    elim (name_value t names) [
      | some n ↦ ok n
      | none ↦ (elim (atoi t) [ none ↦ err plain | some v ↦ in_range min max v ])
    ]

-- The loop of `parseFieldPart`, whose sum wraps around in 64 bits.
unfoldable pub fill : ℕ → ℤ → ℤ → ℤ → ℤ → List ℤ → List ℤ
fill zero v hi max step values = values
fill (suc fuel) v hi max step values =
    let rest = fill fuel (wrap64 (add_ℤ v step)) hi max step (v ∷ values) in
    if leb_ℤ v hi && leb_ℤ v max then rest else values

abbrev pub fill_limit : ℕ
fill_limit = 200

-- The step behind a slash, and what stands before it.
unfoldable pub parse_step : List ℕ → Result (List ℕ × ℤ)
parse_step part = elim (cut b'/' part) [
  | none ↦ ok (part, pos 1)
  | some (before, behind) ↦ (elim (atoi (trim_codes behind)) [
    | none ↦ err plain
    | some s ↦ if leb_ℤ s (pos 0) then err plain else ok (before, s)
  ])
]

-- The bounds that the part before the slash names.
unfoldable pub parse_range : List ℕ → CronField → Names → Result (ℕ × ℕ)
parse_range part f names =
    if same_codes (trim_codes part) (b'*' ∷ []) then ok (f.min, f.max) else (elim (cut b'-' part) [
      | some (left, right) ↦ (do
        lo ← parse_value left f.min f.max names
        hi ← parse_value right f.min f.max names
        refuse (ltb hi lo) plain
        ok (lo, hi))
      | none ↦ (do v ← parse_value part f.min f.max names; ok (v, v))
    ])

-- `parseFieldPart`
unfoldable pub parse_field_part : List ℕ → CronField → Names → Result CronField
parse_field_part part f names = do
  (range_part, step) ← parse_step part
  (lo, hi) ← parse_range range_part f names
  ok (record f { values = fill fill_limit (pos lo) (pos hi) (pos f.max) step f.values })

unfoldable pub parse_parts : List (List ℕ) → CronField → Names → Result CronField
parse_parts [] f names = ok f
parse_parts (part ∷ parts) f names = do
  g ← parse_field_part (trim_codes part) f names
  parse_parts parts g names

-- All values from `min` on, `n` of them.
unfoldable pub counted : ℕ → ℕ → List ℤ
counted zero v = []
counted (suc n) v = pos v ∷ counted n (v + 1)

-- A field that consists of one star.
abbrev pub is_star : List (List ℕ) → Bool
is_star (part ∷ []) = same_codes (trim_codes part) (b'*' ∷ [])
is_star _ = false

-- `parseField`
unfoldable pub parse_field : List ℕ → ℕ → ℕ → Names → Result CronField
parse_field tok min max names =
    let parts = split b',' (trim_codes tok) in
    if is_star parts
    then ok (record { min = min; max = max; values = counted (max + 1 - min) min; star = true })
    else parse_parts parts (record { min = min; max = max; values = []; star = false }) names

-- Sunday as 7 becomes Sunday as 0.
abbrev pub normalize_dow : CronField → CronField
normalize_dow f =
    if allows f 7
    then record f { values = pos 0 ∷ select (λ v. not (eq_ℤ (pos 7) v)) f.values }
    else f

unfoldable pub parse_fields : List (List ℕ) → Result Cron
parse_fields (a ∷ b ∷ c ∷ d ∷ e ∷ []) = do
  minute ← parse_field a 0 59 []
  hour ← parse_field b 0 23 []
  dom ← parse_field c 1 31 []
  month ← parse_field d 1 12 month_names
  dow ← parse_field e 0 7 dow_names
  ok (record { minute = minute; hour = hour; dom = dom; month = month; dow = normalize_dow dow })
parse_fields _ = err invalid

-- `ParseCron`
unfoldable pub parse_cron : List ℕ → Result Cron
unfolding parse_fields
parse_cron expr = parse_fields (fields expr)

-- `matchDay`
unfoldable pub match_day : Cron → ℕ → ℕ → Bool
match_day c day dow =
    if not c.dom.star && not c.dow.star
    then allows c.dom day || allows c.dow dow
    else if not c.dom.star
    then allows c.dom day
    else if not c.dow.star
    then allows c.dow dow
    else true
