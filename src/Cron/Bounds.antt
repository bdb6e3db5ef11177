-- ===== src/Cron/Bounds.antt =====
-- Bounds on the values that a parsed expression of management/cron.go allows.
use kplayer_go.Prelude.{
  ℕ, zero, suc, ◌+◌, ◌-◌, ◌≤◌, ◌<◌, ◌≡◌, ◌≢◌, refl, not, true, false, List, [], ◌∷◌, arith,
  Bool-cases, inl, inr, ◌||◌, some, ap, sym, ◌∙◌,
}
use kplayer_go.Prelude.Lists.{any, select, get_elem?}
use kplayer_go.Prelude.Int.{ℤ, pos, eq_ℤ}
use kplayer_go.Prelude.Text.{trim_codes}
use kplayer_go.Result.{Result, ok, ◌>>=◌, Result-cases}
use kplayer_go.Cron.Scan.{Names, month_names, dow_names, fields, split}
use kplayer_go.Cron.{
  CronField, Cron, allows, fill, fill_limit, parse_step, parse_range, parse_field_part, parse_parts,
  counted, is_star, parse_field, normalize_dow, parse_fields, parse_cron,
}
use kplayer_go.Cron.Values.{fill-le}

-- Values up to a bound.
abbrev pub UpTo : ℕ → CronField → Type 0
UpTo max f = (x : ℕ) → allows f x ≡ true → x ≤ max

parse_field_part-UpTo :
    (part : List ℕ) (f g : CronField) (names : Names)
    → UpTo f.max f
    → parse_field_part part f names ≡ ok g
    → (g.max ≡ f.max) × UpTo f.max g
unfolding parse_field_part
parse_field_part-UpTo part f g names h e = elim (Result-cases (parse_step part)) [
  | inr (x, s) ↦ absurd (ground (arith, s, e))
  | inl ((range_part, step), s) ↦ elim (Result-cases (parse_range range_part f names)) [
    | inr (x, r) ↦ absurd (ground (arith, s, r, e))
    | inl ((lo, hi), r) ↦
        let g_is : record f { values = fill fill_limit (pos lo) (pos hi) (pos f.max) step f.values }
            ≡ g =
          ground (arith, s, r, e) in
        rw (← g_is)
          (refl, λ x a. fill-le fill_limit x f.max (pos lo) (pos hi) step f.values (h x) a)
  ]
]

parse_parts-UpTo :
    (parts : List (List ℕ)) (f g : CronField) (names : Names)
    → UpTo f.max f
    → parse_parts parts f names ≡ ok g
    → UpTo f.max g
unfolding parse_parts
parse_parts-UpTo [] f g names h e = let same : f ≡ g = cc in rw (← same) h
parse_parts-UpTo (part ∷ parts) f g names h e =
    elim (Result-cases (parse_field_part (trim_codes part) f names)) [
      | inr (x, s) ↦ absurd (ground (arith, s, e))
      | inl (k, s) ↦
          let (same, next) = parse_field_part-UpTo (trim_codes part) f k names h s in
          rw (← same) (parse_parts-UpTo parts k g names (rw same next) (ground (arith, s, e)))
    ]

counted-UpTo : (n v x : ℕ) → any (eq_ℤ (pos x)) (counted n v) ≡ true → x < v + n
unfolding counted
counted-UpTo zero v x h = cc
counted-UpTo (suc n) v x h = ground (arith, counted-UpTo n (v + 1) x, h)

-- No field allows a value above its maximum.
pub parse_field-UpTo :
    (tok : List ℕ) (min max : ℕ) (names : Names) (f : CronField)
    → min ≤ max
    → parse_field tok min max names ≡ ok f
    → UpTo max f
unfolding parse_field
parse_field-UpTo tok min max names f h e =
    elim (Bool-cases (is_star (split b',' (trim_codes tok)))) [
      | inl s ↦ λ x a. ground (arith, s, e, counted-UpTo (max + 1 - min) min x, a)
      | inr s ↦
          parse_parts-UpTo (split b',' (trim_codes tok))
            (record { min = min; max = max; values = []; star = false }) f names (λ x a. cc)
            (ground (arith, s, e))
    ]

-- The upper bounds of the five fields; Sunday is 0 alone.
pub record InBounds (c : Cron) : Type 0 where
  pub minutes : UpTo 59 c.minute
  pub hours : UpTo 23 c.hour
  pub days : UpTo 31 c.dom
  pub months : UpTo 12 c.month
  pub weekdays : UpTo 6 c.dow

any-select-not :
    (x y : ℕ) (vs : List ℤ)
    → any (eq_ℤ (pos x)) (select (λ v. not (eq_ℤ (pos y) v)) vs) ≡ true
    → (any (eq_ℤ (pos x)) vs ≡ true) × (x ≢ y)
any-select-not x y [] h = cc
any-select-not x y (v ∷ vs) h = ground (arith, any-select-not x y vs, h)

normalize_dow-UpTo : (f : CronField) → UpTo 7 f → UpTo 6 (normalize_dow f)
normalize_dow-UpTo f h x a = ground (arith, any-select-not x 7 f.values, h x, a)

any-select-other :
    (x y : ℕ) (vs : List ℤ)
    → x ≢ y
    → any (eq_ℤ (pos x)) (select (λ v. not (eq_ℤ (pos y) v)) vs) ≡ any (eq_ℤ (pos x)) vs
any-select-other x y [] h = refl
any-select-other x y (v ∷ vs) h = ground (arith, h, any-select-other x y vs h)

-- What the field of the weekdays becomes: the days that the last field names, with 7 read as 0.
pub record HasWeekdays (tokens : List (List ℕ)) (c : Cron) : Type 0 where
  pub token : List ℕ
  pub named : CronField
  pub is_last : get_elem? tokens 4 ≡ some token
  pub parsed : parse_field token 0 7 dow_names ≡ ok named
  pub sunday : allows c.dow 0 ≡ (allows named 0 || allows named 7)
  pub others : (x : ℕ) → 1 ≤ x → x ≤ 6 → allows c.dow x ≡ allows named x

normalize_dow-sunday : (f : CronField) → allows (normalize_dow f) 0 ≡ (allows f 0 || allows f 7)
normalize_dow-sunday f = elim (Bool-cases (allows f 7)) [
  | inl e ↦ ground (arith, e)
  | inr e ↦ ground (arith, e)
]

normalize_dow-others :
    (f : CronField) (x : ℕ) → 1 ≤ x → x ≤ 6 → allows (normalize_dow f) x ≡ allows f x
normalize_dow-others f x lo hi = elim (Bool-cases (allows f 7)) [
  | inl e ↦
      let same = any-select-other x 7 f.values (λ q. omega (arith, q, hi)) in
      ground (arith, e, lo, same)
  | inr e ↦ ground (arith, e)
]

-- The last line of `ParseCron`, over the outcomes of the five fields.
abbrev assembled : (a b d e f : Result CronField) → Result Cron
assembled a b d e f = do
  minute ← a
  hour ← b
  dom ← d
  month ← e
  dow ← f
  ok (record { minute = minute; hour = hour; dom = dom; month = month; dow = normalize_dow dow })

abbrev OkUpTo : ℕ → Result CronField → Type 0
OkUpTo max r = (f : CronField) → r ≡ ok f → UpTo max f

assembled-InBounds :
    (a b d e f : Result CronField) (c : Cron)
    → OkUpTo 59 a
    → OkUpTo 23 b
    → OkUpTo 31 d
    → OkUpTo 12 e
    → OkUpTo 7 f
    → assembled a b d e f ≡ ok c
    → InBounds c
assembled-InBounds (ok a) (ok b) (ok d) (ok e) (ok f) c pa pb pd pe pf h =
    let whole : record { minute = a; hour = b; dom = d; month = e; dow = normalize_dow f } ≡ c =
      cc in
    rw (← whole) (record {
      minutes = pa a refl;
      hours = pb b refl;
      days = pd d refl;
      months = pe e refl;
      weekdays = normalize_dow-UpTo f (pf f refl);
    })
assembled-InBounds _ _ _ _ _ c pa pb pd pe pf h = cc

parse_fields-InBounds : (fs : List (List ℕ)) (c : Cron) → parse_fields fs ≡ ok c → InBounds c
unfolding parse_fields
parse_fields-InBounds (a ∷ b ∷ d ∷ e ∷ f ∷ []) c h =
    assembled-InBounds (parse_field a 0 59 []) (parse_field b 0 23 []) (parse_field d 1 31 [])
      (parse_field e 1 12 month_names) (parse_field f 0 7 dow_names) c
      (λ g. parse_field-UpTo a 0 59 [] g (omega arith))
      (λ g. parse_field-UpTo b 0 23 [] g (omega arith))
      (λ g. parse_field-UpTo d 1 31 [] g (omega arith))
      (λ g. parse_field-UpTo e 1 12 month_names g (omega arith))
      (λ g. parse_field-UpTo f 0 7 dow_names g (omega arith)) h
parse_fields-InBounds _ c h = cc

assembled-HasWeekdays :
    (a b d e f : Result CronField) (c : Cron)
    → assembled a b d e f ≡ ok c
    → (g : CronField) × (f ≡ ok g) × (normalize_dow g ≡ c.dow)
assembled-HasWeekdays (ok a) (ok b) (ok d) (ok e) (ok f) c h =
    let whole : record { minute = a; hour = b; dom = d; month = e; dow = normalize_dow f } ≡ c =
      cc in
    (f, refl, ap (λ (x : Cron). x.dow) whole)
assembled-HasWeekdays _ _ _ _ _ c h = cc

parse_fields-HasWeekdays :
    (fs : List (List ℕ)) (c : Cron) → parse_fields fs ≡ ok c → HasWeekdays fs c
unfolding parse_fields
parse_fields-HasWeekdays (a ∷ b ∷ d ∷ e ∷ f ∷ []) c h =
    let (g, p, q) =
      assembled-HasWeekdays (parse_field a 0 59 []) (parse_field b 0 23 []) (parse_field d 1 31 [])
        (parse_field e 1 12 month_names) (parse_field f 0 7 dow_names) c h in
    record {
      token = f;
      named = g;
      is_last = refl;
      parsed = p;
      sunday = ap (λ (x : CronField). allows x 0) (sym q) ∙ normalize_dow-sunday g;
      others =
          λ x lo hi. ap (λ (y : CronField). allows y x) (sym q) ∙ normalize_dow-others g x lo hi;
    }
parse_fields-HasWeekdays _ c h = cc

-- A parsed expression allows no value above the range of its field, 6 for the weekdays; Sunday, 0,
-- is allowed exactly if the last field names 0 or 7, and each of the days 1 to 6 exactly if the
-- last field names it.
pub parse_cron-InBounds :
    (expr : List ℕ) (c : Cron) → parse_cron expr ≡ ok c → InBounds c × HasWeekdays (fields expr) c
unfolding parse_cron
parse_cron-InBounds expr c h =
    (parse_fields-InBounds (fields expr) c h, parse_fields-HasWeekdays (fields expr) c h)
