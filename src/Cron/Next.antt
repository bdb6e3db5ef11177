-- ===== src/Cron/Next.antt =====
-- `Next` of management/cron.go: the first matching minute after an instant. The calendar of the
-- location, which Go's `time` reads from the time-zone data of the machine, is a parameter.
use kplayer_go.Prelude.{
  ℕ, zero, suc, ◌+◌, ◌-◌, ◌*◌, ◌/◌, ◌%◌, ◌≤◌, ◌<◌, ◌≡◌, refl, Bool, true, false, ◌&&◌, arith, ltb,
  ◌==◌, if◌then◌else◌, Bool-cases, inl, inr, ◌⊎◌,
}
use native.Mathlib.Decide.{ℕ_discrete}
use kplayer_go.Cron.{Cron, allows, match_day}

pub record Calendar : Type 0 where
  pub minute : ℕ → ℕ
  pub hour : ℕ → ℕ
  pub day : ℕ → ℕ
  pub month : ℕ → ℕ
  pub weekday : ℕ → ℕ
  pub five_years_after : ℕ → ℕ  -- `AddDate(5, 0, 0)`

-- `time.Minute` in nanoseconds
abbrev pub minute_length : ℕ
minute_length = 60000000000

module _ (cal : Calendar) (c : Cron) where
  unfoldable pub matches : ℕ → Bool
  matches t =
      allows c.minute (cal.minute t)
      && allows c.hour (cal.hour t)
      && match_day c (cal.day t) (cal.weekday t)
      && allows c.month (cal.month t)

  unfoldable pub search_from : ℕ → ℕ → ℕ → ℕ
  search_from zero t limit = 0
  search_from (suc fuel) t limit =
      let later = search_from fuel (t + minute_length) limit in
      if ltb t limit then (if matches t then t else later) else 0

  -- The next full minute: `from.Truncate(time.Minute).Add(time.Minute)`.
  abbrev pub next_minute : ℕ → ℕ
  next_minute from = from - from % minute_length + minute_length

  -- As many rounds as there are minutes before the limit, and one.
  abbrev pub rounds : ℕ → ℕ → ℕ
  rounds t limit = suc ((limit - t) / minute_length + 1)

  -- `now` is what `time.Now()` would give.
  unfoldable pub next : ℕ → ℕ → ℕ
  next now from =
      let t = next_minute (if from == 0 then now else from) in
      let limit = cal.five_years_after t in search_from (rounds t limit) t limit

  -- No full minute from `t` up to `u` matches.
  abbrev pub NoneBefore : ℕ → ℕ → Type 0
  NoneBefore t u = (v : ℕ) → t ≤ v → v < u → v % minute_length ≡ 0 → matches v ≡ false

  NoneBefore-step :
      (t u : ℕ)
      → t % minute_length ≡ 0
      → matches t ≡ false
      → NoneBefore (t + minute_length) u
      → NoneBefore t u
  NoneBefore-step t u a m h v l k b = elim (ℕ_discrete t v) [
    | yes e ↦ rw (← e) m
    | no e ↦ h v (omega arith) k b
  ]

  -- The outcome of the search from `t`: a matching full minute with none before it, or none
  -- before the limit.
  abbrev pub Found : ℕ → ℕ → ℕ → Type 0
  Found t limit r =
      ((r ≡ 0) × NoneBefore t limit)
      ⊎ ((t ≤ r) × (r < limit) × (r % minute_length ≡ 0) × (matches r ≡ true) × NoneBefore t r)

  search_from_lem :
      (fuel t limit : ℕ)
      → t % minute_length ≡ 0
      → limit < t + fuel * minute_length
      → Found t limit (search_from fuel t limit)
  unfolding search_from
  search_from_lem zero t limit a h = inl (refl, λ v l k b. absurd (omega arith))
  search_from_lem (suc fuel) t limit a h = elim (Bool-cases (ltb t limit)) [
    | inr e ↦ rw e (inl (refl, λ v l k b. absurd (ground (arith, e, l, k))))
    | inl e ↦ rw e (elim (Bool-cases (matches t)) [
      | inl m ↦ rw m (inr (omega arith, ground (arith, e), a, m, λ v l k b. absurd (omega arith)))
      | inr m ↦
          rw m (elim (search_from_lem fuel (t + minute_length) limit (omega arith) (omega arith)) [
            | inl (r, none_yet) ↦ inl (r, NoneBefore-step t limit a m none_yet)
            | inr (l, k, b, y, none_yet) ↦
                inr (omega arith, k, b, y, NoneBefore-step t _ a m none_yet)
          ])
    ])
  ]

  enough_rounds : (t limit : ℕ) → limit < t + rounds t limit * minute_length
  enough_rounds t limit = omega arith

  -- `Next` gives the earliest full minute strictly after the instant that matches the expression
  -- and lies before the five-year limit, and the zero time if there is none. For the zero time it
  -- starts from the present.
  pub next-earliest :
      (now from : ℕ)
      → let start = if from == 0 then now else from in
        let t = next_minute start in
        (start < t) × (t ≤ start + minute_length) × Found t (cal.five_years_after t) (next now from)
  unfolding next
  next-earliest now from =
      let start = if from == 0 then now else from in
      let t = next_minute start in
      (
        omega arith,
        omega arith,
        search_from_lem (rounds t (cal.five_years_after t)) t (cal.five_years_after t) (omega arith)
            (enough_rounds t (cal.five_years_after t)),
      )
