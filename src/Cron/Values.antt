-- ===== src/Cron/Values.antt =====
-- Which values a field of management/cron.go allows, and the errors of its parser.
use native.Mathlib.Nat.{mod-eq-sub-mod, mod-eq_of_lt}
use kplayer_go.Prelude.{
  ℕ, zero, suc, ◌+◌, ◌-◌, ◌%◌, ◌≤◌, ◌<◌, ◌≡◌, Bool, true, ◌&&◌, ◌||◌, List, ◌∷◌, arith, leb, ◌==◌,
  Bool-cases, inl, inr,
}
use kplayer_go.Prelude.Lists.{any}
use kplayer_go.Prelude.Int.{ℤ, pos, negsuc, eq_ℤ, add_ℤ, wrap64, int64_max, leb_ℤ}
use kplayer_go.Cron.{CronField, allows, fill, fill_limit}

-- Where the sum does not wrap around, the loop steps by the step.
no_wrap : (v step : ℕ) → v + step ≤ int64_max → wrap64 (add_ℤ (pos v) (pos step)) ≡ pos (v + step)
no_wrap v step h = ground arith

-- The values of `lo-hi/step`.
abbrev pub stepped : ℕ → ℕ → ℕ → ℕ → Bool
stepped lo hi step x = leb lo x && leb x hi && (x - lo) % step == 0

stepped-next :
    (lo hi step x : ℕ)
    → 0 < step
    → lo ≤ hi
    → stepped lo hi step x ≡ (x == lo || stepped (lo + step) hi step x)
stepped-next lo hi step x h k = elim (Bool-cases (leb (lo + step) x)) [
  | inl e ↦ ground (arith, mod-eq-sub-mod {n = x - lo} {m = step} (ground (arith, e)), e)
  | inr e ↦ ground (arith, mod-eq_of_lt {n = x - lo} {m = step} (ground (arith, e)), e)
]

pub fill-stepped :
    (fuel lo hi max step x : ℕ) (vs : List ℤ)
    → 0 < step
    → hi ≤ max
    → hi + step ≤ int64_max
    → hi < lo + fuel
    → any (eq_ℤ (pos x)) (fill fuel (pos lo) (pos hi) (pos max) (pos step) vs)
      ≡ (stepped lo hi step x || any (eq_ℤ (pos x)) vs)
unfolding fill
fill-stepped zero lo hi max step x vs p m w f = ground arith
fill-stepped (suc fuel) lo hi max step x vs p m w f = elim (Bool-cases (leb lo hi)) [
  | inr e ↦ ground (arith, e)
  | inl e ↦ ground (
    arith,
    e,
    no_wrap lo step (ground (arith, e)),
    stepped-next lo hi step x p (ground (arith, e)),
    fill-stepped fuel (lo + step) hi max step x (pos lo ∷ vs) p m w (omega arith),
  )
]

-- The loop with a step that cannot overflow allows, beside what the field allowed before, exactly
-- the values from `lo` to `hi` that lie a multiple of the step above `lo`.
pub fill_exact :
    (lo hi max step x : ℕ) (f : CronField)
    → 0 < step
    → hi ≤ max
    → max < fill_limit
    → hi + step ≤ int64_max
    → allows
        (record f { values = fill fill_limit (pos lo) (pos hi) (pos max) (pos step) f.values })
        x
      ≡ (stepped lo hi step x || allows f x)
fill_exact lo hi max step x f p m l w =
    fill-stepped fill_limit lo hi max step x f.values p m w (omega arith)

any-fill :
    (fuel : ℕ) (x v hi max step : ℤ) (vs : List ℤ)
    → any (eq_ℤ x) vs ≡ true
    → any (eq_ℤ x) (fill fuel v hi max step vs) ≡ true
unfolding fill
any-fill zero x v hi max step vs h = h
any-fill (suc fuel) x v hi max step vs h =
    ground (arith, any-fill fuel x (wrap64 (add_ℤ v step)) hi max step (v ∷ vs), h)

wrap_up :
    (lo : ℕ)
    → 2 ≤ lo
    → lo < int64_max
    → wrap64 (add_ℤ (pos lo) (pos int64_max)) ≡ negsuc (int64_max + 1 - lo)
wrap_up lo h k = ground arith

wrap_back :
    (lo : ℕ)
    → 2 ≤ lo
    → lo < int64_max
    → wrap64 (add_ℤ (negsuc (int64_max + 1 - lo)) (pos int64_max)) ≡ pos (lo - 2)
wrap_back lo h k = ground arith

three_rounds :
    (fuel lo hi max : ℕ) (vs : List ℤ)
    → 2 ≤ lo
    → lo ≤ hi
    → hi ≤ max
    → max < fill_limit
    → any
        (eq_ℤ (pos (lo - 2)))
        (fill (suc (suc (suc fuel))) (pos lo) (pos hi) (pos max) (pos int64_max) vs)
      ≡ true
unfolding fill
three_rounds fuel lo hi max vs a b c d = ground (
  arith,
  wrap_up lo a (omega arith),
  wrap_back lo a (omega arith),
  any-fill fuel (pos (lo - 2)) (wrap64 (add_ℤ (pos (lo - 2)) (pos int64_max))) (pos hi) (pos max)
      (pos int64_max) (pos (lo - 2) ∷ negsuc (int64_max + 1 - lo) ∷ pos lo ∷ vs),
)

-- With the largest step the loop wraps around: for every range that starts at 2 or above it also
-- allows the value two below the start, which lies outside the range.
pub fill_overflow :
    (lo hi max : ℕ) (vs : List ℤ)
    → 2 ≤ lo
    → lo ≤ hi
    → hi ≤ max
    → max < fill_limit
    → any (eq_ℤ (pos (lo - 2))) (fill fill_limit (pos lo) (pos hi) (pos max) (pos int64_max) vs)
      ≡ true
fill_overflow lo hi max vs a b c d = three_rounds 197 lo hi max vs a b c d

pub fill-le :
    (fuel x max : ℕ) (v hi step : ℤ) (vs : List ℤ)
    → (any (eq_ℤ (pos x)) vs ≡ true → x ≤ max)
    → any (eq_ℤ (pos x)) (fill fuel v hi (pos max) step vs) ≡ true
    → x ≤ max
unfolding fill
fill-le zero x max v hi step vs h k = h k
fill-le (suc fuel) x max v hi step vs h k = elim (Bool-cases (leb_ℤ v hi && leb_ℤ v (pos max))) [
  | inl e ↦
      fill-le fuel x max (wrap64 (add_ℤ v step)) hi step (v ∷ vs) (λ q. ground (arith, h, q, e))
        (ground (arith, k, e))
  | inr e ↦ h (ground (arith, k, e))
]
