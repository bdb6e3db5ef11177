-- ===== src/Prelude/Int.antt =====
-- Go's 64-bit `int` and `time.Duration` as integers, with the wrap-around written out, and
-- `time.Time` as the number of nanoseconds since Go's zero time.
use Prim.Native.Nat.{ℕ, suc, ◌+◌, ◌-◌, ◌*◌, ◌%◌, ◌≤◌, min}
use mathlib.Core.Bool.{Bool}
use kplayer_go.Prelude.Tests.{ltb, leb, ◌==◌, if◌then◌else◌}

-- `negsuc n` is -(n + 1).
pub data ℤ : Type 0 where
  pos : ℕ → ℤ
  negsuc : ℕ → ℤ

abbrev pub pos_part : ℤ → ℕ
pos_part (pos n) = n
pos_part (negsuc n) = 0

abbrev pub neg_part : ℤ → ℕ
neg_part (pos n) = 0
neg_part (negsuc n) = suc n

infix 50 ◌≤ℤ◌
abbrev pub ◌≤ℤ◌ : ℤ → ℤ → Type 0
a ≤ℤ b = pos_part a + neg_part b ≤ pos_part b + neg_part a

abbrev pub leb_ℤ : ℤ → ℤ → Bool
leb_ℤ a b = leb (pos_part a + neg_part b) (pos_part b + neg_part a)

abbrev pub ltb_ℤ : ℤ → ℤ → Bool
ltb_ℤ a b = ltb (pos_part a + neg_part b) (pos_part b + neg_part a)

abbrev pub int64_max : ℕ
int64_max = 9223372036854775807

abbrev pub u64_mod : ℕ
u64_mod = 18446744073709551616

-- The 64-bit pattern of an integer, and the signed integer that a pattern stands for.
abbrev pub to_bits : ℤ → ℕ
to_bits (pos n) = n % u64_mod
to_bits (negsuc n) = u64_mod - 1 - n % u64_mod

abbrev pub of_bits : ℕ → ℤ
of_bits r = if leb r int64_max then pos r else negsuc (u64_mod - 1 - r)

-- The result of a signed 64-bit operation whose exact value is the argument.
abbrev pub wrap64 : ℤ → ℤ
wrap64 a = of_bits (to_bits a)

abbrev pub nanos_per_second : ℕ
nanos_per_second = 1000000000

abbrev pub times_second : ℤ → ℤ
times_second (pos n) = pos (n * nanos_per_second)
times_second (negsuc n) = negsuc (suc n * nanos_per_second - 1)

-- `time.Duration(n) * time.Second`, a product of two 64-bit integers.
unfoldable pub seconds : ℤ → ℤ
seconds n = wrap64 (times_second n)

-- `t.Add(d)`. Instants before Go's zero time are not represented.
unfoldable pub time_add : ℕ → ℤ → ℕ
time_add t (pos n) = t + n
time_add t (negsuc n) = t - suc n

-- `t.Sub(u)`, which saturates at the ends of `time.Duration`.
unfoldable pub time_sub : ℕ → ℕ → ℤ
time_sub t u = if leb u t then pos (min (t - u) int64_max) else negsuc (min (u - t - 1) int64_max)

-- `t.IsZero()`, `t.Before(u)` and `t.After(u)`.
abbrev pub is_zero_time : ℕ → Bool
is_zero_time t = t == 0

abbrev pub before : ℕ → ℕ → Bool
before t u = ltb t u

abbrev pub after : ℕ → ℕ → Bool
after t u = ltb u t

abbrev pub eq_ℤ : ℤ → ℤ → Bool
eq_ℤ a b = pos_part a + neg_part b == pos_part b + neg_part a

-- The exact sum.
abbrev pub add_ℤ : ℤ → ℤ → ℤ
add_ℤ a b =
    let up = pos_part a + pos_part b in
    let down = neg_part a + neg_part b in
    if leb down up then pos (up - down) else negsuc (down - up - 1)
