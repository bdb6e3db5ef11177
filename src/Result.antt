-- ===== src/Result.antt =====
-- Go's `(value, error)` results, and the outcomes of a callback of `Store.Update`.
use kplayer_go.Prelude.{◌≡◌, refl, Bool, true, false, ◌⊎◌, inl, inr}
use kplayer_go.Model.{Err}

-- The error is tested first, as the callers do.
pub data Result {ℓ} (A : Type ℓ) : Type ℓ where
  err : Err → Result A
  ok : A → Result A

abbrev pub is_ok {ℓ} : {A : Type ℓ} → Result A → Bool
is_ok (err _) = false
is_ok (ok _) = true

-- `if bad { return error }`
abbrev pub refuse : Bool → Err → Result (Unit {0})
refuse false e = ok tt
refuse true e = err e

-- What follows a step that may return early.
infixl 5 ◌>>=◌ ◌>>◌
abbrev pub ◌>>◌ {ℓ κ} : {A : Type ℓ} {B : Type κ} → Result A → Result B → Result B
err e >> after = err e
ok a >> after = after

abbrev pub ◌>>=◌ {ℓ κ} : {A : Type ℓ} {B : Type κ} → Result A → (A → Result B) → Result B
err e >>= after = err e
ok a >>= after = after a

-- A callback that mutates a value of type D and reports an A: it returns nil with the new value
-- (`commit`), `errNoop` (`keep`), or another error (`fail`).
pub data Txn {ℓ κ} (D : Type ℓ) (A : Type κ) : Type (ℓ ⊔ κ) where
  commit : D → A → Txn D A
  keep : A → Txn D A
  fail : Err → Txn D A

-- A fallible step of a callback, which returns its error at once.
abbrev pub check {ℓ κ μ} :
    {D : Type ℓ} {A : Type κ} {B : Type μ} → Result B → (B → Txn D A) → Txn D A
check (ok b) k = k b
check (err e) k = fail e

-- The value after a callback: an error changes nothing.
abbrev pub outcome {ℓ κ} : {D : Type ℓ} {A : Type κ} → D → Txn D A → D
outcome d (commit e a) = e
outcome d (keep a) = d
outcome d (fail x) = d

-- To split on a computed result and keep the equation.
pub Result-cases {ℓ} :
    {A : Type ℓ} (r : Result A) → ((a : A) × (r ≡ ok a)) ⊎ ((e : Err) × (r ≡ err e))
Result-cases (ok a) = inl (a, refl)
Result-cases (err e) = inr (e, refl)

-- A chain that succeeds: its first step succeeded, and the rest from its value.
pub bind-ok {ℓ κ} :
    {A : Type ℓ} {B : Type κ} (first : Result A) (after : A → Result B) {last : B}
    → (first >>= after) ≡ ok last
    → (value : A) × (first ≡ ok value) × (after value ≡ ok last)
bind-ok (err e) after h = cc
bind-ok (ok value) after h = (value, refl, h)

-- A callback that commits: the step that it checked succeeded.
pub check-commit {ℓ κ μ} :
    {D : Type ℓ} {A : Type κ} {B : Type μ} (r : Result B) (k : B → Txn D A) {d : D} {a : A}
    → check r k ≡ commit d a
    → (b : B) × (r ≡ ok b) × (k b ≡ commit d a)
check-commit (ok b) k h = (b, refl, h)
check-commit (err e) k h = cc

-- What holds of the value before a fallible step and after what follows it, holds in the end.
pub outcome-check {ℓ κ μ ν} :
    {D : Type ℓ} {A : Type κ} {B : Type μ} (P : D → Type ν) (d : D) (r : Result B) (k : B → Txn D A)
    → P d
    → ((b : B) → r ≡ ok b → P (outcome d (k b)))
    → P (outcome d (check r k))
outcome-check P d (ok b) k before after = after b refl
outcome-check P d (err e) k before after = before
