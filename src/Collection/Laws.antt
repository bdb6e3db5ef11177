-- ===== src/Collection/Laws.antt =====
-- The laws of the loops over a collection.
use kplayer_go.Prelude.{
  suc, ◌≡◌, refl, Bool, true, false, none, some, List, [], ◌∷◌, ◌++◌, arith, if◌then◌else◌,
  Bool-cases, inl, inr,
}
use mathlib.Core.Path.{subst}
use kplayer_go.Prelude.Lists.{length, any, select, All}
use kplayer_go.Collection.{find, put_first, cut_first}

module _ {ℓ} {A : Type ℓ} (p : A → Bool) where
  -- What is found passes the test.
  pub find-passes : (xs : List A) (x : A) → find p xs ≡ some x → p x ≡ true
  unfolding find
  find-passes [] x h = cc
  find-passes (y ∷ xs) x h = elim (Bool-cases (p y)) [
    | inl e ↦ ground arith
    | inr e ↦ find-passes xs x (ground arith)
  ]

  pub find-any : (xs : List A) (x : A) → find p xs ≡ some x → any p xs ≡ true
  unfolding find
  find-any [] x h = cc
  find-any (y ∷ xs) x h = ground (arith, find-any xs x)

  pub find-none : (xs : List A) → find p xs ≡ none → any p xs ≡ false
  unfolding find
  find-none [] h = refl
  find-none (y ∷ xs) h = ground (arith, find-none xs)

  pub any-find : (xs : List A) → any p xs ≡ true → (x : A) × (find p xs ≡ some x)
  unfolding find
  any-find [] h = cc
  any-find (y ∷ xs) h = elim (Bool-cases (p y)) [
    | inl e ↦ (y, rw e)
    | inr e ↦ let (x, q) = any-find xs (ground arith) in (x, rw e q)
  ]

  -- What is selected passes the test.
  pub All-passes : (xs : List A) → All (λ x. p x ≡ true) (select p xs)
  All-passes [] = tt
  All-passes (x ∷ xs) = elim (Bool-cases (p x)) [
    | inl e ↦ rw e (e, All-passes xs)
    | inr e ↦ rw e (All-passes xs)
  ]

  pub length-put_first : (y : A) (xs : List A) → length (put_first p y xs) ≡ length xs
  unfolding put_first
  length-put_first y [] = refl
  length-put_first y (x ∷ xs) = ground (arith, length-put_first y xs)

  pub length-cut_first :
      (xs : List A) (x : A) → find p xs ≡ some x → suc (length (cut_first p xs)) ≡ length xs
  unfolding find cut_first
  length-cut_first [] x h = cc
  length-cut_first (y ∷ xs) x h = ground (arith, length-cut_first xs x)

  -- Reading back what was put in place, if the new value passes the test.
  pub find-put_first :
      (y : A) (xs : List A) (x : A)
      → find p xs ≡ some x
      → p y ≡ true
      → find p (put_first p y xs) ≡ some y
  unfolding find put_first
  find-put_first y [] x h k = cc
  find-put_first y (z ∷ xs) x h k = ground (arith, find-put_first y xs x)

  -- What fails the test for the old and the new value is found as before.
  pub find-put_first_ne :
      (q : A → Bool) (y : A) (xs : List A) (x : A)
      → find p xs ≡ some x
      → q x ≡ false
      → q y ≡ false
      → find q (put_first p y xs) ≡ find q xs
  unfolding find put_first
  find-put_first_ne q y [] x h k l = refl
  find-put_first_ne q y (z ∷ xs) x h k l = elim (Bool-cases (p z)) [
    | inl e ↦ ground (arith, e)
    | inr e ↦ ground (arith, e, find-put_first_ne q y xs x (ground (arith, e)) k l)
  ]

  pub find-append : (xs ys : List A) (x : A) → find p xs ≡ some x → find p (xs ++ ys) ≡ some x
  unfolding find
  find-append [] ys x h = cc
  find-append (z ∷ xs) ys x h = ground (arith, find-append xs ys x)

  pub find-append_new :
      (xs : List A) (x : A) → any p xs ≡ false → p x ≡ true → find p (xs ++ x ∷ []) ≡ some x
  unfolding find
  find-append_new [] x h k = rw k refl
  find-append_new (z ∷ xs) x h k = ground (arith, h, find-append_new xs x, k)

  -- A test that the old and the new value answer alike finds nothing new.
  pub any-put_first :
      (q : A → Bool) (y : A) (xs : List A) (x : A)
      → find p xs ≡ some x
      → q y ≡ q x
      → any q (put_first p y xs) ≡ any q xs
  unfolding find put_first
  any-put_first q y [] x h k = refl
  any-put_first q y (z ∷ xs) x h k = elim (Bool-cases (p z)) [
    | inl e ↦ ground arith
    | inr e ↦ ground (arith, any-put_first q y xs x (ground arith) k)
  ]

  -- A cut keeps every other element.
  pub any-cut_first :
      (q : A → Bool) (xs : List A) (x : A)
      → find p xs ≡ some x
      → q x ≡ false
      → any q (cut_first p xs) ≡ any q xs
  unfolding find cut_first
  any-cut_first q [] x h k = refl
  any-cut_first q (z ∷ xs) x h k = elim (Bool-cases (p z)) [
    | inl e ↦ ground arith
    | inr e ↦ ground (arith, any-cut_first q xs x (ground arith) k)
  ]

  pub any-cut_first-true :
      (q : A → Bool) (xs : List A) → any q (cut_first p xs) ≡ true → any q xs ≡ true
  unfolding cut_first
  any-cut_first-true q [] h = h
  any-cut_first-true q (z ∷ xs) h = ground (arith, any-cut_first-true q xs)

module _ {ℓ κ} {A : Type ℓ} (p : A → Bool) (P : A → Type κ) where
  pub All-put_first : (y : A) (xs : List A) → All P xs → P y → All P (put_first p y xs)
  unfolding put_first
  All-put_first y [] h k = h
  All-put_first y (x ∷ xs) h k =
      elim (p x) as (λ b. All P (if b then y ∷ xs else x ∷ put_first p y xs)) [
        | true ↦ (k, h.1)
        | false ↦ (h.0, All-put_first y xs h.1 k)
      ]

  pub All-cut_first : (xs : List A) → All P xs → All P (cut_first p xs)
  unfolding cut_first
  All-cut_first [] h = h
  All-cut_first (x ∷ xs) h = elim (p x) as (λ b. All P (if b then xs else x ∷ cut_first p xs)) [
    | true ↦ h.1
    | false ↦ (h.0, All-cut_first xs h.1)
  ]

  pub All-find : (xs : List A) (x : A) → All P xs → find p xs ≡ some x → P x
  unfolding find
  All-find [] x h e = cc
  All-find (y ∷ xs) x h e = elim (Bool-cases (p y)) [
    | inl q ↦ let same : y ≡ x = ground arith in subst P same h.0
    | inr q ↦ All-find xs x h.1 (ground arith)
  ]
