-- ===== src/Collection/Counts.antt =====
-- How many elements pass a test, after the operations on a collection.
use kplayer_go.Prelude.{
  ℕ, zero, suc, ◌+◌, ◌≤◌, ◌≡◌, refl, Bool, true, false, List, [], ◌∷◌, arith, ◌⊎◌,
}
use kplayer_go.Prelude.Lists.{any, count, select, take, drop, All}
use kplayer_go.Collection.{cut_first}

module _ {ℓ} {A : Type ℓ} where
  pub count-cut :
      (p : A → Bool) (k : ℕ) (xs : List A) → count p (take k xs) + count p (drop k xs) ≡ count p xs
  count-cut p zero xs = omega arith
  count-cut p (suc k) [] = omega arith
  count-cut p (suc k) (x ∷ xs) = ground (arith, count-cut p k xs)

  pub count_mono :
      (p q : A → Bool) (xs : List A)
      → All (λ x. (p x ≡ false) ⊎ (q x ≡ true)) xs
      → count p xs ≤ count q xs
  count_mono p q [] h = omega arith
  count_mono p q (x ∷ xs) h = ground (arith, h.0, count_mono p q xs h.1)

  pub count-any : (p : A → Bool) (xs : List A) → 1 ≤ count p xs → any p xs ≡ true
  count-any p [] h = absurd (omega (arith, h))
  count-any p (x ∷ xs) h = ground (arith, h, count-any p xs)

  pub count-select_same :
      (p r : A → Bool) (xs : List A)
      → All (λ x. (p x ≡ false) ⊎ (r x ≡ true)) xs
      → count p (select r xs) ≡ count p xs
  count-select_same p r [] h = refl
  count-select_same p r (x ∷ xs) h = ground (arith, h.0, count-select_same p r xs h.1)

  pub count-select_le : (p r : A → Bool) (xs : List A) → count p (select r xs) ≤ count p xs
  count-select_le p r [] = omega arith
  count-select_le p r (x ∷ xs) = ground (arith, count-select_le p r xs)

  pub count-cut_first_same :
      (p q : A → Bool) (xs : List A)
      → ((x : A) → (q x ≡ false) ⊎ (p x ≡ false))
      → count p (cut_first q xs) ≡ count p xs
  unfolding cut_first
  count-cut_first_same p q [] h = refl
  count-cut_first_same p q (x ∷ xs) h = ground (arith, h x, count-cut_first_same p q xs h)

  pub count-cut_first_le : (p q : A → Bool) (xs : List A) → count p (cut_first q xs) ≤ count p xs
  unfolding cut_first
  count-cut_first_le p q [] = omega arith
  count-cut_first_le p q (x ∷ xs) = ground (arith, count-cut_first_le p q xs)

  pub All-take {κ} : (P : A → Type κ) (k : ℕ) (xs : List A) → All P xs → All P (take k xs)
  All-take P zero xs h = tt
  All-take P (suc k) [] h = tt
  All-take P (suc k) (x ∷ xs) h = (h.0, All-take P k xs h.1)
