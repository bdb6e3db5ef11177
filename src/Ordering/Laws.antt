-- ===== src/Ordering/Laws.antt =====
-- A sorted list holds what the list held, in order.
use kplayer_go.Prelude.{
  ℕ, zero, suc, ◌≤◌, ◌≡◌, refl, Bool, true, false, List, [], ◌∷◌, arith, if◌then◌else◌, Bool-cases,
  inl, inr, String,
}
use mathlib.Core.Path.{subst}
use kplayer_go.Prelude.Lists.{All-drop, length, count, take, drop, All, All-mono}
use kplayer_go.Ordering.{insert_by, sort_by, newer, older}

-- Every element is related to all the later ones.
abbrev pub IsSorted {ℓ} : {A : Type ℓ} → (A → A → Type 0) → List A → Type 0
IsSorted R [] = Unit
IsSorted R (x ∷ xs) = All (R x) xs × IsSorted R xs

module _ {ℓ} {A : Type ℓ} (less : A → A → Bool) where
  count-insert_by :
      (p : A → Bool) (x : A) (ys : List A) → count p (insert_by less x ys) ≡ count p (x ∷ ys)
  unfolding insert_by
  count-insert_by p x [] = refl
  count-insert_by p x (y ∷ ys) = ground (arith, count-insert_by p x ys)

  pub count-sort_by : (p : A → Bool) (xs : List A) → count p (sort_by less xs) ≡ count p xs
  unfolding sort_by
  count-sort_by p [] = refl
  count-sort_by p (x ∷ xs) =
      ground (arith, count-insert_by p x (sort_by less xs), count-sort_by p xs)

  length-insert_by : (x : A) (ys : List A) → length (insert_by less x ys) ≡ suc (length ys)
  unfolding insert_by
  length-insert_by x [] = refl
  length-insert_by x (y ∷ ys) = ground (arith, length-insert_by x ys)

  pub length-sort_by : (xs : List A) → length (sort_by less xs) ≡ length xs
  unfolding sort_by
  length-sort_by [] = refl
  length-sort_by (x ∷ xs) = ground (arith, length-insert_by x (sort_by less xs), length-sort_by xs)

  All-insert_by {κ} :
      (P : A → Type κ) (x : A) (ys : List A) → P x → All P ys → All P (insert_by less x ys)
  unfolding insert_by
  All-insert_by P x [] p h = (p, tt)
  All-insert_by P x (y ∷ ys) p h =
      elim (less y x) as (λ b. All P (if b then y ∷ insert_by less x ys else x ∷ y ∷ ys)) [
        | true ↦ (h.0, All-insert_by P x ys p h.1)
        | false ↦ (p, h)
      ]

  pub All-sort_by {κ} : (P : A → Type κ) (xs : List A) → All P xs → All P (sort_by less xs)
  unfolding sort_by
  All-sort_by P [] h = tt
  All-sort_by P (x ∷ xs) h = All-insert_by P x (sort_by less xs) h.0 (All-sort_by P xs h.1)

  All-uninsert_by {κ} :
      (P : A → Type κ) (x : A) (ys : List A) → All P (insert_by less x ys) → P x × All P ys
  unfolding insert_by
  All-uninsert_by P x [] h = h
  All-uninsert_by P x (y ∷ ys) h = elim (Bool-cases (less y x)) [
    | inl e ↦
        let same : insert_by less x (y ∷ ys) ≡ y ∷ insert_by less x ys = ground (arith, e) in
        let (first, rest) = subst (All P) same h in
        let (p, q) = All-uninsert_by P x ys rest in (p, (first, q))
    | inr e ↦
        let same : insert_by less x (y ∷ ys) ≡ x ∷ y ∷ ys = ground (arith, e) in
        subst (All P) same h
  ]

  pub All-unsort_by {κ} : (P : A → Type κ) (xs : List A) → All P (sort_by less xs) → All P xs
  unfolding sort_by
  All-unsort_by P [] h = tt
  All-unsort_by P (x ∷ xs) h =
      let (p, q) = All-uninsert_by P x (sort_by less xs) h in (p, All-unsort_by P xs q)

  -- For a relation that follows from the comparison.
  module _ (R : A → A → Type 0) (trans : (a b c : A) → R a b → R b c → R a c)
      (ahead : (a b : A) → less a b ≡ true → R a b)
      (behind : (a b : A) → less a b ≡ false → R b a) where
    insert_by-IsSorted : (x : A) (ys : List A) → IsSorted R ys → IsSorted R (insert_by less x ys)
    unfolding insert_by
    insert_by-IsSorted x [] s = (tt, tt)
    insert_by-IsSorted x (y ∷ ys) s = elim (Bool-cases (less y x)) [
      | inl e ↦
          let same : y ∷ insert_by less x ys ≡ insert_by less x (y ∷ ys) = ground (arith, e) in
          subst (IsSorted R) same
            (All-insert_by (R y) x ys (ahead y x e) s.0, insert_by-IsSorted x ys s.1)
      | inr e ↦
          let same : x ∷ y ∷ ys ≡ insert_by less x (y ∷ ys) = ground (arith, e) in
          let first = behind y x e in
          subst (IsSorted R) same
            ((first, All-mono (R y) (R x) (λ z r. trans x y z first r) ys s.0), s)
    ]

    pub sort_by-IsSorted : (xs : List A) → IsSorted R (sort_by less xs)
    unfolding sort_by
    sort_by-IsSorted [] = tt
    sort_by-IsSorted (x ∷ xs) = insert_by-IsSorted x (sort_by less xs) (sort_by-IsSorted xs)

module _ {ℓ} {A : Type ℓ} (time : A → ℕ) (id : A → String) where
  -- By their times, newest or oldest first.
  abbrev pub NotOlder : A → A → Type 0
  NotOlder a b = time b ≤ time a

  abbrev pub NotNewer : A → A → Type 0
  NotNewer a b = time a ≤ time b

  pub newest_first : (xs : List A) → IsSorted NotOlder (sort_by (newer time id) xs)
  newest_first =
      sort_by-IsSorted (newer time id) NotOlder (λ a b c p q. omega arith) (λ a b h. ground arith)
        (λ a b h. ground arith)

  pub oldest_first : (xs : List A) → IsSorted NotNewer (sort_by (older time id) xs)
  oldest_first =
      sort_by-IsSorted (older time id) NotNewer (λ a b c p q. omega arith) (λ a b h. ground arith)
        (λ a b h. ground arith)

-- A sorted list, cut: everything in front is related to everything behind.
module _ {ℓ} {A : Type ℓ} (R : A → A → Type 0) where
  pub IsSorted-cut :
      (k : ℕ) (xs : List A) → IsSorted R xs → All (λ a. All (R a) (drop k xs)) (take k xs)
  IsSorted-cut zero xs s = tt
  IsSorted-cut (suc k) [] s = tt
  IsSorted-cut (suc k) (x ∷ xs) s = (All-drop (R x) k xs s.0, IsSorted-cut k xs s.1)
