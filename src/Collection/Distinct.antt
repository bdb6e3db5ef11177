-- ===== src/Collection/Distinct.antt =====
-- Collections in which no two entities share a name.
use mathlib.Core.Path.{subst}
use kplayer_go.Prelude.{
  ◌≡◌, refl, Bool, true, false, not, ◌&&◌, String, some, List, [], ◌∷◌, ◌++◌, arith, str_eq, eq_iff,
  if◌then◌else◌, Bool-cases, inl, inr,
}
use kplayer_go.Prelude.Lists.{any, any-append, All-none, select}
use kplayer_go.Collection.{find, put_first, cut_first, has_id}
use kplayer_go.Collection.Laws.{any-cut_first-true, All-find}

module _ {ℓ} {A : Type ℓ} (name : A → String) where
  abbrev pub Distinct : List A → Type 0
  Distinct [] = Unit
  Distinct (x ∷ xs) = (any (has_id name (name x)) xs ≡ false) × Distinct xs

  pub Distinct-append :
      (xs : List A) (x : A)
      → any (has_id name (name x)) xs ≡ false
      → Distinct xs
      → Distinct (xs ++ x ∷ [])
  Distinct-append [] x h d = (refl, tt)
  Distinct-append (y ∷ ys) x h d = (
    ground (
      arith,
      d.0,
      h,
      any-append (has_id name (name y)) ys (x ∷ []),
      eq_iff (name x) (name y),
      eq_iff (name y) (name x),
    ),
    Distinct-append ys x (ground (arith, h)) d.1,
  )

  pub any-cut_first-false :
      (p q : A → Bool) (xs : List A) → any q xs ≡ false → any q (cut_first p xs) ≡ false
  any-cut_first-false p q xs h = ground (arith, h, any-cut_first-true p q xs)

  pub Distinct-cut_first : (p : A → Bool) (xs : List A) → Distinct xs → Distinct (cut_first p xs)
  unfolding cut_first
  Distinct-cut_first p [] d = tt
  Distinct-cut_first p (x ∷ xs) d =
      elim (p x) as (λ b. Distinct (if b then xs else x ∷ cut_first p xs)) [
        | true ↦ d.1
        | false ↦ (any-cut_first-false p (has_id name (name x)) xs d.0, Distinct-cut_first p xs d.1)
      ]

-- Overwriting the entity with an id by one whose name no other has.
module _ {ℓ} {A : Type ℓ} (id name : A → String) (i : String) (y : A) where
  abbrev pub taken_by_other : A → Bool
  taken_by_other x = not (has_id id i x) && has_id name (name y) x

  any-put_first-false :
      (q : A → Bool) (xs : List A)
      → q y ≡ false
      → any q xs ≡ false
      → any q (put_first (has_id id i) y xs) ≡ false
  unfolding put_first
  any-put_first-false q [] h k = refl
  any-put_first-false q (x ∷ xs) h k = ground (arith, h, k, any-put_first-false q xs)

  only_one :
      (xs : List A)
      → any (has_id id i) xs ≡ false
      → any taken_by_other xs ≡ false
      → any (has_id name (name y)) xs ≡ false
  only_one [] h k = refl
  only_one (x ∷ xs) h k = ground (arith, h, k, only_one xs)

  pub Distinct-put_first :
      (xs : List A)
      → Distinct id xs
      → any taken_by_other xs ≡ false
      → Distinct name xs
      → Distinct name (put_first (has_id id i) y xs)
  unfolding put_first
  Distinct-put_first [] own free d = tt
  Distinct-put_first (x ∷ xs) own free d = elim (Bool-cases (has_id id i x)) [
    | inl e ↦
        let rest : any (has_id id i) xs ≡ false = ground (arith, own.0, e, eq_iff (id x) i) in
        rw e (only_one xs rest (ground (arith, free)), d.1)
    | inr e ↦
        let apart : str_eq (name y) (name x) ≡ false =
          ground (arith, free, e, eq_iff (name y) (name x), eq_iff (name x) (name y)) in
        rw e (
          any-put_first-false (has_id name (name x)) xs apart d.0,
          Distinct-put_first xs own.1 (ground (arith, free)) d.1,
        )
  ]

-- Overwriting the entity with an id by one that keeps the id.
module _ {ℓ} {A : Type ℓ} (id : A → String) (i : String) (y : A) (own : has_id id i y ≡ true) where
  no_other : (xs : List A) → any (taken_by_other id id i y) xs ≡ false
  no_other [] = refl
  no_other (x ∷ xs) =
      ground (arith, own, no_other xs, eq_iff (id y) i, eq_iff (id x) i, eq_iff (id x) (id y))

  pub Distinct-put_same :
      (xs : List A) → Distinct id xs → Distinct id (put_first (has_id id i) y xs)
  Distinct-put_same xs d = Distinct-put_first id id i y xs d (no_other xs) d

-- The name of the entity that an id finds is no other's.
module _ {ℓ} {A : Type ℓ} (id name : A → String) (i : String) where
  any-other-false :
      (y : A) (xs : List A)
      → any (has_id name (name y)) xs ≡ false
      → any (taken_by_other id name i y) xs ≡ false
  any-other-false y [] h = refl
  any-other-false y (x ∷ xs) h = ground (arith, h, any-other-false y xs)

  pub find-own_name :
      (xs : List A) (u : A)
      → Distinct name xs
      → find (has_id id i) xs ≡ some u
      → any (taken_by_other id name i u) xs ≡ false
  unfolding find
  find-own_name [] u d f = cc
  find-own_name (x ∷ xs) u d f = elim (Bool-cases (has_id id i x)) [
    | inl e ↦
        let same : x ≡ u = ground (arith, e, f) in
        subst (λ y. any (taken_by_other id name i y) (x ∷ xs) ≡ false) same
          (ground (arith, e, any-other-false x xs d.0))
    | inr e ↦
        let g : find (has_id id i) xs ≡ some u = ground (arith, e, f) in
        let apart = All-find (has_id id i) _ xs u (All-none (has_id name (name x)) xs d.0) g in
        ground (
          arith,
          e,
          apart,
          find-own_name xs u d.1 g,
          eq_iff (name x) (name u),
          eq_iff (name u) (name x),
        )
  ]

module _ {ℓ} {A : Type ℓ} (name : A → String) where
  any-select-false : (p q : A → Bool) (xs : List A) → any q xs ≡ false → any q (select p xs) ≡ false
  any-select-false p q [] h = refl
  any-select-false p q (x ∷ xs) h = ground (arith, h, any-select-false p q xs)

  pub Distinct-select :
      (p : A → Bool) (xs : List A) → Distinct name xs → Distinct name (select p xs)
  Distinct-select p [] d = tt
  Distinct-select p (x ∷ xs) d =
      elim (p x) as (λ b. Distinct name (if b then x ∷ select p xs else select p xs)) [
        | true ↦ (any-select-false p (has_id name (name x)) xs d.0, Distinct-select p xs d.1)
        | false ↦ Distinct-select p xs d.1
      ]
