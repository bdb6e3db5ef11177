-- ===== src/Ordering/Newest.antt =====
-- The newest entities of a collection, kept by their ids: what the purges of management/ keep, where
-- no two entities share an id.
use Prim.Native.Nat.{min}
use kplayer_go.Prelude.{
  ℕ, zero, suc, ◌+◌, ◌≤◌, ◌≡◌, refl, Bool, true, false, List, [], ◌∷◌, ◌++◌, arith, inl, inr, sym,
  ◌∙◌, String, ◌⊎◌, ap,
}
use mathlib.Core.Path.{subst}
use kplayer_go.Prelude.Lists.{
  All-every, All-split, length, count, any, take, drop, All, All-mono, All-append, All-both,
}
use kplayer_go.Ordering.{sort_by, newer}
use kplayer_go.Ordering.Laws.{
  IsSorted-cut, newest_first, NotOlder, All-sort_by, All-unsort_by, count-sort_by, length-sort_by,
}

module _ {ℓ} {A : Type ℓ} where
  take-drop : (n : ℕ) (xs : List A) → take n xs ++ drop n xs ≡ xs
  take-drop zero xs = refl
  take-drop (suc n) [] = refl
  take-drop (suc n) (x ∷ xs) = ap (λ r. x ∷ r) (take-drop n xs)

  pub length-take : (n : ℕ) (xs : List A) → length (take n xs) ≡ min n (length xs)
  length-take zero xs = ground arith
  length-take (suc n) [] = ground arith
  length-take (suc n) (x ∷ xs) = ground (arith, length-take n xs)

  pub count-append : (p : A → Bool) (xs ys : List A) → count p (xs ++ ys) ≡ count p xs + count p ys
  count-append p [] ys = omega arith
  count-append p (x ∷ xs) ys = ground (arith, count-append p xs ys)

  pub count-passing :
      (p : A → Bool) (xs : List A) → All (λ x. p x ≡ true) xs → count p xs ≡ length xs
  count-passing p [] h = refl
  count-passing p (x ∷ xs) h = ground (arith, h.0, count-passing p xs h.1)

  pub count-none : (p : A → Bool) (xs : List A) → All (λ x. p x ≡ false) xs → count p xs ≡ 0
  count-none p [] h = refl
  count-none p (x ∷ xs) h = ground (arith, h.0, count-none p xs h.1)

  any-of_count : (p : A → Bool) (xs : List A) → count p xs ≡ 0 → any p xs ≡ false
  any-of_count p [] h = refl
  any-of_count p (x ∷ xs) h = ground (arith, h, any-of_count p xs)

  transposed :
      (R : A → A → Type 0) (xs ys : List A)
      → All (λ x. All (R x) ys) xs
      → All (λ y. All (λ x. R x y) xs) ys
  transposed R [] ys h = All-every _ (λ y. tt) ys
  transposed R (x ∷ xs) ys h =
      All-both _ _ _ (λ y r rest. (r, rest)) ys h.0 (transposed R xs ys h.1)

module _ {ℓ} {A : Type ℓ} (same : A → A → Bool) where
  -- Every entity is there once.
  abbrev pub EachOnce : List A → Type 0
  EachOnce xs = All (λ a. count (same a) xs ≡ 1) xs

  -- Whether an entity is in a list.
  abbrev pub among : List A → A → Bool
  among ts a = any (same a) ts

abbrev pub newest {ℓ} : {A : Type ℓ} → (A → ℕ) → (A → String) → ℕ → List A → List A
newest time id n xs = take n (sort_by (newer time id) xs)

module _ {ℓ} {A : Type ℓ} (time : A → ℕ) (id : A → String) (same : A → A → Bool)
    (same-refl : (a : A) → same a a ≡ true) where
  among_self : (ts : List A) → All (λ a. among same ts a ≡ true) ts
  among_self [] = tt
  among_self (t ∷ ts) =
      (ground (arith, same-refl t), All-mono _ _ (λ a h. ground (arith, h)) ts (among_self ts))

  count_self : (ds : List A) → All (λ a. 1 ≤ count (same a) ds) ds
  count_self [] = tt
  count_self (d ∷ ds) =
      (ground (arith, same-refl d), All-mono _ _ (λ a h. ground (arith, h)) ds (count_self ds))

  -- In a list without repeated ids, nothing behind a cut is found in front of it.
  among-behind : (ts ds : List A) → EachOnce same (ts ++ ds) → All (λ a. among same ts a ≡ false) ds
  among-behind ts ds h =
      All-both _ _ _
        (λ a once self.
          any-of_count (same a) ts (omega (arith, once, self, count-append (same a) ts ds)))
        ds (All-split _ ts ds h).1 (count_self ds)

  EachOnce-sort : (xs : List A) → EachOnce same xs → EachOnce same (sort_by (newer time id) xs)
  EachOnce-sort xs h =
      All-mono _ _ (λ a once. count-sort_by (newer time id) (same a) xs ∙ once)
        (sort_by (newer time id) xs) (All-sort_by (newer time id) _ xs h)

  module _ (n : ℕ) (xs : List A) (distinct : EachOnce same xs) where
    sorted_distinct : EachOnce same (newest time id n xs ++ drop n (sort_by (newer time id) xs))
    sorted_distinct =
        let s = sort_by (newer time id) xs in
        subst (EachOnce same) (sym (take-drop n s)) (EachOnce-sort xs distinct)

    -- As many are among the newest as were asked for, or all.
    pub count-among : count (among same (newest time id n xs)) xs ≡ min n (length xs)
    count-among =
        let s = sort_by (newer time id) xs in
        let ds = drop n s in
        let ts = newest time id n xs in
        let p = among same ts in
        omega (
          arith,
          count-sort_by (newer time id) p xs,
          ap (count p) (take-drop n s),
          count-append p ts ds,
          count-passing p ts (among_self ts),
          count-none p ds (among-behind ts ds sorted_distinct),
          length-take n s,
          ap (min n) (length-sort_by (newer time id) xs),
        )

    -- Whatever is not among the newest is no newer than whatever is.
    abbrev pub Ranked : A → A → Type 0
    Ranked a b =
        (among same (newest time id n xs) b ≡ false)
        ⊎ (among same (newest time id n xs) a ≡ true)
        ⊎ (time a ≤ time b)

    pub newest_rank : All (λ a. All (Ranked a) xs) xs
    newest_rank =
        let s = sort_by (newer time id) xs in
        let ds = drop n s in
        let ts = newest time id n xs in
        let behind = among-behind ts ds sorted_distinct in
        let above = IsSorted-cut (NotOlder time id) n s (newest_first time id xs) in
        let in_order : (a : A) → All (Ranked a) ts → All (Ranked a) xs = λ a h.
          All-unsort_by (newer time id) (Ranked a) xs (
            subst (All (Ranked a)) (take-drop n s)
              (All-append (Ranked a) ts ds h (All-mono _ _ (λ b e. inl e) ds behind))) in
        let front : All (λ a. All (Ranked a) xs) ts =
          All-mono _ _ (λ a e. in_order a (All-every _ (λ b. inr (inl e)) ts)) ts (among_self ts) in
        let back : All (λ a. All (Ranked a) xs) ds =
          All-mono _ _ (λ a h. in_order a (All-mono _ _ (λ b le. inr (inr le)) ts h)) ds
            (transposed (NotOlder time id) ts ds above) in
        All-unsort_by (newer time id) _ xs
          (subst (All (λ a. All (Ranked a) xs)) (take-drop n s) (All-append _ ts ds front back))
