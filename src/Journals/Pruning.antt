-- ===== src/Journals/Pruning.antt =====
-- What a pruned log of management/audit.go or management/play_event.go keeps.
use kplayer_go.Prelude.{
  ℕ, suc, ◌-◌, ◌≤◌, ◌<◌, ◌≡◌, refl, Bool, true, false, not, String, List, [], ◌∷◌, arith,
  if◌then◌else◌, inl, inr, ◌⊎◌, ap, sym, ◌∙◌,
}
use mathlib.Core.Path.{subst}
use kplayer_go.Prelude.Int.{pos}
use kplayer_go.Prelude.Lists.{
  length, select, All, All-mono, All-both, All-select, count-split, length-select,
}
use kplayer_go.Result.{commit}
use kplayer_go.Collection.Laws.{All-passes}
use kplayer_go.Ordering.Newest.{EachOnce, count-none, count-among, newest_rank}
use kplayer_go.Journals.{numbered, entries, same_pointer, is_kept, keep_newest, prune}

-- A list, cut into what is kept and what is dropped, both in the old order.
pub data Thinned {ℓ} {A : Type ℓ} : List A → List A → List A → Type ℓ where
  done : Thinned [] [] []
  kept : {xs ks ds : List A} (x : A) → Thinned xs ks ds → Thinned (x ∷ xs) (x ∷ ks) ds
  dropped : {xs ks ds : List A} (x : A) → Thinned xs ks ds → Thinned (x ∷ xs) ks (x ∷ ds)

module _ {ℓ} {A : Type ℓ} where
  entries-numbered : (k : ℕ) (xs : List A) → entries (numbered k xs) ≡ xs
  unfolding entries numbered
  entries-numbered k [] = refl
  entries-numbered k (x ∷ xs) = ap (λ ys. x ∷ ys) (entries-numbered (suc k) xs)

  length-entries : (ps : List (ℕ × A)) → length (entries ps) ≡ length ps
  unfolding entries
  length-entries [] = refl
  length-entries (p ∷ ps) = ap suc (length-entries ps)

  All-entries {κ} : (P : A → Type κ) (ps : List (ℕ × A)) → All (λ p. P p.1) ps → All P (entries ps)
  unfolding entries
  All-entries P [] h = tt
  All-entries P (p ∷ ps) h = (h.0, All-entries P ps h.1)

  thin :
      (p : ℕ × A → Bool) (ps : List (ℕ × A))
      → Thinned (entries ps) (entries (select p ps)) (entries (select (λ q. not (p q)) ps))
  unfolding entries
  thin p [] = done
  thin p (q ∷ ps) =
      elim (p q)
        as (λ b. Thinned (q.1 ∷ entries ps) (entries (if b then q ∷ select p ps else select p ps)) (
          entries (if not b then q ∷ select (λ r. not (p r)) ps else select (λ r. not (p r)) ps))) [
            | true ↦ kept q.1 (thin p ps)
            | false ↦ dropped q.1 (thin p ps)
          ]

  All-above : (k : ℕ) (xs : List A) → All (λ p. k ≤ p.0) (numbered k xs)
  unfolding numbered
  All-above k [] = tt
  All-above k (x ∷ xs) = (
    omega arith,
    All-mono _ _ (λ p h. omega (arith, h)) (numbered (suc k) xs) (All-above (suc k) xs),
  )

  numbered-EachOnce : (k : ℕ) (xs : List A) → EachOnce same_pointer (numbered k xs)
  unfolding numbered
  numbered-EachOnce k [] = tt
  numbered-EachOnce k (x ∷ xs) =
      let rest = numbered (suc k) xs in
      let above = All-above (suc k) xs in
      (
        ground (
          arith,
          count-none (same_pointer (k, x)) rest
              (All-mono _ _ (λ p h. ground (arith, h)) rest above),
        ),
        All-both _ _ _ (λ p h once. ground (arith, h, once)) rest above
            (numbered-EachOnce (suc k) xs),
      )

same_pointer_refl {ℓ} : {A : Type ℓ} (q : ℕ × A) → same_pointer q q ≡ true
same_pointer_refl q = ground arith

no_newer :
    {a b : ℕ} (x y : Bool) → (y ≡ false) ⊎ (x ≡ true) ⊎ (a ≤ b) → y ≡ true → x ≡ false → a ≤ b
no_newer x y (inl p) h g = absurd (ground (arith, p, h))
no_newer x y (inr (inl p)) h g = absurd (ground (arith, p, g))
no_newer x y (inr (inr le)) h g = le

-- A prune that changes the log keeps as many entries as it was asked to, in their order, reports
-- how many it dropped, and drops none that is newer than one it keeps.
pub prune-keeps_newest {ℓ} :
    {A : Type ℓ} (time : A → ℕ) (id : A → String) (n removed : ℕ) (xs ys : List A)
    → prune time id (pos (suc n)) xs ≡ commit ys removed
    → (gone : List A) × Thinned xs ys gone
      × (length ys ≡ suc n)
      × (length gone ≡ removed)
      × All (λ a. All (λ k. time a ≤ time k) ys) gone
unfolding prune keep_newest
prune-keeps_newest time id n removed xs ys h =
    let ps = numbered 0 xs in
    let p = is_kept time id (suc n) xs in
    let ks = select p ps in
    let ds = select (λ q. not (p q)) ps in
    let many : suc n < length xs = ground (arith, h) in
    let same : entries ks ≡ ys = ground (arith, h) in
    let number : length xs - suc n ≡ removed = ground (arith, h) in
    let once = numbered-EachOnce 0 xs in
    let size : length ps ≡ length xs =
      sym (length-entries ps) ∙ ap length (entries-numbered 0 xs) in
    let in_time = λ (q : ℕ × _). time q.1 in
    let by_id = λ (q : ℕ × _). id q.1 in
    let some_kept = count-among in_time by_id same_pointer same_pointer_refl (suc n) ps once in
    let rank = newest_rank in_time by_id same_pointer same_pointer_refl (suc n) ps once in
    let ranked =
      All-both _ _ (λ (a : ℕ × _). All (λ k. time a.1 ≤ time k) (entries ks))
        (λ a below out. All-entries _ ks (
          All-both _ _ _ (λ b r in_ks. no_newer (p a) (p b) r in_ks (ground (arith, out))) ks
            (All-select _ p ps below) (All-passes p ps)))
        ds (All-select _ (λ q. not (p q)) ps rank) (All-passes (λ q. not (p q)) ps) in
    subst
      (λ zs.
        (gone : List _) × Thinned xs zs gone
        × (length zs ≡ suc n)
        × (length gone ≡ removed)
        × All (λ a. All (λ k. time a ≤ time k) zs) gone)
      same
      (
        entries ds,
        subst (λ zs. Thinned zs (entries ks) (entries ds)) (entries-numbered 0 xs) (thin p ps),
        omega (arith, length-entries ks, length-select p ps, some_kept, size, many),
        omega (
          arith,
          length-entries ds,
          length-select (λ q. not (p q)) ps,
          count-split p ps,
          some_kept,
          size,
          many,
          number,
        ),
        All-entries _ ds ranked,
      )
