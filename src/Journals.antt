-- ===== src/Journals.antt =====
-- The logs of the management document. What `Prune` of audit.go and of play_event.go in
-- management/ do alike stands here; pointers to entries are their positions.
pub mod Audit
pub mod Plays
pub mod Pruning
use kplayer_go.Prelude.{ℕ, zero, suc, ◌-◌, Bool, String, List, [], ◌∷◌, if◌then◌else◌, leb, ◌==◌}
use kplayer_go.Prelude.Int.{ℤ, pos, negsuc}
use kplayer_go.Prelude.Lists.{length, select}
use kplayer_go.Result.{Txn, commit, keep}
use kplayer_go.Ordering.Newest.{among, newest}

-- The entries, each with its position.
unfoldable pub numbered {ℓ} : {A : Type ℓ} → ℕ → List A → List (ℕ × A)
numbered k [] = []
numbered k (x ∷ xs) = (k, x) ∷ numbered (suc k) xs

unfoldable pub entries {ℓ} : {A : Type ℓ} → List (ℕ × A) → List A
entries [] = []
entries (p ∷ ps) = p.1 ∷ entries ps

abbrev pub same_pointer {ℓ} : {A : Type ℓ} → ℕ × A → ℕ × A → Bool
same_pointer a b = b.0 == a.0

module _ {ℓ} {A : Type ℓ} (time : A → ℕ) (id : A → String) where
  -- Whether a pointer is in the set `keep`.
  abbrev pub is_kept : ℕ → List A → ℕ × A → Bool
  is_kept n xs =
      among same_pointer
        (newest (λ (p : ℕ × A). time p.1) (λ (p : ℕ × A). id p.1) n (numbered 0 xs))

  unfoldable pub keep_newest : ℕ → List A → List A
  unfolding numbered entries
  keep_newest n xs = entries (select (is_kept n xs) (numbered 0 xs))

  abbrev pub cleared : List A → Txn (List A) ℕ
  cleared xs = if length xs == 0 then keep 0 else commit [] (length xs)

  -- `Prune`
  unfoldable pub prune : ℤ → List A → Txn (List A) ℕ
  unfolding keep_newest
  prune (negsuc n) xs = cleared xs
  prune (pos zero) xs = cleared xs
  prune (pos (suc n)) xs =
      if leb (length xs) (suc n)
      then keep 0
      else commit (keep_newest (suc n) xs) (length xs - suc n)
