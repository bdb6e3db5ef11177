-- ===== src/Ordering.antt =====
-- `sort.Slice` of Go's library, as the services of management/ use it: by a time, ids breaking
-- ties. Where two entities tie in both, Go leaves their order open; here they keep it.
pub mod Laws
pub mod Newest
use kplayer_go.Prelude.{ℕ, Bool, String, List, [], ◌∷◌, if◌then◌else◌, ltb, ◌==◌}
use kplayer_go.Prelude.Text.{less_text}

module _ {ℓ} {A : Type ℓ} (less : A → A → Bool) where
  unfoldable pub insert_by : A → List A → List A
  insert_by x [] = x ∷ []
  insert_by x (y ∷ ys) = let rest = insert_by x ys in if less y x then y ∷ rest else x ∷ y ∷ ys

  unfoldable pub sort_by : List A → List A
  unfolding insert_by
  sort_by [] = []
  sort_by (x ∷ xs) = insert_by x (sort_by xs)

module _ {ℓ} {A : Type ℓ} (time : A → ℕ) (id : A → String) where
  -- The two comparison functions: newest first, and oldest first.
  abbrev pub newer : A → A → Bool
  newer a b = if time a == time b then less_text (id a) (id b) else ltb (time b) (time a)

  abbrev pub older : A → A → Bool
  older a b = if time a == time b then less_text (id a) (id b) else ltb (time a) (time b)
