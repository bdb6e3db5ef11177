-- ===== src/Collection.antt =====
-- The loops over a collection of entities with ids that every service of management/ repeats:
-- find the first entity with an id, replace it in place, and cut it out of the slice.
pub mod Laws
pub mod Counts
pub mod Distinct
use kplayer_go.Prelude.{Bool, String, Option, none, some, List, [], ◌∷◌, str_eq, if◌then◌else◌}

module _ {ℓ} {A : Type ℓ} where
  -- for _, x := range xs { if test(x) { return x } }
  unfoldable pub find : (A → Bool) → List A → Option A
  find test [] = none
  find test (x ∷ xs) = if test x then some x else find test xs

  -- The list in which the first element that passes is overwritten, as through its pointer.
  unfoldable pub put_first : (A → Bool) → A → List A → List A
  put_first test y [] = []
  put_first test y (x ∷ xs) = let rest = put_first test y xs in if test x then y ∷ xs else x ∷ rest

  -- append(xs[:idx], xs[idx+1:]...) at the index of the first element that passes.
  unfoldable pub cut_first : (A → Bool) → List A → List A
  cut_first test [] = []
  cut_first test (x ∷ xs) = let rest = cut_first test xs in if test x then xs else x ∷ rest

-- The test `x.ID == id`.
abbrev pub has_id {ℓ} : {A : Type ℓ} → (A → String) → String → A → Bool
has_id id_of id x = str_eq (id_of x) id
