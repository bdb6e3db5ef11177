-- ===== src/Catalog/Members.antt =====
-- Which ids a collection still has after an operation.
use kplayer_go.Prelude.{
  ◌≡◌, refl, Bool, true, false, String, some, List, [], ◌∷◌, arith, str_eq, eq_iff, Bool-cases,
  Option-cases, inl, inr, ap, ◌∙◌,
}
use mathlib.Core.Path.{subst}
use kplayer_go.Prelude.Lists.{any, any-append, All}
use kplayer_go.Result.{Txn, commit, keep, fail, outcome}
use kplayer_go.Collection.{find, put_first, cut_first, has_id}
use kplayer_go.Collection.Laws.{
  find-passes, any-put_first, any-cut_first, All-put_first, All-cut_first, All-find,
}
use kplayer_go.Catalog.{add, taken, replace, changed, change, remove}

-- Whether a collection has an id.
abbrev pub has {ℓ} : {A : Type ℓ} → (A → String) → String → List A → Bool
has id j xs = any (has_id id j) xs

module _ {ℓ} {A : Type ℓ} (id name : A → String) where
  put-has :
      (i j : String) (y : A) (xs : List A) (x : A)
      → find (has_id id i) xs ≡ some x
      → id y ≡ id x
      → has id j (put_first (has_id id i) y xs) ≡ has id j xs
  put-has i j y xs x f e =
      any-put_first (has_id id i) (has_id id j) y xs x f (ap (λ k. str_eq k j) e)

  pub add-has :
      (j : String) (x : A) (xs : List A)
      → has id j xs ≡ true
      → has id j (outcome xs (add id name x xs)) ≡ true
  unfolding add
  add-has j x xs h = elim (Bool-cases (any (has_id name (name x)) xs)) [
    | inl e ↦ rw e h
    | inr e ↦ rw e (ground (arith, h, any-append (has_id id j) xs (x ∷ [])))
  ]

  pub replace-has :
      (i n : String) (fn : A → A) (j : String) (xs : List A)
      → ((x : A) → id (fn x) ≡ id x)
      → has id j (outcome xs (replace id name i n fn xs)) ≡ has id j xs
  unfolding replace
  replace-has i n fn j xs same_id = elim (Option-cases (find (has_id id i) xs)) [
    | inl gone ↦ ap (λ ys. has id j ys) (ground (arith, gone))
    | inr (x, f) ↦ elim (Bool-cases (taken id name i n xs)) [
      | inl t ↦ ap (λ ys. has id j ys) (ground (arith, f, t))
      | inr t ↦
          let same : outcome xs (replace id name i n fn xs) ≡ put_first (has_id id i) (fn x) xs =
            ground (arith, f, t) in
          ap (λ ys. has id j ys) same ∙ put-has i j (fn x) xs x f (same_id x)
    ]
  ]

  changed-has {κ} :
      {B : Type κ} (i : String) (stamp : A → A) (j : String) (xs : List A) (t : Txn A B) (x : A)
      → find (has_id id i) xs ≡ some x
      → ((y : A) (b : B) → t ≡ commit y b → id (stamp y) ≡ id x)
      → has id j (outcome xs (changed id i stamp xs t)) ≡ has id j xs
  changed-has i stamp j xs (commit y b) x f h = put-has i j (stamp y) xs x f (h y b refl)
  changed-has i stamp j xs (keep b) x f h = refl
  changed-has i stamp j xs (fail e) x f h = refl

  pub change-has {κ} :
      {B : Type κ} (i : String) (stamp : A → A) (fn : A → Txn A B) (j : String) (xs : List A)
      → ((x y : A) (b : B) → fn x ≡ commit y b → id (stamp y) ≡ id x)
      → has id j (outcome xs (change id i stamp fn xs)) ≡ has id j xs
  unfolding change
  change-has i stamp fn j xs h = elim (Option-cases (find (has_id id i) xs)) [
    | inl gone ↦ ap (λ ys. has id j ys) (ground (arith, gone))
    | inr (x, f) ↦
        let same : outcome xs (change id i stamp fn xs)
            ≡ outcome xs (changed id i stamp xs (fn x)) =
          ground (arith, f) in
        ap (λ ys. has id j ys) same ∙ changed-has i stamp j xs (fn x) x f (h x)
  ]

  pub remove-has :
      (i j : String) (xs : List A)
      → str_eq i j ≡ false
      → has id j (outcome xs (remove id i xs)) ≡ has id j xs
  unfolding remove
  remove-has i j xs ne = elim (Option-cases (find (has_id id i) xs)) [
    | inl gone ↦ ap (λ ys. has id j ys) (ground (arith, gone))
    | inr (x, f) ↦
        let same : outcome xs (remove id i xs) ≡ cut_first (has_id id i) xs = ground (arith, f) in
        let own = find-passes (has_id id i) xs x f in
        ap (λ ys. has id j ys) same
        ∙ any-cut_first (has_id id i) (has_id id j) xs x f
            (ground (arith, own, ne, eq_iff (id x) i, eq_iff (id x) j, eq_iff i j))
  ]

-- What holds of every entity, where the callback keeps it.
module _ {ℓ} {A : Type ℓ} (id : A → String) (P : A → Type 0) where
  changed-All {κ} :
      {B : Type κ} (i : String) (stamp : A → A) (xs : List A) (t : Txn A B)
      → All P xs
      → ((y : A) (b : B) → t ≡ commit y b → P (stamp y))
      → All P (outcome xs (changed id i stamp xs t))
  changed-All i stamp xs (commit y b) a h =
      All-put_first (has_id id i) P (stamp y) xs a (h y b refl)
  changed-All i stamp xs (keep b) a h = a
  changed-All i stamp xs (fail e) a h = a

  pub change-All {κ} :
      {B : Type κ} (i : String) (stamp : A → A) (fn : A → Txn A B) (xs : List A)
      → ((x y : A) (b : B) → fn x ≡ commit y b → P x → P (stamp y))
      → All P xs
      → All P (outcome xs (change id i stamp fn xs))
  unfolding change
  change-All i stamp fn xs h a = elim (Option-cases (find (has_id id i) xs)) [
    | inl gone ↦
        let same : xs ≡ outcome xs (change id i stamp fn xs) = ground (arith, gone) in
        subst (All P) same a
    | inr (x, f) ↦
        let same : outcome xs (changed id i stamp xs (fn x))
            ≡ outcome xs (change id i stamp fn xs) =
          ground (arith, f) in
        subst (All P) same
          (changed-All i stamp xs (fn x) a (λ y b e. h x y b e (All-find (has_id id i) P xs x a f)))
  ]

  pub remove-All : (i : String) (xs : List A) → All P xs → All P (outcome xs (remove id i xs))
  unfolding remove
  remove-All i xs a = elim (Option-cases (find (has_id id i) xs)) [
    | inl gone ↦
        let same : xs ≡ outcome xs (remove id i xs) = ground (arith, gone) in subst (All P) same a
    | inr (x, f) ↦
        let same : cut_first (has_id id i) xs ≡ outcome xs (remove id i xs) = ground (arith, f) in
        subst (All P) same (All-cut_first (has_id id i) P xs a)
  ]
