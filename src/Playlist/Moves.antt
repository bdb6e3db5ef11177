-- ===== src/Playlist/Moves.antt =====
-- What `MoveItem` and `RemoveItem` of management/playlist.go do to the items of a playlist.
use kplayer_go.Prelude.{
  ℕ, zero, suc, ◌≤◌, ◌<◌, ◌≡◌, refl, ap, String, false, not, some, List, [], ◌∷◌, arith, str_eq,
  eq_iff, if◌then◌else◌, Bool-cases, Option-cases, ◌∙◌, sym, ◌⊎◌, inl, inr,
}
use native.Mathlib.Decide.{ℕ_discrete}
use kplayer_go.Prelude.Lists.{length, any, select, get_elem?}
use kplayer_go.Prelude.Int.{ℤ, pos, negsuc, ◌≤ℤ◌}
use kplayer_go.Model.{Data, Playlist, invalid}
use kplayer_go.Result.{ok, commit, keep, fail}
use kplayer_go.Collection.{find, put_first}
use kplayer_go.Collection.Laws.{any-find, find-any, any-put_first}
use kplayer_go.Playlist.{
  cut_at, insert_at, clamp_to, moved, without_item, playlist_id, resolve_playlist, update, finish,
  validate_fallback_ref, put_playlist, move_item,
}

module _ {ℓ} {A : Type ℓ} where
  length-cut_at : (i : ℕ) (xs : List A) → i < length xs → suc (length (cut_at i xs)) ≡ length xs
  unfolding cut_at
  length-cut_at zero [] h = elim h [ ]
  length-cut_at zero (x ∷ xs) h = refl
  length-cut_at (suc i) [] h = elim h [ ]
  length-cut_at (suc i) (x ∷ xs) h = ap suc (length-cut_at i xs (omega arith))

  length-insert_at : (j : ℕ) (a : A) (xs : List A) → length (insert_at j a xs) ≡ suc (length xs)
  unfolding insert_at
  length-insert_at zero a xs = refl
  length-insert_at (suc j) a [] = refl
  length-insert_at (suc j) a (x ∷ xs) = ap suc (length-insert_at j a xs)

  get_elem?-insert_at :
      (j : ℕ) (a : A) (xs : List A) → j ≤ length xs → get_elem? (insert_at j a xs) j ≡ some a
  unfolding insert_at
  get_elem?-insert_at zero a xs h = refl
  get_elem?-insert_at (suc j) a [] h = absurd (omega arith)
  get_elem?-insert_at (suc j) a (x ∷ xs) h = get_elem?-insert_at j a xs (omega arith)

  cut_at-insert_at :
      (j : ℕ) (a : A) (xs : List A) → j ≤ length xs → cut_at j (insert_at j a xs) ≡ xs
  unfolding cut_at insert_at
  cut_at-insert_at zero a xs h = refl
  cut_at-insert_at (suc j) a [] h = absurd (omega arith)
  cut_at-insert_at (suc j) a (x ∷ xs) h = ap (λ r. x ∷ r) (cut_at-insert_at j a xs (omega arith))

  get_elem?-lt : (xs : List A) (i : ℕ) → i < length xs → (a : A) × (get_elem? xs i ≡ some a)
  get_elem?-lt [] i h = elim h [ ]
  get_elem?-lt (x ∷ xs) zero h = (x, refl)
  get_elem?-lt (x ∷ xs) (suc i) h = get_elem?-lt xs i (omega arith)

-- The items `ys` are `xs` with the item at `i` moved to `j`: as many, the moved item stands at
-- `j`, and the others stand in their old order.
pub record IsMove {ℓ} {A : Type ℓ} (i j : ℕ) (xs ys : List A) : Type ℓ where
  pub as_many : length ys ≡ length xs
  pub arrived : get_elem? ys j ≡ get_elem? xs i
  pub others : cut_at j ys ≡ cut_at i xs

insert_at-IsMove {ℓ} :
    {A : Type ℓ} (i j : ℕ) (a : A) (xs : List A)
    → i < length xs
    → j < length xs
    → get_elem? xs i ≡ some a
    → IsMove i j xs (insert_at j a (cut_at i xs))
insert_at-IsMove i j a xs h k e =
    let shorter = length-cut_at i xs h in
    record {
      as_many = omega (arith, length-insert_at j a (cut_at i xs));
      arrived = get_elem?-insert_at j a (cut_at i xs) (omega arith) ∙ sym e;
      others = cut_at-insert_at j a (cut_at i xs) (omega arith);
    }

clamp_to-lt : (n : ℕ) (to : ℤ) → 0 < n → clamp_to n to < n
clamp_to-lt n (pos k) h = ground arith
clamp_to-lt n (negsuc k) h = h

-- The callback of `MoveItem`
moved-IsMove :
    (i : ℕ) (to : ℤ) (p : Playlist)
    → 2 ≤ length p.items
    → i < length p.items
    → let j = clamp_to (length p.items) to in
      ((i ≡ j) × (moved (pos i) to p ≡ keep tt))
      ⊎ ((ys : List String) × (moved (pos i) to p ≡ commit (record p { items = ys }) tt)
          × IsMove i j p.items ys)
unfolding moved
moved-IsMove i to p h k =
    let (a, e) = get_elem?-lt p.items i k in
    elim (ℕ_discrete i (clamp_to (length p.items) to)) [
      | yes q ↦ inl (q, ground arith)
      | no q ↦ inr (
        insert_at (clamp_to (length p.items) to) a (cut_at i p.items),
        ground (arith, e),
        insert_at-IsMove i (clamp_to (length p.items) to) a p.items k
            (clamp_to-lt (length p.items) to (omega arith)) e,
      )
    ]

-- A valid fallback stays valid while the items of a playlist change.
still_valid :
    (id : String) (d : Data) (p : Playlist) (ys : List String)
    → find (playlist_id id) d.playlists ≡ some p
    → validate_fallback_ref d p ≡ ok tt
    → validate_fallback_ref (put_playlist id (record p { items = ys }) d) (record p { items = ys })
      ≡ ok tt
unfolding validate_fallback_ref resolve_playlist
still_valid id d p ys f v =
    let fallback = p.fallback_playlist_id in
    let q : Playlist = record p { items = ys } in
    elim (Bool-cases (str_eq fallback "")) [
      | inl e ↦ ground (arith, e)
      | inr e ↦ elim (Option-cases (find (playlist_id fallback) d.playlists)) [
        | inl gone ↦ absurd (ground (arith, e, gone, v))
        | inr (o, g) ↦
            let there =
              any-put_first (playlist_id id) (playlist_id fallback) q d.playlists p f refl
              ∙ find-any (playlist_id fallback) d.playlists o g in
            let (o', g') =
              any-find (playlist_id fallback) (put_first (playlist_id id) q d.playlists) there in
            ground (arith, e, v, g')
      ]
    ]

-- `MoveItem` of a playlist of two or more items, whose fallback is valid, with a source index
-- inside it: where the target index, clamped to the slice, is the source index, nothing is
-- committed; otherwise the document that is committed differs in that playlist only, which gets
-- the time of the call and its items with that one item moved to the target index.
pub move_item-IsMove :
    (id : String) (now i : ℕ) (to : ℤ) (d : Data) (p : Playlist)
    → find (playlist_id id) d.playlists ≡ some p
    → validate_fallback_ref d p ≡ ok tt
    → 2 ≤ length p.items
    → i < length p.items
    → let j = clamp_to (length p.items) to in
      ((i ≡ j) × (move_item id now (pos i) to d ≡ keep tt))
      ⊎ ((ys : List String) × IsMove i j p.items ys
          × (move_item id now (pos i) to d
              ≡ commit (put_playlist id (record p { items = ys; updated_at = now }) d) tt))
unfolding move_item update finish
move_item-IsMove id now i to d p f v h k = elim (moved-IsMove i to p h k) [
  | inl (q, e) ↦ inl (q, ground (arith, f, e))
  | inr (ys, e, m) ↦ inr (ys, m, ground (arith, f, e, still_valid id d p ys f v))
]

-- Any other call of the callback changes nothing: a playlist of fewer than two items reports `errNoop`, an index
-- outside the slice is invalid.
pub moved-refused :
    (from to : ℤ) (p : Playlist)
    → (length p.items < 2 → moved from to p ≡ keep tt)
      × (2 ≤ length p.items → from ≤ℤ negsuc 0 → moved from to p ≡ fail invalid)
      × (2 ≤ length p.items → pos (length p.items) ≤ℤ from → moved from to p ≡ fail invalid)
unfolding moved
moved-refused (pos i) to p = (λ h. ground arith, λ h k. ground arith, λ h k. ground arith)
moved-refused (negsuc i) to p = (λ h. ground arith, λ h k. ground arith, λ h k. ground arith)

any-select_ne :
    (media m : String) (xs : List String)
    → any (λ i. str_eq i m) (select (λ i. not (str_eq i media)) xs)
      ≡ (if str_eq media m then false else any (λ i. str_eq i m) xs)
any-select_ne media m [] = ground arith
any-select_ne media m (x ∷ xs) =
    ground (arith, eq_iff x media, eq_iff x m, eq_iff media m, any-select_ne media m xs)

-- `RemoveItem` removes every reference to its media and no other reference, and reports
-- `errNoop` where there is none.
pub without_item_lem :
    (media m : String) (p : Playlist)
    → ((any (λ i. str_eq i media) p.items ≡ false) × (without_item media p ≡ keep tt))
      ⊎ ((ys : List String) × (without_item media p ≡ commit (record p { items = ys }) tt)
          × (any (λ i. str_eq i m) ys
              ≡ (if str_eq media m then false else any (λ i. str_eq i m) p.items)))
without_item_lem media m p = elim (Bool-cases (any (λ i. str_eq i media) p.items)) [
  | inl e ↦
      inr (select (λ i. not (str_eq i media)) p.items, ground arith, any-select_ne media m p.items)
  | inr e ↦ inl (e, ground arith)
]
