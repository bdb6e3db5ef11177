-- ===== src/Tasks/Integrity/Changes.antt =====
-- The callbacks that change the items of a playlist put in no item that does not exist.
use mathlib.Core.Path.{subst}
use kplayer_go.Prelude.{
  ℕ, ◌≡◌, refl, ap, String, not, List, [], ◌∷◌, ◌++◌, arith, str_eq, inl, inr, Option-cases, sym,
}
use kplayer_go.Prelude.Lists.{All-append, All-select, get_elem?, length, select}
use kplayer_go.Prelude.Int.{ℤ, pos, negsuc}
use kplayer_go.Model.{Data, Playlist}
use kplayer_go.Result.{check-commit, bind-ok, Result-cases}
use kplayer_go.Collection.Laws.{All-find}
use kplayer_go.Playlist
use kplayer_go.Playlist.{
  clamp_to, media_id, playlist_id, check_items, set_playlist_items, validate_fallback_ref,
  put_playlist, on_playlist, finish, change_with, without_item, moved,
}
use kplayer_go.Tasks.Integrity.{All-cut_at, All-insert_at, All-get_elem?}
use kplayer_go.Tasks.Integrity.Steps.{
  CommitsRefs, GoodChange, put_playlist-HasRefs, finish-HasRefs, on_playlist-HasRefs,
}
use kplayer_go.Tasks.Integrity.{
  has_media, has_playlist, GoodItems, HasRefs, check_items-has, resolve_media-has,
}

pub set_items-HasRefs :
    (id : String) (now : ℕ) (ids : List String) (d : Data)
    → HasRefs d
    → CommitsRefs (Playlist.set_items id now ids d)
unfolding Playlist.set_items
set_items-HasRefs id now ids d h = on_playlist-HasRefs id d _ λ p f e a c.
    let (q, s, c') = check-commit (set_playlist_items d p ids) _ c in
    let (items, k, r) = bind-ok (check_items d ids) _ s in
    let same : record p { items = items } ≡ q = cc in
    finish-HasRefs id now d p q h f (ap (λ (x : Playlist). x.id) (sym same))
      (subst (GoodItems (has_media d) (has_playlist d)) same (check_items-has d ids items k)) e a c'

pub add_item-HasRefs :
    (id media : String) (d : Data) → HasRefs d → CommitsRefs (Playlist.add_item id media d)
unfolding Playlist.add_item
add_item-HasRefs id media d h = on_playlist-HasRefs id d _ λ p f e a c.
    let good = All-find (playlist_id id) _ d.playlists p h.playlists f in
    let q : Playlist = record p { items = p.items ++ media ∷ [] } in
    elim (Result-cases (Playlist.resolve_media d media)) [
      | inr (x, r) ↦ absurd (ground (arith, r, c))
      | inl (m, r) ↦
          let same : put_playlist id q d ≡ e = ground (arith, r, c) in
          subst HasRefs same (
            put_playlist-HasRefs id d p q h f refl (record {
              items =
                  All-append _ p.items (media ∷ []) good.items (resolve_media-has d media m r, tt);
              fallback = good.fallback;
            }))
    ]

moved_from-good : (n i : ℕ) (to : ℤ) (d : Data) → GoodChange d (Playlist.moved_from n i to)
unfolding Playlist.moved_from
moved_from-good n i to d p q g e = elim (Option-cases (get_elem? p.items i)) [
  | inl x ↦ absurd (ground (arith, x, e))
  | inr (m, x) ↦
      let j = clamp_to n to in
      let ys = Playlist.insert_at j m (Playlist.cut_at i p.items) in
      let same : record p { items = ys } ≡ q = ground (arith, x, e) in
      subst (λ (r : Playlist). (r.id ≡ p.id) × GoodItems (has_media d) (has_playlist d) r) same
        (
          refl,
          All-insert_at _ j m (Playlist.cut_at i p.items) (All-get_elem? _ p.items i m g x)
              (All-cut_at _ i p.items g),
        )
]

pub moved-good : (from to : ℤ) (d : Data) → GoodChange d (moved from to)
unfolding moved
moved-good (pos i) to d p q g e = moved_from-good (length p.items) i to d p q g (ground (arith, e))
moved-good (negsuc i) to d p q g e = absurd (ground (arith, e))

pub without_item-good : (media : String) (d : Data) → GoodChange d (without_item media)
without_item-good media d p q g e =
    let same : record p { items = select (λ i. not (str_eq i media)) p.items } ≡ q =
      ground (arith, e) in
    subst (λ (r : Playlist). (r.id ≡ p.id) × GoodItems (has_media d) (has_playlist d) r) same
      (refl, All-select _ (λ i. not (str_eq i media)) p.items g)
