-- ===== src/Tasks/Integrity/Steps.antt =====
-- Each operation on playlists, tasks and media keeps the references of the document alive.
use mathlib.Core.Path.{subst}
use kplayer_go.Prelude.{
  ℕ, ◌≡◌, refl, ap, String, true, some, arith, str_eq, inl, inr, Option-cases, sym, ◌∙◌,
}
use kplayer_go.Prelude.Lists.{All-mono}
use kplayer_go.Model.{Data, Playlist}
use kplayer_go.Result.{ok, Txn, commit, keep, fail, check-commit, Result-cases}
use kplayer_go.Collection.{find, put_first}
use kplayer_go.Collection.Laws.{any-put_first, All-put_first, All-find}
use kplayer_go.Playlist
use kplayer_go.Playlist.{
  media_id, playlist_id, check_items, set_playlist_items, validate_fallback_ref, put_playlist,
  on_playlist, finish, change_with, without_item, moved,
}
use kplayer_go.Tasks.{is_set}
use kplayer_go.Tasks.Integrity.{
  has_media, has_playlist, GoodItems, GoodPlaylist, HasRefs, GoodPlaylist-mono, GoodTask-mono,
  resolve_playlist-has,
}

-- A commit of a document whose references are alive.
abbrev pub CommitsRefs {ℓ} : {A : Type ℓ} → Txn Data A → Type ℓ
CommitsRefs {A} t = (e : Data) (a : A) → t ≡ commit e a → HasRefs e

has_playlist-put :
    (id x : String) (d : Data) (p q : Playlist)
    → find (playlist_id id) d.playlists ≡ some p
    → q.id ≡ p.id
    → has_playlist (put_playlist id q d) x ≡ has_playlist d x
has_playlist-put id x d p q f s =
    any-put_first (playlist_id id) (playlist_id x) q d.playlists p f (ap (λ i. str_eq i x) s)

pub put_playlist-HasRefs :
    (id : String) (d : Data) (p q : Playlist)
    → HasRefs d
    → find (playlist_id id) d.playlists ≡ some p
    → q.id ≡ p.id
    → GoodPlaylist (has_media d) (has_playlist d) q
    → HasRefs (put_playlist id q d)
put_playlist-HasRefs id d p q h f s g =
    let kept = λ (x : String) (l : has_playlist d x ≡ true). has_playlist-put id x d p q f s ∙ l in
    record {
      playlists =
          All-mono _ _ (GoodPlaylist-mono (λ i m. m) kept)
            (put_first (playlist_id id) q d.playlists)
            (All-put_first (playlist_id id) _ q d.playlists h.playlists g);
      tasks = All-mono _ _ (GoodTask-mono (λ i m. m) kept) d.tasks h.tasks;
    }

pub validated_fallback :
    (d : Data) (q : Playlist)
    → validate_fallback_ref d q ≡ ok tt
    → is_set q.fallback_playlist_id ≡ true
    → has_playlist d q.fallback_playlist_id ≡ true
unfolding validate_fallback_ref
validated_fallback d q h s =
    elim (Result-cases (Playlist.resolve_playlist d q.fallback_playlist_id)) [
      | inl (p, e) ↦ resolve_playlist-has d q.fallback_playlist_id p e
      | inr (x, e) ↦ absurd (ground (arith, h, s, e))
    ]

pub finish-HasRefs :
    (id : String) (now : ℕ) (d : Data) (p q : Playlist)
    → HasRefs d
    → find (playlist_id id) d.playlists ≡ some p
    → q.id ≡ p.id
    → GoodItems (has_media d) (has_playlist d) q
    → CommitsRefs (finish id now d q)
unfolding finish
finish-HasRefs id now d p q h f s g e a c =
    let (_, valid, c') = check-commit (validate_fallback_ref (put_playlist id q d) q) _ c in
    let stamped : Playlist = record q { updated_at = now } in
    let same : put_playlist id stamped d ≡ e = cc in
    subst HasRefs same (
      put_playlist-HasRefs id d p stamped h f s (record {
        items = g;
        fallback = λ k.
            sym (has_playlist-put id q.fallback_playlist_id d p q f s)
            ∙ validated_fallback (put_playlist id q d) q valid k;
      }))

-- A callback that keeps the id and puts in no item that does not exist.
abbrev pub GoodChange : Data → (Playlist → Txn Playlist (Unit {0})) → Type 0
GoodChange d fn =
    (p q : Playlist)
    → GoodItems (has_media d) (has_playlist d) p
    → fn p ≡ commit q tt
    → (q.id ≡ p.id) × GoodItems (has_media d) (has_playlist d) q

change_with-HasRefs :
    (id : String) (now : ℕ) (d : Data) (p : Playlist) (t : Txn Playlist (Unit {0}))
    → HasRefs d
    → find (playlist_id id) d.playlists ≡ some p
    → ((q : Playlist)
        → t ≡ commit q tt
        → (q.id ≡ p.id) × GoodItems (has_media d) (has_playlist d) q)
    → CommitsRefs (change_with id now d t)
change_with-HasRefs id now d p (commit q u) h f g e a c =
    let (s, i) = g q refl in finish-HasRefs id now d p q h f s i e a c
change_with-HasRefs id now d p (keep u) h f g e a c = cc
change_with-HasRefs id now d p (fail x) h f g e a c = cc

-- The playlist that a loop finds, if it finds one.
pub on_playlist-HasRefs :
    (id : String) (d : Data) (k : Playlist → Txn Data (Unit {0}))
    → ((p : Playlist) → find (playlist_id id) d.playlists ≡ some p → CommitsRefs (k p))
    → CommitsRefs (on_playlist id d k)
on_playlist-HasRefs id d k g e a c = elim (Option-cases (find (playlist_id id) d.playlists)) [
  | inl n ↦ absurd (ground (arith, n, c))
  | inr (p, f) ↦ g p f e a (ground (arith, f, c))
]

pub update-HasRefs :
    (id : String) (now : ℕ) (fn : Playlist → Txn Playlist (Unit {0})) (d : Data)
    → HasRefs d
    → GoodChange d fn
    → CommitsRefs (Playlist.update id now fn d)
unfolding Playlist.update
update-HasRefs id now fn d h g =
    on_playlist-HasRefs id d (λ p. change_with id now d (fn p))
      λ p f.
        change_with-HasRefs id now d p (fn p) h f
          λ q e. g p q (All-find (playlist_id id) _ d.playlists p h.playlists f).items e
