-- ===== src/Tasks/Integrity.antt =====
-- The references between the collections of the document: the operations of
-- management/playlist.go, schedule.go and `MediaService.Delete` keep every one of them alive.
pub mod Steps
pub mod TaskSteps
pub mod MediaSteps
pub mod Changes
pub mod Deletes
pub mod Runs
use kplayer_go.Prelude.{
  ℕ, suc, zero, ◌≡◌, ◌≢◌, refl, ap, String, Bool, true, false, not, ◌&&◌, ◌||◌, none, some, List,
  [], ◌∷◌, ◌++◌, arith, str_eq, eq_iff, inl, inr, Bool-cases, if◌then◌else◌, Option-cases, sym, ◌∙◌,
}
use mathlib.Core.Path.{subst}
use kplayer_go.Prelude.Text.{trim_space}
use kplayer_go.Prelude.Lists.{any, All, All-append, All-select, All-mono, get_elem?, select}
use kplayer_go.Prelude.Int.{ℤ, pos, negsuc}
use kplayer_go.Model.{Data, Media, Playlist, ScheduleTask, empty_data}
use kplayer_go.Result.{
  Result, ok, err, Txn, commit, keep, fail, check, check-commit, bind-ok, ◌>>=◌,
}
use kplayer_go.Collection.{find, put_first, cut_first, has_id}
use kplayer_go.Collection.Laws.{
  find-any, any-put_first, any-cut_first, All-put_first, All-cut_first, All-find, find-passes,
  find-none,
}
use kplayer_go.Playlist.{
  media_id, playlist_id, resolve_media, resolve_playlist, cut_at, insert_at, check_items,
  validate_fallback_ref, or_not_found, put_playlist,
}
use kplayer_go.Tasks.{is_set, task_id, put_task, validate_task_refs}

-- Which ids are taken.
abbrev pub has_media : Data → String → Bool
has_media d i = any (media_id i) d.media

abbrev pub has_playlist : Data → String → Bool
has_playlist d i = any (playlist_id i) d.playlists

-- Where `M` and `L` tell which media and playlists exist.
module _ (M L : String → Bool) where
  abbrev pub GoodItems : Playlist → Type 0
  GoodItems p = All (λ i. M i ≡ true) p.items

  abbrev pub GoodFallback : Playlist → Type 0
  GoodFallback p = is_set p.fallback_playlist_id ≡ true → L p.fallback_playlist_id ≡ true

  pub record GoodPlaylist (p : Playlist) : Type 0 where
    pub items : GoodItems p
    pub fallback : GoodFallback p

  pub record GoodTask (t : ScheduleTask) : Type 0 where
    pub playlist : is_set t.playlist_id ≡ true → L t.playlist_id ≡ true
    pub media : is_set t.media_id ≡ true → M t.media_id ≡ true

  pub record GoodRefs (d : Data) : Type 0 where
    pub playlists : All GoodPlaylist d.playlists
    pub tasks : All GoodTask d.tasks

-- Every item of a playlist is a media of the document, every fallback a playlist, and every
-- target of a task a media or a playlist.
abbrev pub HasRefs : Data → Type 0
HasRefs d = GoodRefs (has_media d) (has_playlist d) d

-- The reference is kept, or was not among those that the guard lets go.
module _ {M L M' L' : String → Bool} where
  GoodPlaylist-mono :
      ((i : String) → M i ≡ true → M' i ≡ true)
      → ((i : String) → L i ≡ true → L' i ≡ true)
      → (p : Playlist) → GoodPlaylist M L p
      → GoodPlaylist M' L' p
  GoodPlaylist-mono f g p h = record {
    items = All-mono _ _ (λ i. f i) p.items h.items;
    fallback = λ s. g p.fallback_playlist_id (h.fallback s);
  }

  GoodTask-mono :
      ((i : String) → M i ≡ true → M' i ≡ true)
      → ((i : String) → L i ≡ true → L' i ≡ true)
      → (t : ScheduleTask) → GoodTask M L t
      → GoodTask M' L' t
  GoodTask-mono f g t h = record {
    playlist = λ s. g t.playlist_id (h.playlist s);
    media = λ s. f t.media_id (h.media s);
  }

module _ {ℓ} {A : Type ℓ} (P : A → Type 0) where
  pub All-cut_at : (i : ℕ) (xs : List A) → All P xs → All P (cut_at i xs)
  unfolding cut_at
  All-cut_at zero [] h = h
  All-cut_at zero (x ∷ xs) h = h.1
  All-cut_at (suc i) [] h = h
  All-cut_at (suc i) (x ∷ xs) h = (h.0, All-cut_at i xs h.1)

  pub All-insert_at : (j : ℕ) (a : A) (xs : List A) → P a → All P xs → All P (insert_at j a xs)
  unfolding insert_at
  All-insert_at zero a xs p h = (p, h)
  All-insert_at (suc j) a [] p h = (p, tt)
  All-insert_at (suc j) a (x ∷ xs) p h = (h.0, All-insert_at j a xs p h.1)

  pub All-get_elem? : (xs : List A) (i : ℕ) (a : A) → All P xs → get_elem? xs i ≡ some a → P a
  All-get_elem? [] i a h e = cc
  All-get_elem? (x ∷ xs) zero a h e = let same : x ≡ a = cc in subst P same h.0
  All-get_elem? (x ∷ xs) (suc i) a h e = All-get_elem? xs i a h.1 e

-- What the checks of the program establish.
pub resolve_media-has :
    (d : Data) (i : String) (m : Media) → resolve_media d i ≡ ok m → has_media d i ≡ true
unfolding resolve_media
resolve_media-has d i m h = elim (Option-cases (find (media_id i) d.media)) [
  | inl e ↦ absurd (ground (arith, e, h))
  | inr (x, e) ↦ find-any (media_id i) d.media x e
]

pub resolve_playlist-has :
    (d : Data) (i : String) (p : Playlist) → resolve_playlist d i ≡ ok p → has_playlist d i ≡ true
unfolding resolve_playlist
resolve_playlist-has d i m h = elim (Option-cases (find (playlist_id i) d.playlists)) [
  | inl e ↦ absurd (ground (arith, e, h))
  | inr (x, e) ↦ find-any (playlist_id i) d.playlists x e
]

pub check_items-has :
    (d : Data) (ids items : List String)
    → check_items d ids ≡ ok items
    → All (λ i. has_media d i ≡ true) items
unfolding check_items
check_items-has d [] items h =
    let none_left : [] ≡ items = cc in subst (All (λ i. has_media d i ≡ true)) none_left tt
check_items-has d (id ∷ ids) items h = elim (Bool-cases (str_eq (trim_space id) "")) [
  | inl e ↦ check_items-has d ids items (ground (arith, e, h))
  | inr e ↦
      let (m, p, h1) =
        bind-ok (resolve_media d (trim_space id))
          (λ _. check_items d ids >>= λ items'. ok (trim_space id ∷ items')) {last = items}
          (ground (arith, e, h)) in
      let (rest, q, h2) = bind-ok (check_items d ids) (λ items'. ok (trim_space id ∷ items')) h1 in
      let same : trim_space id ∷ rest ≡ items = cc in
      subst (All (λ i. has_media d i ≡ true)) same
        (resolve_media-has d (trim_space id) m p, check_items-has d ids rest q)
]
