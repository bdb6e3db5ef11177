-- ===== src/Tasks/Integrity/Deletes.antt =====
-- The deletions of playlists and media, which their guards hold back.
use mathlib.Core.Path.{subst}
use kplayer_go.Prelude.{
  ◌≡◌, String, true, false, some, arith, str_eq, eq_iff, inl, inr, Option-cases, ◌∙◌,
}
use kplayer_go.Prelude.Lists.{any, All-none, All-both}
use kplayer_go.Model.{Data, Media, Playlist, ScheduleTask}
use kplayer_go.Collection.{find, cut_first}
use kplayer_go.Collection.Laws.{any-cut_first, All-cut_first, find-passes}
use kplayer_go.Playlist
use kplayer_go.Playlist.{
  clamp_to, media_id, playlist_id, check_items, set_playlist_items, validate_fallback_ref,
  put_playlist, on_playlist, finish, change_with, without_item, moved,
}
use kplayer_go.Tasks.Integrity.Steps.{CommitsRefs, on_playlist-HasRefs}
use kplayer_go.Tasks.{delete_media}
use kplayer_go.Tasks.Integrity.{has_media, has_playlist, GoodPlaylist, GoodTask, HasRefs}

-- An id that the guards let go is no longer referred to, so cutting its entity out breaks nothing.
has_playlist-cut :
    (id x : String) (d : Data) (p : Playlist)
    → find (playlist_id id) d.playlists ≡ some p
    → str_eq x id ≡ false
    → any (playlist_id x) (cut_first (playlist_id id) d.playlists) ≡ has_playlist d x
has_playlist-cut id x d p f n = any-cut_first (playlist_id id) (playlist_id x) d.playlists p f (
    ground (
      arith,
      find-passes (playlist_id id) d.playlists p f,
      eq_iff p.id id,
      eq_iff p.id x,
      eq_iff x id,
      n,
    ))

has_media-cut :
    (id x : String) (d : Data) (m : Media)
    → find (media_id id) d.media ≡ some m
    → str_eq x id ≡ false
    → any (media_id x) (cut_first (media_id id) d.media) ≡ has_media d x
has_media-cut id x d m f n = any-cut_first (media_id id) (media_id x) d.media m f (
    ground
      (arith, find-passes (media_id id) d.media m f, eq_iff m.id id, eq_iff m.id x, eq_iff x id, n))

pub delete-HasRefs : (id : String) (d : Data) → HasRefs d → CommitsRefs (Playlist.delete id d)
unfolding Playlist.delete
delete-HasRefs id d h = on_playlist-HasRefs id d _ λ p f e a c.
    let no_task : any (λ (t : ScheduleTask). str_eq t.playlist_id id) d.tasks ≡ false =
      ground (arith, c) in
    let no_other : any (λ (o : Playlist). str_eq o.fallback_playlist_id id) d.playlists ≡ false =
      ground (arith, c) in
    let e_is : record d { playlists = cut_first (playlist_id id) d.playlists } ≡ e =
      ground (arith, c) in
    subst HasRefs e_is (record {
      playlists = All-cut_first (playlist_id id) _ d.playlists (
          All-both _ _ _
            (λ (o : Playlist) (g : GoodPlaylist (has_media d) (has_playlist d) o)
                (n : str_eq o.fallback_playlist_id id ≡ false).
              record {
                items = g.items;
                fallback = λ s. has_playlist-cut id o.fallback_playlist_id d p f n ∙ g.fallback s;
              })
            d.playlists h.playlists (All-none _ d.playlists no_other));
      tasks =
          All-both _ _ _
            (λ (t : ScheduleTask) (g : GoodTask (has_media d) (has_playlist d) t)
                (n : str_eq t.playlist_id id ≡ false).
              record {
                playlist = λ s. has_playlist-cut id t.playlist_id d p f n ∙ g.playlist s;
                media = g.media;
              })
            d.tasks h.tasks (All-none _ d.tasks no_task);
    })

pub delete_media-HasRefs : (id : String) (d : Data) → HasRefs d → CommitsRefs (delete_media id d)
unfolding delete_media
delete_media-HasRefs id d h e a c = elim (Option-cases (find (media_id id) d.media)) [
  | inl x ↦ absurd (ground (arith, x, c))
  | inr (m, f) ↦
      let no_item : any (λ (p : Playlist). any (λ i. str_eq i id) p.items) d.playlists ≡ false =
        ground (arith, f, c) in
      let no_task : any (λ (t : ScheduleTask). str_eq t.media_id id) d.tasks ≡ false =
        ground (arith, f, c) in
      let e_is : record d { media = cut_first (media_id id) d.media } ≡ e = ground (arith, f, c) in
      subst HasRefs e_is (record {
        playlists =
            All-both _ _ _
              (λ (p : Playlist) (g : GoodPlaylist (has_media d) (has_playlist d) p)
                  (n : any (λ i. str_eq i id) p.items ≡ false).
                record {
                  items =
                      All-both _ _ _
                        (λ (i : String) (k : has_media d i ≡ true) (z : str_eq i id ≡ false).
                          has_media-cut id i d m f z ∙ k)
                        p.items g.items (All-none _ p.items n);
                  fallback = g.fallback;
                })
              d.playlists h.playlists (All-none _ d.playlists no_item);
        tasks =
            All-both _ _ _
              (λ (t : ScheduleTask) (g : GoodTask (has_media d) (has_playlist d) t)
                  (n : str_eq t.media_id id ≡ false).
                record {
                  playlist = g.playlist;
                  media = λ s. has_media-cut id t.media_id d m f n ∙ g.media s;
                })
              d.tasks h.tasks (All-none _ d.tasks no_task);
      })
]
