-- ===== src/Tasks/Integrity/Runs.antt =====
-- Any sequence of the operations on playlists, tasks and media keeps the references alive.
use mathlib.Core.Path.{subst}
use kplayer_go.Prelude.{ℕ, ◌≡◌, refl, String, Bool, true, List, [], ◌∷◌, ◌++◌, arith}
use kplayer_go.Prelude.Lists.{any, any-append, All-append, All-mono}
use kplayer_go.Prelude.Int.{ℤ}
use kplayer_go.Model.{Data, Media, Playlist, ScheduleTask}
use kplayer_go.MediaLibrary
use kplayer_go.MediaLibrary.{Files}
use kplayer_go.Tasks.Integrity.MediaSteps.{
  KeepsId, add_many-HasRefs, update_media-HasRefs, scan-HasRefs,
}
use kplayer_go.Result.{Txn, commit, keep, fail, check, check-commit, bind-ok}
use kplayer_go.Playlist
use kplayer_go.Playlist.{
  new_playlist, clamp_to, media_id, playlist_id, check_items, set_playlist_items,
  validate_fallback_ref, put_playlist, on_playlist, finish, change_with, without_item, moved,
}
use kplayer_go.Tasks
use kplayer_go.Tasks.Integrity.Changes.{
  set_items-HasRefs, add_item-HasRefs, moved-good, without_item-good,
}
use kplayer_go.Tasks.Integrity.TaskSteps.{
  create_task-HasRefs, replace-HasRefs, set_enabled-HasRefs, delete_task-HasRefs, GoodTaskChange,
  update_task-HasRefs,
}
use kplayer_go.Tasks.Integrity.Deletes.{delete-HasRefs, delete_media-HasRefs}
use kplayer_go.Tasks.Integrity.Steps.{CommitsRefs, GoodChange, update-HasRefs, validated_fallback}
use kplayer_go.Tasks.{
  TaskSpec, is_set, task_id, put_task, on_task, validate_task_refs, overwritten, new_task,
  delete_media,
}
use kplayer_go.Tasks.Integrity.{
  has_media, has_playlist, GoodItems, GoodPlaylist, HasRefs, GoodPlaylist-mono, GoodTask-mono,
  check_items-has,
}

-- A new playlist leaves the ids that were there.
append-HasRefs :
    (d : Data) (q : Playlist)
    → HasRefs d
    → GoodPlaylist (has_media d) (has_playlist d) q
    → HasRefs (record d { playlists = d.playlists ++ q ∷ [] })
append-HasRefs d q h g =
    let kept : (x : String)
        → has_playlist d x ≡ true
        → any (playlist_id x) (d.playlists ++ q ∷ []) ≡ true =
      λ x l. ground (arith, any-append (playlist_id x) d.playlists (q ∷ []), l) in
    record {
      playlists =
          All-mono _ _ (GoodPlaylist-mono (λ i m. m) kept) (d.playlists ++ q ∷ [])
            (All-append _ d.playlists (q ∷ []) h.playlists (g, tt));
      tasks = All-mono _ _ (GoodTask-mono (λ i m. m) kept) d.tasks h.tasks;
    }

create-HasRefs :
    (id : String) (now : ℕ) (name desc : String) (ids : List String) (loop : Bool) (d : Data)
    → HasRefs d
    → CommitsRefs (Playlist.create id now name desc ids loop d)
unfolding Playlist.create
create-HasRefs id now name desc ids loop d h e a c =
    let c0 : check (set_playlist_items d (new_playlist id now name desc loop) ids) (λ p.
      check (validate_fallback_ref d p)
        λ _. commit (record d { playlists = d.playlists ++ p ∷ [] }) p)
        ≡ commit e a =
      ground (arith, c) in
    let (q, s, c1) =
      check-commit (set_playlist_items d (new_playlist id now name desc loop) ids) _ c0 in
    let (_, valid, c2) = check-commit (validate_fallback_ref d q) _ c1 in
    let (items, k, r) = bind-ok (check_items d ids) _ s in
    let kept : record (new_playlist id now name desc loop) { items = items } ≡ q = cc in
    let same : record d { playlists = d.playlists ++ q ∷ [] } ≡ e = cc in
    subst HasRefs same (
      append-HasRefs d q h (record {
        items =
            subst (GoodItems (has_media d) (has_playlist d)) kept (check_items-has d ids items k);
        fallback = validated_fallback d q valid;
      }))

-- The operations that add, change or delete a playlist, a task or a media: all of
-- `PlaylistService`, `TaskService` and `MediaService` that write.
pub data Op : Type 0 where
  create_playlist : String → ℕ → String → String → List String → Bool → Op
  set_fallback : String → ℕ → String → Op
  delete_playlist : String → Op
  set_items : String → ℕ → List String → Op
  add_item remove_item : String → ℕ → String → Op
  move_item : String → ℕ → ℤ → ℤ → Op
  clear_items : String → ℕ → Op
  create_task replace_task : String → ℕ → TaskSpec → Op
  enable_task : String → ℕ → Bool → Op
  delete_task delete_media_op : String → Op
  update_playlist : String → ℕ → (Playlist → Txn Playlist (Unit {0})) → Op
  update_task : String → ℕ → (ScheduleTask → Txn ScheduleTask (Unit {0})) → Op
  update_media : String → ℕ → (Media → Txn Media (Unit {0})) → Op
  add_media scan_media : Files → ℕ → List (String × Media) → Op

-- The document that a callback leaves, stamped or not: the stamp of the root concerns no reference.
abbrev pub left_by {ℓ} : {A : Type ℓ} → Data → Txn Data A → Data
left_by d (commit e a) = e
left_by d (keep a) = d
left_by d (fail x) = d

pub after_op : Op → Data → Data
after_op (create_playlist id now name desc ids loop) d =
    left_by d (Playlist.create id now name desc ids loop d)
after_op (set_fallback id now fallback) d = left_by d (Playlist.set_fallback id now fallback d)
after_op (delete_playlist id) d = left_by d (Playlist.delete id d)
after_op (set_items id now ids) d = left_by d (Playlist.set_items id now ids d)
after_op (add_item id now media) d = left_by d (Playlist.add_item id media d)
after_op (remove_item id now media) d = left_by d (Playlist.remove_item id now media d)
after_op (move_item id now from to) d = left_by d (Playlist.move_item id now from to d)
after_op (clear_items id now) d = left_by d (Playlist.clear_items id now d)
after_op (create_task id now spec) d = left_by d (Tasks.create id now spec d)
after_op (replace_task id now spec) d = left_by d (Tasks.replace id now spec d)
after_op (enable_task id now enabled) d = left_by d (Tasks.set_enabled id now enabled d)
after_op (delete_task id) d = left_by d (Tasks.delete id d)
after_op (delete_media_op id) d = left_by d (delete_media id d)
after_op (update_playlist id now fn) d = left_by d (Playlist.update id now fn d)
after_op (update_task id now fn) d = left_by d (Tasks.update id now fn d)
after_op (update_media id now fn) d = left_by d (MediaLibrary.update id now fn d)
after_op (add_media files now items) d = left_by d (MediaLibrary.add_many files now items d)
after_op (scan_media files now found) d = left_by d (MediaLibrary.scan files now found d)

pub after_ops : List Op → Data → Data
after_ops [] d = d
after_ops (o ∷ os) d = after_ops os (after_op o d)

-- What the callback of a caller has to keep, on the document as it is then: `Update` of a playlist
-- checks no items, that of a task no targets, that of a media no id.
abbrev pub IsCareful : Op → Data → Type 0
IsCareful (update_playlist id now fn) d = GoodChange d fn
IsCareful (update_task id now fn) d = GoodTaskChange d fn
IsCareful (update_media id now fn) d = KeepsId fn
IsCareful _ d = Unit

abbrev pub AreCareful : List Op → Data → Type 0
AreCareful [] d = Unit
AreCareful (o ∷ os) d = IsCareful o d × AreCareful os (after_op o d)

left_by-HasRefs {ℓ} :
    {A : Type ℓ} (d : Data) (t : Txn Data A) → HasRefs d → CommitsRefs t → HasRefs (left_by d t)
left_by-HasRefs d (commit e a) h g = g e a refl
left_by-HasRefs d (keep a) h g = h
left_by-HasRefs d (fail x) h g = h

set_fallback-good :
    (fallback : String) (d : Data)
    → GoodChange d (λ p. commit (record p { fallback_playlist_id = fallback }) tt)
set_fallback-good fallback d p q g e =
    let same : record p { fallback_playlist_id = fallback } ≡ q = ground (arith, e) in
    subst (λ (r : Playlist). (r.id ≡ p.id) × GoodItems (has_media d) (has_playlist d) r) same
      (refl, g)

clear_items-good : (d : Data) → GoodChange d (λ p. commit (record p { items = [] }) tt)
clear_items-good d p q g e =
    let same : record p { items = [] } ≡ q = ground (arith, e) in
    subst (λ (r : Playlist). (r.id ≡ p.id) × GoodItems (has_media d) (has_playlist d) r) same
      (refl, tt)

after_op-HasRefs : (o : Op) (d : Data) → IsCareful o d → HasRefs d → HasRefs (after_op o d)
unfolding after_op Playlist.set_fallback Playlist.remove_item Playlist.move_item
    Playlist.clear_items
after_op-HasRefs (create_playlist id now name desc ids loop) d g h =
    left_by-HasRefs d _ h (create-HasRefs id now name desc ids loop d h)
after_op-HasRefs (set_fallback id now fallback) d g h =
    left_by-HasRefs d _ h (update-HasRefs id now _ d h (set_fallback-good fallback d))
after_op-HasRefs (delete_playlist id) d g h = left_by-HasRefs d _ h (delete-HasRefs id d h)
after_op-HasRefs (set_items id now ids) d g h =
    left_by-HasRefs d _ h (set_items-HasRefs id now ids d h)
after_op-HasRefs (add_item id now media) d g h =
    left_by-HasRefs d _ h (add_item-HasRefs id media d h)
after_op-HasRefs (remove_item id now media) d g h =
    left_by-HasRefs d _ h (update-HasRefs id now _ d h (without_item-good media d))
after_op-HasRefs (move_item id now from to) d g h =
    left_by-HasRefs d _ h (update-HasRefs id now _ d h (moved-good from to d))
after_op-HasRefs (clear_items id now) d g h =
    left_by-HasRefs d _ h (update-HasRefs id now _ d h (clear_items-good d))
after_op-HasRefs (create_task id now spec) d g h =
    left_by-HasRefs d _ h (create_task-HasRefs id now spec d h)
after_op-HasRefs (replace_task id now spec) d g h =
    left_by-HasRefs d _ h (replace-HasRefs id now spec d h)
after_op-HasRefs (enable_task id now enabled) d g h =
    left_by-HasRefs d _ h (set_enabled-HasRefs id now enabled d h)
after_op-HasRefs (delete_task id) d g h = left_by-HasRefs d _ h (delete_task-HasRefs id d h)
after_op-HasRefs (delete_media_op id) d g h = left_by-HasRefs d _ h (delete_media-HasRefs id d h)
after_op-HasRefs (update_playlist id now fn) d g h =
    left_by-HasRefs d _ h (update-HasRefs id now fn d h g)
after_op-HasRefs (update_task id now fn) d g h =
    left_by-HasRefs d _ h (update_task-HasRefs id now fn d h g)
after_op-HasRefs (update_media id now fn) d g h =
    left_by-HasRefs d _ h (update_media-HasRefs id now fn d h g)
after_op-HasRefs (add_media files now items) d g h =
    left_by-HasRefs d _ h (add_many-HasRefs files now items d h)
after_op-HasRefs (scan_media files now found) d g h =
    left_by-HasRefs d _ h (scan-HasRefs files now found d h)

-- However the operations on playlists, tasks and media follow one another, and whichever of them
-- fail, every item of a playlist stays a media of the document, every fallback a playlist of it,
-- and every target of a task a media or playlist of it, if that held at the start. The callback
-- of an `Update` is taken to be careful, on the document as it is when it runs: one of a playlist
-- keeps the id and puts in only items that exist, one of a task puts in only targets that exist,
-- and one of a media keeps the id.
pub after_ops-HasRefs :
    (os : List Op) (d : Data) → AreCareful os d → HasRefs d → HasRefs (after_ops os d)
unfolding after_ops after_op
after_ops-HasRefs [] d g h = h
after_ops-HasRefs (o ∷ os) d g h =
    after_ops-HasRefs os (after_op o d) g.1 (after_op-HasRefs o d g.0 h)
