-- ===== src/Tasks/Integrity/TaskSteps.antt =====
-- The operations on tasks of management/schedule.go keep the references of the document alive.
use mathlib.Core.Path.{subst}
use kplayer_go.Prelude.{
  ℕ, ◌≡◌, refl, String, Bool, some, [], ◌∷◌, ◌++◌, arith, inl, inr, Option-cases,
}
use kplayer_go.Prelude.Lists.{All-append}
use kplayer_go.Model.{Data, ScheduleTask}
use kplayer_go.Result.{ok, Txn, commit, keep, fail, check-commit, Result-cases}
use kplayer_go.Collection.{find, cut_first}
use kplayer_go.Collection.Laws.{All-put_first, All-cut_first, All-find}
use kplayer_go.Playlist.{resolve_playlist, resolve_media}
use kplayer_go.Tasks
use kplayer_go.Tasks.Integrity.Steps.{CommitsRefs}
use kplayer_go.Tasks.{
  TaskSpec, is_set, task_id, put_task, on_task, changed_task, validate_task_refs, overwritten,
  new_task, delete_media,
}
use kplayer_go.Tasks.Integrity.{
  has_media, has_playlist, GoodTask, HasRefs, resolve_playlist-has, resolve_media-has,
}

-- What the check of a task's references establishes.
validated_task :
    (d : Data) (t : ScheduleTask)
    → validate_task_refs d t ≡ ok tt
    → GoodTask (has_media d) (has_playlist d) t
unfolding validate_task_refs
validated_task d t h = record {
  playlist = λ s. elim (Result-cases (resolve_playlist d t.playlist_id)) [
    | inl (p, r) ↦ resolve_playlist-has d t.playlist_id p r
    | inr (x, r) ↦ absurd (ground (arith, s, r, h))
  ];
  media = λ s. elim (Result-cases (resolve_media d t.media_id)) [
    | inl (m, r) ↦ resolve_media-has d t.media_id m r
    | inr (x, r) ↦ absurd (ground (arith, s, r, h))
  ];
}

put_task-HasRefs :
    (id : String) (t : ScheduleTask) (d : Data)
    → HasRefs d
    → GoodTask (has_media d) (has_playlist d) t
    → HasRefs (put_task id t d)
put_task-HasRefs id t d h g = record {
  playlists = h.playlists;
  tasks = All-put_first (task_id id) _ t d.tasks h.tasks g;
}

on_task-HasRefs :
    {A : Type 0} (id : String) (d : Data) (k : ScheduleTask → Txn Data A)
    → ((t : ScheduleTask) → find (task_id id) d.tasks ≡ some t → CommitsRefs (k t))
    → CommitsRefs (on_task id d k)
on_task-HasRefs id d k g e a c = elim (Option-cases (find (task_id id) d.tasks)) [
  | inl n ↦ absurd (ground (arith, n, c))
  | inr (t, f) ↦ g t f e a (ground (arith, f, c))
]

pub create_task-HasRefs :
    (id : String) (now : ℕ) (spec : TaskSpec) (d : Data)
    → HasRefs d
    → CommitsRefs (Tasks.create id now spec d)
unfolding Tasks.create
create_task-HasRefs id now spec d h e a c =
    let (_, valid, c1) = check-commit (Tasks.validate_task_spec spec) _ c in
    let (_, refs, c2) = check-commit (validate_task_refs d (new_task id now spec)) _ c1 in
    let same : record d { tasks = d.tasks ++ new_task id now spec ∷ [] } ≡ e = cc in
    subst HasRefs same (record {
      playlists = h.playlists;
      tasks =
          All-append _ d.tasks (new_task id now spec ∷ []) h.tasks
            (validated_task d (new_task id now spec) refs, tt);
    })

pub replace-HasRefs :
    (id : String) (now : ℕ) (spec : TaskSpec) (d : Data)
    → HasRefs d
    → CommitsRefs (Tasks.replace id now spec d)
unfolding Tasks.replace
replace-HasRefs id now spec d h e a c =
    let (_, valid, c1) = check-commit (Tasks.validate_task_spec spec) _ c in
    on_task-HasRefs id d _
      (λ t f e' a' c'.
        let u = overwritten spec t in
        let (_, refs, c2) = check-commit (validate_task_refs (put_task id u d) u) _ c' in
        let g = validated_task (put_task id u d) u refs in
        let stamped : ScheduleTask = record u { updated_at = now } in
        let same : put_task id stamped d ≡ e' = cc in
        subst HasRefs same
          (put_task-HasRefs id stamped d h (record { playlist = g.playlist; media = g.media })))
      e a c1

pub set_enabled-HasRefs :
    (id : String) (now : ℕ) (enabled : Bool) (d : Data)
    → HasRefs d
    → CommitsRefs (Tasks.set_enabled id now enabled d)
unfolding Tasks.set_enabled
set_enabled-HasRefs id now enabled d h = on_task-HasRefs id d _ λ t f e a c.
    let u : ScheduleTask = record t { enabled = enabled; updated_at = now } in
    let g = All-find (task_id id) _ d.tasks t h.tasks f in
    let same : put_task id u d ≡ e = cc in
    subst HasRefs same
      (put_task-HasRefs id u d h (record { playlist = g.playlist; media = g.media }))

pub delete_task-HasRefs : (id : String) (d : Data) → HasRefs d → CommitsRefs (Tasks.delete id d)
unfolding Tasks.delete
delete_task-HasRefs id d h = on_task-HasRefs id d _ λ t f e a c.
    let same : record d { tasks = cut_first (task_id id) d.tasks } ≡ e = cc in
    subst HasRefs same
      (record { playlists = h.playlists; tasks = All-cut_first (task_id id) _ d.tasks h.tasks })

-- A callback that puts in no target that does not exist.
abbrev pub GoodTaskChange : Data → (ScheduleTask → Txn ScheduleTask (Unit {0})) → Type 0
GoodTaskChange d fn =
    (t u : ScheduleTask)
    → GoodTask (has_media d) (has_playlist d) t
    → fn t ≡ commit u tt
    → GoodTask (has_media d) (has_playlist d) u

changed_task-HasRefs :
    (id : String) (now : ℕ) (d : Data) (r : Txn ScheduleTask (Unit {0}))
    → HasRefs d
    → ((u : ScheduleTask) → r ≡ commit u tt → GoodTask (has_media d) (has_playlist d) u)
    → CommitsRefs (changed_task id now d r)
changed_task-HasRefs id now d (commit t u) h g e a c =
    let stamped : ScheduleTask = record t { updated_at = now } in
    let good = g t refl in
    let same : put_task id stamped d ≡ e = cc in
    subst HasRefs same
      (put_task-HasRefs id stamped d h (record { playlist = good.playlist; media = good.media }))
changed_task-HasRefs id now d (keep u) h g e a c = cc
changed_task-HasRefs id now d (fail x) h g e a c = cc

pub update_task-HasRefs :
    (id : String) (now : ℕ) (fn : ScheduleTask → Txn ScheduleTask (Unit {0})) (d : Data)
    → HasRefs d
    → GoodTaskChange d fn
    → CommitsRefs (Tasks.update id now fn d)
unfolding Tasks.update
update_task-HasRefs id now fn d h g = on_task-HasRefs id d _ λ t f.
    changed_task-HasRefs id now d (fn t) h
      λ u e. g t u (All-find (task_id id) _ d.tasks t h.tasks f) e
