-- ===== src/CacheTasks/Completion.antt =====
-- When a task of management/cache_task.go has a time of completion.
use kplayer_go.Prelude.{
  ℕ, ◌≡◌, refl, Bool, true, false, String, Option, none, some, List, [], ◌∷◌, arith, Option-cases,
  inl, inr,
}
use mathlib.Core.Path.{subst}
use kplayer_go.Prelude.Lists.{All, All-append}
use kplayer_go.Model.{Data, CacheTask}
use kplayer_go.Result.{ok, Txn, commit, keep, fail, outcome, outcome-check}
use kplayer_go.Collection.{find, has_id}
use kplayer_go.Collection.Laws.{All-put_first}
use kplayer_go.Catalog.{change, remove}
use kplayer_go.Catalog.Members.{change-All, remove-All}
use kplayer_go.Playlist.{resolve_media}
use kplayer_go.CacheTasks.{
  CacheTaskSpec, is_terminal, known_status, validate_spec, trimmed, sync_completed_at, id_of,
  in_tasks, new_task, create, configured, update, delete, stamped, transition, mark_running,
  mark_done, mark_failed,
}

abbrev pub is_set : Option ℕ → Bool
is_set none = false
is_set (some t) = true

-- A task has a known status, and a time of completion exactly if it is over.
abbrev pub IsTask : CacheTask → Type 0
IsTask t = (known_status t.status ≡ true) × (is_set t.completed_at ≡ is_terminal t.status)

-- The calls that change tasks.
pub data Call : Type 0 where
  creating updating : String → ℕ → CacheTaskSpec → Call
  marking_running marking_done : String → ℕ → Call
  marking_failed : String → ℕ → String → Call
  deleting : String → Call

pub after_call : Call → Data → Data
after_call (creating id now spec) d = outcome d (create id now spec d)
after_call (updating id now spec) d = outcome d (update id now spec d)
after_call (marking_running id now) d = outcome d (mark_running id now d)
after_call (marking_done id now) d = outcome d (mark_done id now d)
after_call (marking_failed id now note) d = outcome d (mark_failed id now note d)
after_call (deleting id) d = outcome d (delete id d)

abbrev AreTasks : Data → Type 0
AreTasks d = All IsTask d.cache_tasks

tasks_changed {ℓ} :
    {A : Type ℓ} (d : Data) (t : Txn (List CacheTask) A)
    → All IsTask (outcome d.cache_tasks t)
    → AreTasks (outcome d (in_tasks d t))
tasks_changed d (commit ts a) h = h
tasks_changed d (keep a) h = h
tasks_changed d (fail e) h = h

spec-known :
    (s : CacheTaskSpec) (u : Unit {0}) → validate_spec s ≡ ok u → known_status s.status ≡ true
unfolding validate_spec
spec-known s u h = ground (arith, h)

sync-is_set :
    (now : ℕ) (t : CacheTask) → is_set (sync_completed_at now t).completed_at ≡ is_terminal t.status
sync-is_set now t = ground arith

create-AreTasks :
    (id : String) (now : ℕ) (spec : CacheTaskSpec) (d : Data)
    → AreTasks d
    → AreTasks (outcome d (create id now spec d))
unfolding create
create-AreTasks id now spec d h =
    let s = trimmed spec in
    outcome-check AreTasks d (validate_spec s) _ h λ u e.
      outcome-check AreTasks d (resolve_media d s.media_id) _ h λ m _.
        All-append IsTask d.cache_tasks (sync_completed_at now (new_task id now s) ∷ []) h
          ((spec-known s u e, sync-is_set now (new_task id now s)), tt)

update-AreTasks :
    (id : String) (now : ℕ) (spec : CacheTaskSpec) (d : Data)
    → AreTasks d
    → AreTasks (outcome d (update id now spec d))
unfolding update
update-AreTasks id now spec d h =
    let s = trimmed spec in
    outcome-check AreTasks d (validate_spec s) _ h λ u e.
      elim (Option-cases (find (has_id id_of id) d.cache_tasks)) [
        | inl gone ↦ rw gone h
        | inr (t, f) ↦ rw f (
            outcome-check AreTasks d (resolve_media d s.media_id) _ h λ m _.
              All-put_first (has_id id_of id) IsTask (configured s now t) d.cache_tasks h (
                spec-known s u e,
                sync-is_set now
                    (record t { media_id = s.media_id; note = s.note; status = s.status }),
              ))
      ]

transition-AreTasks :
    (id : String) (now : ℕ) (fn : CacheTask → CacheTask) (d : Data)
    → ((t : CacheTask) → IsTask (fn t))
    → AreTasks d
    → AreTasks (outcome d (transition id now fn d))
unfolding transition
transition-AreTasks id now fn d good h =
    let step = λ (t : CacheTask). commit (fn t) (stamped now (fn t)) in
    tasks_changed d (change id_of id (stamped now) step d.cache_tasks) (
      change-All id_of IsTask id (stamped now) step d.cache_tasks
        (λ t u b e _.
          let same : fn t ≡ u = ground (arith, e) in
          subst (λ x. IsTask (stamped now x)) same (good t))
        h)

-- Whatever is called, with whichever outcome, every cache task has a known status afterwards, and
-- a time of completion exactly if it is done or failed, if all of them were so before.
pub after_cache_call-IsTask :
    (k : Call) (d : Data) → All IsTask d.cache_tasks → All IsTask (after_call k d).cache_tasks
unfolding after_call mark_running mark_done mark_failed delete
after_cache_call-IsTask (creating id now spec) d h = create-AreTasks id now spec d h
after_cache_call-IsTask (updating id now spec) d h = update-AreTasks id now spec d h
after_cache_call-IsTask (marking_running id now) d h =
    transition-AreTasks id now _ d (λ t. (refl, refl)) h
after_cache_call-IsTask (marking_done id now) d h =
    transition-AreTasks id now _ d (λ t. (refl, refl)) h
after_cache_call-IsTask (marking_failed id now note) d h =
    transition-AreTasks id now _ d (λ t. (refl, refl)) h
after_cache_call-IsTask (deleting id) d h =
    tasks_changed d (remove id_of id d.cache_tasks) (remove-All id_of IsTask id d.cache_tasks h)
