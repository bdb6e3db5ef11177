-- ===== src/Tasks.antt =====
-- management/schedule.go: the scheduled tasks of the document, and `MediaService.Delete` of
-- management/media.go, which the tasks and the playlists hold back.
pub mod Specs
pub mod Integrity
use kplayer_go.Prelude.{
  ℕ, String, Bool, true, false, not, ◌&&◌, ◌||◌, Option, none, some, List, [], ◌∷◌, ◌++◌, str_eq,
  if◌then◌else◌,
}
use kplayer_go.Prelude.Lists.{any}
use kplayer_go.Prelude.Int.{ℤ, pos, leb_ℤ, ltb_ℤ}
use kplayer_go.Prelude.Text.{is_blank, codes}
use kplayer_go.Model.{
  Data, Media, Playlist, ScheduleTask, SceneTemplate, TaskType, TaskAction, Priority, Err,
  not_found, in_use, invalid,
}
use kplayer_go.Result.{Result, ok, err, ◌>>=◌, ◌>>◌, refuse, Txn, commit, keep, fail, check}
use kplayer_go.Collection.{find, put_first, cut_first, has_id}
use kplayer_go.Cron.{parse_cron}
use kplayer_go.Playlist.{media_id, or_not_found, resolve_media, resolve_playlist}

pub record TaskSpec : Type 0 where
  pub name : String
  pub type : TaskType
  pub interval : ℤ
  pub cron : String
  pub action : TaskAction
  pub playlist_id : String
  pub media_id : String
  pub scene_template_id : String
  pub loop : Bool
  pub priority : Priority
  pub interrupt : Bool
  pub interrupt_duration : ℤ
  pub enabled : Bool

abbrev pub task_id : String → ScheduleTask → Bool
task_id = has_id (λ t. t.id)

abbrev pub check_type : TaskType → ℤ → String → Result (Unit {0})
check_type TaskType.interval n cron = refuse (leb_ℤ n (pos 0)) invalid
check_type TaskType.cron n cron = do c ← parse_cron (codes cron); ok tt
check_type (TaskType.other _) n cron = err invalid

abbrev pub known_priority : Priority → Bool
known_priority (Priority.other _) = false
known_priority _ = true

abbrev pub known_action : TaskAction → Bool
known_action (TaskAction.other _) = false
known_action _ = true

abbrev pub is_stop : TaskAction → Bool
is_stop TaskAction.stop = true
is_stop _ = false

abbrev pub is_set : String → Bool
is_set s = not (str_eq s "")

-- The final switch: a stop action has no target, any other exactly one.
abbrev pub check_target : TaskAction → String → String → Result (Unit {0})
check_target action playlist media =
    if is_stop action then refuse (is_set playlist || is_set media) invalid else (do
      refuse (is_set playlist && is_set media) invalid
      refuse (not (is_set playlist) && not (is_set media)) invalid)

-- `validateTaskSpec`
unfoldable pub validate_task_spec : TaskSpec → Result (Unit {0})
validate_task_spec spec = do
  refuse (is_blank spec.name) invalid
  check_type spec.type spec.interval spec.cron
  refuse (not (known_priority spec.priority)) invalid
  refuse (ltb_ℤ spec.interrupt_duration (pos 0)) invalid
  refuse (not (known_action spec.action)) invalid
  check_target spec.action spec.playlist_id spec.media_id

-- `validateSceneTemplateRef` of scene_template.go
unfoldable pub validate_scene_template_ref : Data → String → Result (Unit {0})
validate_scene_template_ref d id = if str_eq id "" then ok tt else (do
  s ← or_not_found (find (has_id (λ (t : SceneTemplate). t.id) id) d.scene_templates)
  ok tt)

-- A reference that may be left empty.
abbrev pub check_ref {ℓ} : {A : Type ℓ} → String → Result A → Result (Unit {0})
check_ref id r = if is_set id then (do a ← r; ok tt) else ok tt

-- `validateTaskRefs`
unfoldable pub validate_task_refs : Data → ScheduleTask → Result (Unit {0})
unfolding resolve_playlist resolve_media validate_scene_template_ref
validate_task_refs d t = do
  check_ref t.playlist_id (resolve_playlist d t.playlist_id)
  check_ref t.media_id (resolve_media d t.media_id)
  validate_scene_template_ref d t.scene_template_id

-- `normalizePriority` of player.go
unfoldable pub normalize_priority : Priority → Priority
normalize_priority Priority.unset = Priority.normal
normalize_priority p = p

-- The task that `Create` builds.
unfoldable pub new_task : String → ℕ → TaskSpec → ScheduleTask
unfolding normalize_priority
new_task id now spec = record {
  id = id;
  name = spec.name;
  type = spec.type;
  interval = spec.interval;
  cron = spec.cron;
  action = spec.action;
  playlist_id = spec.playlist_id;
  media_id = spec.media_id;
  scene_template_id = spec.scene_template_id;
  loop = spec.loop;
  priority = normalize_priority spec.priority;
  interrupt = spec.interrupt;
  interrupt_duration = spec.interrupt_duration;
  enabled = spec.enabled;
  created_at = now;
  updated_at = now;
  last_run = none;
}

-- `Create`
unfoldable pub create : String → ℕ → TaskSpec → Data → Txn Data ScheduleTask
unfolding new_task
create id now spec d = check (validate_task_spec spec) λ _.
    check (validate_task_refs d (new_task id now spec))
      λ _. commit (record d { tasks = d.tasks ++ new_task id now spec ∷ [] }) (new_task id now spec)

abbrev pub put_task : String → ScheduleTask → Data → Data
put_task id t d = record d { tasks = put_first (task_id id) t d.tasks }

abbrev pub on_task {ℓ} : {A : Type ℓ} → String → Data → (ScheduleTask → Txn Data A) → Txn Data A
on_task id d k = elim (find (task_id id) d.tasks) [ none ↦ fail not_found | some t ↦ k t ]

-- The fields that `Replace` takes from the spec. The action is not among them.
unfoldable pub overwritten : TaskSpec → ScheduleTask → ScheduleTask
unfolding normalize_priority
overwritten spec t = record t {
  name = spec.name;
  type = spec.type;
  interval = spec.interval;
  cron = spec.cron;
  playlist_id = spec.playlist_id;
  media_id = spec.media_id;
  scene_template_id = spec.scene_template_id;
  loop = spec.loop;
  priority = normalize_priority spec.priority;
  interrupt = spec.interrupt;
  interrupt_duration = spec.interrupt_duration;
  enabled = spec.enabled;
}

-- `Replace`
unfoldable pub replace : String → ℕ → TaskSpec → Data → Txn Data ScheduleTask
unfolding overwritten
replace id now spec d = check (validate_task_spec spec) λ _. on_task id d λ t.
    let u = overwritten spec t in
    check (validate_task_refs (put_task id u d) u) λ _.
      let stamped : ScheduleTask = record u { updated_at = now } in
      commit (put_task id stamped d) stamped

-- `Update`
abbrev pub changed_task : String → ℕ → Data → Txn ScheduleTask (Unit {0}) → Txn Data (Unit {0})
changed_task id now d (commit t u) = commit (put_task id (record t { updated_at = now }) d) u
changed_task id now d (keep u) = keep u
changed_task id now d (fail e) = fail e

unfoldable pub update :
    String → ℕ → (ScheduleTask → Txn ScheduleTask (Unit {0})) → Data → Txn Data (Unit {0})
update id now fn d = on_task id d λ t. changed_task id now d (fn t)

-- `SetEnabled`, by `Update` with a callback that cannot fail
unfoldable pub set_enabled : String → ℕ → Bool → Data → Txn Data (Unit {0})
set_enabled id now enabled d =
    on_task id d λ t. commit (put_task id (record t { enabled = enabled; updated_at = now }) d) tt

-- `Delete`
unfoldable pub delete : String → Data → Txn Data (Unit {0})
delete id d = on_task id d λ t. commit (record d { tasks = cut_first (task_id id) d.tasks }) tt

-- `MediaService.Delete`
unfoldable pub delete_media : String → Data → Txn Data (Unit {0})
delete_media id d = elim (find (media_id id) d.media) [
  | none ↦ fail not_found
  | some m ↦
      if any (λ p. any (λ i. str_eq i id) p.items) d.playlists
      then fail in_use
      else if any (λ t. str_eq t.media_id id) d.tasks
      then fail in_use
      else commit (record d { media = cut_first (media_id id) d.media }) tt
]
