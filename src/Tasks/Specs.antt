-- ===== src/Tasks/Specs.antt =====
-- What `validateTaskSpec` of management/schedule.go accepts, and what `Create` and `Replace` make
-- of a spec.
use kplayer_go.Prelude.{
  ℕ, ◌≡◌, ◌≢◌, refl, String, true, false, [], ◌∷◌, arith, eq_iff, ◌⊎◌, ◌↔◌, ◌++◌,
}
use kplayer_go.Prelude.Int.{ℤ, pos, ◌≤ℤ◌}
use kplayer_go.Prelude.Text.{is_blank, codes}
use kplayer_go.Model.{Data, ScheduleTask, TaskType, TaskAction}
use kplayer_go.Result.{ok, commit, is_ok, check-commit}
use kplayer_go.Cron.{parse_cron}
use kplayer_go.Tasks.{
  TaskSpec, check_type, check_target, known_priority, known_action, validate_task_spec,
  validate_task_refs, create, new_task,
}

-- A schedule that can be computed.
abbrev pub HasSchedule : TaskType → ℤ → String → Type 0
HasSchedule TaskType.interval n cron = pos 1 ≤ℤ n
HasSchedule TaskType.cron n cron = is_ok (parse_cron (codes cron)) ≡ true
HasSchedule (TaskType.other _) n cron = ⊥

-- A stop action without a target, or any other action with exactly one.
abbrev pub HasTarget : TaskAction → String → String → Type 0
HasTarget action playlist media =
    ((action ≡ TaskAction.stop) × (playlist ≡ "") × (media ≡ ""))
    ⊎ ((action ≢ TaskAction.stop) × (playlist ≡ "") × (media ≢ ""))
    ⊎ ((action ≢ TaskAction.stop) × (playlist ≢ "") × (media ≡ ""))

-- What a valid task is, apart from its references.
pub record IsValidSpec (spec : TaskSpec) : Type 0 where
  pub named : is_blank spec.name ≡ false
  pub scheduled : HasSchedule spec.type spec.interval spec.cron
  pub ranked : known_priority spec.priority ≡ true
  pub lasting : pos 0 ≤ℤ spec.interrupt_duration
  pub acting : known_action spec.action ≡ true
  pub aimed : HasTarget spec.action spec.playlist_id spec.media_id

check_type-HasSchedule :
    (ty : TaskType) (n : ℤ) (cron : String) → (check_type ty n cron ≡ ok tt) ↔ HasSchedule ty n cron
check_type-HasSchedule TaskType.interval n cron = (λ h. ground arith, λ h. ground arith)
check_type-HasSchedule TaskType.cron n cron = (λ h. ground arith, λ h. ground arith)
check_type-HasSchedule (TaskType.other s) n cron = (λ h. cc, λ h. elim h [ ])

check_target-HasTarget :
    (action : TaskAction) (playlist media : String)
    → (check_target action playlist media ≡ ok tt) ↔ HasTarget action playlist media
check_target-HasTarget action playlist media = (
  λ h. ground (arith, eq_iff playlist "", eq_iff media "", h),
  λ h. ground (arith, eq_iff playlist "", eq_iff media "", h),
)

-- `validateTaskSpec` accepts exactly the specs with a name, a positive interval or a cron
-- expression that parses, known priority and action, a duration that is not negative, and a
-- target where and only where the action needs one.
pub validate_task_spec_iff :
    (spec : TaskSpec) → (validate_task_spec spec ≡ ok tt) ↔ IsValidSpec spec
unfolding validate_task_spec
validate_task_spec_iff spec = (
  λ h. record {
    named = ground (arith, h);
    scheduled = (check_type-HasSchedule spec.type spec.interval spec.cron).0 (ground (arith, h));
    ranked = ground (arith, h);
    lasting = ground (arith, h);
    acting = ground (arith, h);
    aimed =
        (check_target-HasTarget spec.action spec.playlist_id spec.media_id).0 (ground (arith, h));
  },
  λ v. ground (
    arith,
    v.named,
    v.ranked,
    v.lasting,
    v.acting,
    (check_type-HasSchedule spec.type spec.interval spec.cron).1 v.scheduled,
    (check_target-HasTarget spec.action spec.playlist_id spec.media_id).1 v.aimed,
  ),
)

-- The spec that would describe a task.
abbrev pub described : ScheduleTask → TaskSpec
described t = record {
  name = t.name;
  type = t.type;
  interval = t.interval;
  cron = t.cron;
  action = t.action;
  playlist_id = t.playlist_id;
  media_id = t.media_id;
  scene_template_id = t.scene_template_id;
  loop = t.loop;
  priority = t.priority;
  interrupt = t.interrupt;
  interrupt_duration = t.interrupt_duration;
  enabled = t.enabled;
}

new_task-IsValidSpec :
    (id : String) (now : ℕ) (spec : TaskSpec)
    → IsValidSpec spec
    → IsValidSpec (described (new_task id now spec))
unfolding new_task
new_task-IsValidSpec id now spec v = record {
  named = v.named;
  scheduled = v.scheduled;
  ranked = ground (arith, v.ranked);
  lasting = v.lasting;
  acting = v.acting;
  aimed = v.aimed;
}

-- A task that `Create` adds is valid, has the id and the target of the call, and stands at the end.
pub create-valid :
    (id : String) (now : ℕ) (spec : TaskSpec) (d e : Data) (t : ScheduleTask)
    → create id now spec d ≡ commit e t
    → IsValidSpec (described t)
      × (t.id ≡ id)
      × (e.tasks ≡ d.tasks ++ t ∷ [])
      × (validate_task_refs d t ≡ ok tt)
unfolding create
create-valid id now spec d e t h =
    let (_, valid, h1) = check-commit (validate_task_spec spec) _ h in
    let (_, refs, h2) = check-commit (validate_task_refs d (new_task id now spec)) _ h1 in
    let same : new_task id now spec ≡ t = cc in
    let v = (validate_task_spec_iff spec).0 valid in
    rw (← same) (new_task-IsValidSpec id now spec v, refl, ground (arith, h2), refs)
