-- ===== src/Tests/Schedules.antt =====
-- Cron expressions and schedule tasks on concrete inputs.
use kplayer_go.Prelude.{
  ℕ, zero, suc, ◌+◌, ◌*◌, ◌/◌, ◌%◌, ◌≤◌, ◌<◌, ◌≡◌, ◌≢◌, refl, String, Bool, true, false, none, some,
  Option, List, [], ◌∷◌, ◌++◌, arith, ◌==◌, ◌||◌, str_eq, ◌⊎◌, ◌↔◌, if◌then◌else◌, inr,
}
use kplayer_go.Prelude.Int.{pos, int64_max, eq_ℤ}
use kplayer_go.Prelude.Lists.{any, length}
use kplayer_go.Prelude.Text.{codes, trim_space}
use kplayer_go.Model.{
  Data, invalid, plain, ScheduleTask, Playlist, PlayMode, TaskType, TaskAction, Priority,
  empty_data,
}
use kplayer_go.Result.{ok, err}
use kplayer_go.Collection.{find}
use kplayer_go.Cron
use kplayer_go.Cron.{CronField, Cron, allows, fill, fill_limit, parse_cron}
use kplayer_go.Cron.Scan
use kplayer_go.Cron.Scan.{fields}
use kplayer_go.Cron.Next.{Calendar, next, next_minute, minute_length, Found, next-earliest}
use kplayer_go.Cron.Bounds.{InBounds, HasWeekdays, parse_cron-InBounds}
use kplayer_go.Cron.Errors.{parse_cron-error}
use kplayer_go.Cron.Values.{stepped, fill_exact, fill_overflow}
use kplayer_go.Tasks
use kplayer_go.Tasks.{TaskSpec, task_id, validate_task_spec, validate_task_refs, new_task}
use kplayer_go.Tasks.Specs.{IsValidSpec, described, validate_task_spec_iff, create-valid}

abbrev field : CronField
field = record { min = 0; max = 59; values = []; star = false }

abbrev filled : CronField
filled = record field { values = fill fill_limit (pos 10) (pos 40) (pos 59) (pos 15) [] }

fill_exact_test : allows filled 25 ≡ (stepped 10 40 15 25 || allows field 25)
fill_exact_test =
    fill_exact 10 40 59 15 25 field (omega arith) (omega arith) (omega arith) (omega arith)

fill_overflow_example :
    any (eq_ℤ (pos 3)) (fill fill_limit (pos 5) (pos 20) (pos 59) (pos int64_max) []) ≡ true
fill_overflow_example =
    fill_overflow 5 20 59 [] (omega arith) (omega arith) (omega arith) (omega arith)

-- "61 * * * *"
abbrev bad_minute : List ℕ
bad_minute = codes "61 * * * *"

parse_cron-error_example :
    ((length (fields bad_minute) ≢ 5) × (parse_cron bad_minute ≡ err invalid))
    ⊎ ((length (fields bad_minute) ≡ 5)
        × ((parse_cron bad_minute ≡ err plain) ⊎ ((c : Cron) × (parse_cron bad_minute ≡ ok c))))
parse_cron-error_example = parse_cron-error bad_minute

abbrev one_value : ℕ → ℕ → ℕ → CronField
one_value min max v = record { min = min; max = max; values = pos v ∷ []; star = false }

-- "5 12 1 feb sun"
abbrev birthday : Cron
birthday = record {
  minute = one_value 0 59 5;
  hour = one_value 0 23 12;
  dom = one_value 1 31 1;
  month = one_value 1 12 2;
  dow = one_value 0 7 0;
}

parse_cron-InBounds_example :
    InBounds birthday × HasWeekdays (fields (codes "5 12 1 feb sun")) birthday
unfolding parse_cron Cron.parse_fields Cron.parse_field Cron.parse_parts Cron.parse_field_part
    Cron.parse_range Cron.parse_step Cron.parse_value Cron.counted Cron.fill fields Scan.split
    kplayer_go.Prelude.Text.trim_codes Scan.same_codes Scan.cut Scan.name_value Scan.atoi Scan.lower
parse_cron-InBounds_example = parse_cron-InBounds (codes "5 12 1 feb sun") birthday refl

-- A calendar of months with 30 days and of years with 12 of them.
abbrev calendar : Calendar
calendar = record {
  minute = λ t. t / minute_length % 60;
  hour = λ t. t / (60 * minute_length) % 24;
  day = λ t. t / (1440 * minute_length) % 30 + 1;
  month = λ t. t / (43200 * minute_length) % 12 + 1;
  weekday = λ t. t / (1440 * minute_length) % 7;
  five_years_after = λ t. t + 2592000 * minute_length;
}

abbrev any_value : CronField
any_value = record { min = 0; max = 59; values = pos 0 ∷ pos 1 ∷ []; star = true }

abbrev cron : Cron
cron = record {
  minute = any_value;
  hour = any_value;
  dom = any_value;
  month = any_value;
  dow = any_value;
}

next-earliest_example :
    let t = next_minute calendar cron 30000000000 in
    (30000000000 < t)
    × (t ≤ 30000000000 + minute_length)
    × Found calendar cron t (calendar.five_years_after t) (next calendar cron 7 30000000000)
next-earliest_example = next-earliest calendar cron 7 30000000000

abbrev spec : TaskSpec
spec = record {
  name = "news";
  type = TaskType.interval;
  interval = pos 60;
  cron = "";
  action = TaskAction.unset;
  playlist_id = "main";
  media_id = "";
  scene_template_id = "";
  loop = false;
  priority = Priority.important;
  interrupt = false;
  interrupt_duration = pos 0;
  enabled = true;
}

validate_task_spec_iff_example : (validate_task_spec spec ≡ ok tt) ↔ IsValidSpec spec
validate_task_spec_iff_example = validate_task_spec_iff spec

abbrev stop_spec : TaskSpec
stop_spec = record spec { action = TaskAction.stop; playlist_id = "" }

abbrev playlist : Playlist
playlist = record {
  id = "main";
  name = "main";
  desc = "";
  fallback_playlist_id = "";
  items = [];
  mode = PlayMode.unset;
  loop = true;
  created_at = 1;
  updated_at = 1;
}

abbrev task : ScheduleTask
task = record {
  id = "t1";
  name = "news";
  type = TaskType.interval;
  interval = pos 60;
  cron = "";
  action = TaskAction.unset;
  playlist_id = "main";
  media_id = "";
  scene_template_id = "";
  loop = false;
  priority = Priority.important;
  interrupt = false;
  interrupt_duration = pos 0;
  enabled = true;
  created_at = 4;
  updated_at = 4;
  last_run = none;
}

abbrev before_task : Data
before_task = record empty_data { playlists = playlist ∷ [] }

abbrev with_task : Data
with_task = record before_task { tasks = task ∷ [] }

create-valid_test :
    IsValidSpec (described task)
    × (task.id ≡ "t1")
    × (with_task.tasks ≡ [] ++ task ∷ [])
    × (validate_task_refs before_task task ≡ ok tt)
unfolding Tasks.create validate_task_spec new_task validate_task_refs find trim_space
create-valid_test = create-valid "t1" 4 spec before_task with_task task refl
