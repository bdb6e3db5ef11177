-- ===== src/Tests/Alarms.antt =====
-- Alarms of management/alarm.go on a concrete document.
use kplayer_go.Prelude.{ℕ, ◌+◌, ◌≡◌, refl, false, none, [], ◌∷◌}
use kplayer_go.Prelude.Lists.{any, count, length}
use kplayer_go.Prelude.Int.{wrap64, pos, time_add}
use kplayer_go.Model.{Alarm, AlarmLevel, AlarmStatus, Data, empty_data}
use kplayer_go.Result.{commit}
use kplayer_go.Alarm.{is_active, closed, expired, neg_ℤ, prune, resolve_all}
use kplayer_go.Alarm.Counts.{prune-removes, prune-zero, resolve_all-closes}

abbrev open_alarm : Alarm
open_alarm = record {
  id = "a1";
  level = AlarmLevel.warning;
  title = "disk";
  message = "full";
  status = AlarmStatus.active;
  created_at = 1;
  updated_at = 1;
  resolved_at = none;
}

-- One alarm is open, another was resolved at 4.
abbrev before_call : Data
before_call = record empty_data { alarms = open_alarm ∷ closed 4 open_alarm ∷ [] }

abbrev after_resolving : Data
after_resolving = record empty_data { alarms = closed 9 open_alarm ∷ closed 4 open_alarm ∷ [] }

resolve_all-closes_test :
    (count is_active after_resolving.alarms ≡ 0)
    × (length after_resolving.alarms ≡ length before_call.alarms)
    × (1 ≡ count is_active before_call.alarms)
unfolding resolve_all
resolve_all-closes_test = resolve_all-closes 9 1 before_call after_resolving refl

abbrev after_pruning : Data
after_pruning = record empty_data { alarms = open_alarm ∷ [] }

prune-removes_test :
    (any (expired (time_add 9 (wrap64 (neg_ℤ (pos 2))))) after_pruning.alarms ≡ false)
    × (count is_active after_pruning.alarms ≡ count is_active before_call.alarms)
    × (1 + length after_pruning.alarms ≡ length before_call.alarms)
unfolding prune time_add
prune-removes_test = prune-removes 9 1 (pos 2) before_call after_pruning refl

prune-zero_test :
    (e : Data) × (n : ℕ) × (prune 9 (pos 0) before_call ≡ commit e n)
    × (any (expired 9) e.alarms ≡ false)
prune-zero_test = prune-zero 9 before_call refl
