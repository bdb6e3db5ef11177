-- ===== src/Alarm.antt =====
-- management/alarm.go: `AlarmService`, each operation as the callback of `Store.Update` that it
-- runs. `now` is what `time.Now()` would give.
pub mod Counts
use kplayer_go.Prelude.{
  ℕ, zero, suc, ◌+◌, ◌-◌, ◌≡◌, String, Bool, true, false, not, ◌&&◌, Option, none, some, List, [],
  ◌∷◌, ◌++◌, map, str_eq, if◌then◌else◌, ◌==◌,
}
use kplayer_go.Prelude.Lists.{any, select, count}
use kplayer_go.Prelude.Int.{wrap64, ℤ, pos, negsuc, time_add, before}
use kplayer_go.Prelude.Text.{is_blank}
use kplayer_go.Model.{Alarm, AlarmLevel, AlarmStatus, Data, Err}
use kplayer_go.Result.{Txn, commit, keep, fail}
use kplayer_go.Collection.{find, put_first, cut_first, has_id}

abbrev pub is_active : Alarm → Bool
is_active a = elim a.status [
  | AlarmStatus.active ↦ true
  | AlarmStatus.resolved ↦ false
  | AlarmStatus.other s ↦ false
]

abbrev pub is_resolved : Alarm → Bool
is_resolved a = elim a.status [
  | AlarmStatus.active ↦ false
  | AlarmStatus.resolved ↦ true
  | AlarmStatus.other s ↦ false
]

abbrev pub same_level : AlarmLevel → AlarmLevel → Bool
same_level AlarmLevel.unset AlarmLevel.unset = true
same_level AlarmLevel.info AlarmLevel.info = true
same_level AlarmLevel.warning AlarmLevel.warning = true
same_level AlarmLevel.critical AlarmLevel.critical = true
same_level (AlarmLevel.other x) (AlarmLevel.other y) = str_eq x y
same_level _ _ = false

abbrev pub default_level : AlarmLevel → AlarmLevel
default_level AlarmLevel.unset = AlarmLevel.info
default_level l = l

-- `validateAlarmLevel`
abbrev pub known_level : AlarmLevel → Bool
known_level AlarmLevel.info = true
known_level AlarmLevel.warning = true
known_level AlarmLevel.critical = true
known_level _ = false

abbrev pub alarm_id : String → Alarm → Bool
alarm_id = has_id (λ a. a.id)

abbrev pub is_same : AlarmLevel → String → String → Alarm → Bool
is_same level title message a =
    is_active a && same_level a.level level && str_eq a.title title && str_eq a.message message

abbrev pub new_alarm : String → ℕ → AlarmLevel → String → String → Alarm
new_alarm id now level title message = record {
  id = id;
  level = level;
  title = title;
  message = message;
  status = AlarmStatus.active;
  created_at = now;
  updated_at = now;
  resolved_at = none;
}

-- `Raise`
unfoldable pub raise : String → ℕ → AlarmLevel → String → String → Data → Txn Data Alarm
raise id now level title message d =
    let l = default_level level in
    let a = new_alarm id now l title message in
    if is_blank title
    then fail Err.invalid
    else if not (known_level l)
    then fail Err.invalid
    else (elim (find (is_same l title message) d.alarms) [
      | some x ↦ keep x
      | none ↦ commit (record d { alarms = d.alarms ++ a ∷ [] }) a
    ])

abbrev pub closed : ℕ → Alarm → Alarm
closed now a = record a { resolved_at = some now; status = AlarmStatus.resolved; updated_at = now }

-- `Resolve`
unfoldable pub resolve : String → ℕ → Data → Txn Data Alarm
resolve id now d = elim (find (alarm_id id) d.alarms) [
  | none ↦ fail Err.not_found
  | some a ↦
      if is_active a
      then commit (record d { alarms = put_first (alarm_id id) (closed now a) d.alarms })
          (closed now a)
      else keep a
]

-- The loop of `ResolveAll`, which changes the alarms in place.
abbrev pub close_active : ℕ → List Alarm → List Alarm
close_active now [] = []
close_active now (a ∷ others) = (if is_active a then closed now a else a) ∷ close_active now others

-- `ResolveAll`
unfoldable pub resolve_all : ℕ → Data → Txn Data ℕ
resolve_all now d =
    let n = count is_active d.alarms in
    if n == 0 then keep 0 else commit (record d { alarms = close_active now d.alarms }) n

-- `Delete`
unfoldable pub delete : String → Data → Txn Data (Unit {0})
delete id d = elim (find (alarm_id id) d.alarms) [
  | none ↦ fail Err.not_found
  | some a ↦ commit (record d { alarms = cut_first (alarm_id id) d.alarms }) tt
]

-- `-olderThan`
abbrev pub neg_ℤ : ℤ → ℤ
neg_ℤ (pos zero) = pos 0
neg_ℤ (pos (suc n)) = negsuc n
neg_ℤ (negsuc n) = pos (suc n)

abbrev pub expired : ℕ → Alarm → Bool
expired cutoff a = is_resolved a && (elim a.resolved_at [ none ↦ false | some t ↦ before t cutoff ])

-- `Prune`
unfoldable pub prune : ℕ → ℤ → Data → Txn Data ℕ
unfolding time_add
prune now older_than d =
    let cutoff = time_add now (wrap64 (neg_ℤ older_than)) in
    let removed = count (expired cutoff) d.alarms in
    if removed == 0
    then keep 0
    else commit (record d { alarms = select (λ a. not (expired cutoff a)) d.alarms }) removed
