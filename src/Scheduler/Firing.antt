-- ===== src/Scheduler/Firing.antt =====
-- How management/scheduler.go fires the tasks: `fire`, `computeNext` and `tick`. A tick gets the
-- enabled tasks in the order in which the loop over the map of them meets them, which Go leaves
-- open. The write of a task's `LastRun`, whose outcome the code ignores, is taken to succeed.
use kplayer_go.Prelude.{
  ℕ, suc, String, false, ◌||◌, Option, none, some, List, [], ◌∷◌, ◌++◌, str_eq, if◌then◌else◌, leb,
  ◌==◌,
}
use kplayer_go.Prelude.Lists.{any, length}
use kplayer_go.Prelude.Int.{pos, leb_ℤ, seconds, time_add, is_zero_time, after}
use kplayer_go.Prelude.Text.{codes}
use kplayer_go.Model.{Data, ScheduleTask, TaskType}
use kplayer_go.Result.{ok, err}
use kplayer_go.Cron.{parse_cron}
use kplayer_go.Cron.Next.{Calendar, next}
use kplayer_go.Tasks.{normalize_priority, is_stop, task_id, put_task}
use kplayer_go.Collection.{find}
use kplayer_go.Scheduler.{
  Scheduler, PendingPlay, PlayRequest, ScheduleEntry, rank, start_play, report, cancel_playing,
  start_interrupt, interrupt_active, expire_interrupt, max_play_queue, no_player, cannot_stop,
  queue_full, stop_error,
}

-- `computeNext`
unfoldable pub compute_next : Calendar → ℕ → ScheduleTask → ℕ → ℕ
unfolding seconds time_add
compute_next cal clock t from = elim t.type [
  | TaskType.interval ↦ if leb_ℤ t.interval (pos 0) then 0 else time_add from (seconds t.interval)
  | TaskType.cron ↦ (elim (parse_cron (codes t.cron)) [ err e ↦ 0 | ok c ↦ next cal c clock from ])
  | TaskType.other name ↦ 0
]

-- The request of a fire, and the play that it allocates.
abbrev pub request_of : ScheduleTask → PlayRequest
request_of t = record {
  playlist_id = t.playlist_id;
  media_id = t.media_id;
  scene_template_id = t.scene_template_id;
  loop = t.loop;
  priority = normalize_priority t.priority;
}

abbrev pub play_of : ScheduleTask → ℕ → PendingPlay
play_of t ref = record {
  ref = ref;
  id = t.id;
  name = t.name;
  req = request_of t;
  priority = normalize_priority t.priority;
  context = 0;
  is_interrupt = false;
}

-- The stop action of `fire`
unfoldable pub fire_stop : ScheduleTask → Scheduler → Scheduler
fire_stop t s = elim s.player [
  | none ↦ report (no_player t.name) s
  | some p ↦ (elim p.stop [
    | none ↦ report (cannot_stop t.name) s
    | some (ok u) ↦ s
    | some (err e) ↦ report (stop_error t.name e) s
  ])
]

-- The switch of `fire` while `p` plays.
unfoldable pub fire_over : PendingPlay → PendingPlay → Scheduler → Scheduler
unfolding start_play
fire_over p pe s =
    if rank pe.priority == 2
    then (if leb 2 (rank p.priority) then s else start_play pe (cancel_playing s))
    else if rank pe.priority == 1
    then (if leb 1 (rank p.priority)
        then s
        else if leb max_play_queue (length s.queue)
        then report (queue_full pe.name) s
        else record s { queue = s.queue ++ pe ∷ [] })
    else s

-- The play of `fire`
unfoldable pub fire_play : ScheduleTask → ℕ → Scheduler → Scheduler
unfolding start_interrupt start_play fire_over
fire_play t now s =
    let pe = play_of t s.next_ref in
    let made = record s { next_ref = suc s.next_ref } in
    if t.interrupt
    then start_interrupt pe t.interrupt_duration now made
    else (elim s.playing [ none ↦ start_play pe made | some p ↦ fire_over p pe made ])

-- The update of `LastRun` through the store, which stamps the document.
unfoldable pub record_run : String → ℕ → Data → Data
record_run id now d = elim (find (task_id id) d.tasks) [
  | none ↦ record d { updated_at = now }
  | some t ↦ record (put_task id (record t { last_run = some now }) d) { updated_at = now }
]

-- `fire`
unfoldable pub fire : ScheduleTask → ℕ → Scheduler → Scheduler
unfolding record_run interrupt_active fire_stop fire_play
fire t now s =
    let ran = record s { store = record_run t.id now s.store } in
    if s.inflight t.id
    then s
    else if interrupt_active ran
    then ran
    else if is_stop t.action
    then fire_stop t ran
    else fire_play t now ran

-- The entry of a task that the tick goes by.
abbrev pub entry_for : Calendar → ℕ → ScheduleTask → ℕ → Option ScheduleEntry → ScheduleEntry
entry_for cal clock t now e =
    let made : ScheduleEntry = record {
      updated_at = t.updated_at;
      next = compute_next cal clock t now;
    } in
    elim e [ none ↦ made | some x ↦ if x.updated_at == t.updated_at then x else made ]

abbrev pub put_entry : String → ScheduleEntry → Scheduler → Scheduler
put_entry id e s = record s { sched = λ x. if str_eq x id then some e else s.sched x }

-- One round of the loop of `tick`
unfoldable pub tick_task : Calendar → ℕ → ℕ → ScheduleTask → Scheduler → Scheduler
unfolding fire
tick_task cal clock now t s =
    let e = entry_for cal clock t now (s.sched t.id) in
    let s' = put_entry t.id e s in
    if is_zero_time e.next || after e.next now
    then s'
    else put_entry t.id (record { updated_at = t.updated_at; next = compute_next cal clock t now })
        (fire t now s')

unfoldable pub tick_tasks : Calendar → ℕ → ℕ → List ScheduleTask → Scheduler → Scheduler
unfolding tick_task
tick_tasks cal clock now [] s = s
tick_tasks cal clock now (t ∷ ts) s = tick_tasks cal clock now ts (tick_task cal clock now t s)

-- `tick`: `clock` is what `time.Now()` would give.
unfoldable pub tick : Calendar → ℕ → ℕ → List ScheduleTask → Scheduler → Scheduler
unfolding expire_interrupt tick_tasks
tick cal clock now tasks s =
    let s' = expire_interrupt now s in
    tick_tasks cal clock now tasks
      (record s' { sched = λ id. if any (λ t. str_eq t.id id) tasks then s'.sched id else none })
