-- ===== src/Scheduler/Sound/Fires.antt =====
-- The fires and ticks of management/scheduler.go keep the invariant of the playback state.
use kplayer_go.Prelude.{
  ℕ, suc, ◌≡◌, refl, false, not, ◌&&◌, ◌||◌, none, some, List, [], ◌∷◌, ◌++◌, arith, str_eq,
  if◌then◌else◌, leb, ◌==◌, Bool-cases, Option-cases, inl, inr,
}
use mathlib.Core.Path.{subst}
use kplayer_go.Prelude.Lists.{any, length, length-append, All-append}
use kplayer_go.Prelude.Int.{is_zero_time, after}
use kplayer_go.Tasks.{is_stop}
use kplayer_go.Model.{ScheduleTask}
use kplayer_go.Cron.Next.{Calendar}
use kplayer_go.Scheduler.{
  Scheduler, PendingPlay, rank, start_play, cancel_playing, start_interrupt, interrupt_active,
  expire_interrupt, max_play_queue,
}
use kplayer_go.Scheduler.Firing.{
  entry_for, put_entry, record_run, fire, fire_stop, fire_over, fire_play, tick_task, tick_tasks,
  tick, play_of,
}
use kplayer_go.Scheduler.Sound.{
  IsQueued, SoundQueue, IsSound, SoundQueue-keep, start_play-queue, start_play-busy,
  start_play-IsSound, start_interrupt-IsSound, expire_interrupt-IsSound,
}

fire_stop-IsSound : (t : ScheduleTask) (s : Scheduler) → IsSound s → IsSound (fire_stop t s)
unfolding fire_stop
fire_stop-IsSound t s h = SoundQueue-keep (ground arith) (λ e. ground (arith, e)) h

fire_over-IsSound :
    (p pe : PendingPlay) (s : Scheduler)
    → IsSound s
    → s.playing ≡ some p
    → pe.is_interrupt ≡ false
    → IsSound (fire_over p pe s)
unfolding fire_over
fire_over-IsSound p pe s h playing plain = elim (Bool-cases (rank pe.priority == 2)) [
  | inl c ↦
      SoundQueue-keep (ground (arith, c, start_play-queue pe (cancel_playing s)))
        (λ e. ground (arith, c, e, start_play-busy pe (cancel_playing s))) h
  | inr c ↦
      elim (Bool-cases (
        rank pe.priority == 1
        && not (leb 1 (rank p.priority))
        && not (leb max_play_queue (length s.queue)))) [
          | inl i ↦
              let added : s.queue ++ pe ∷ [] ≡ (fire_over p pe s).queue = ground (arith, c, i) in
              subst (λ q. SoundQueue q (fire_over p pe s).playing) added
                (record {
                  bounded = ground (arith, i, length-append s.queue (pe ∷ []));
                  queued =
                      All-append IsQueued s.queue (pe ∷ []) h.queued
                        (record { important = ground (arith, i); plain = plain }, tt);
                  waiting = λ e. ground (arith, c, i, e, playing);
                })
          | inr i ↦ SoundQueue-keep (ground (arith, c, i)) (λ e. ground (arith, c, i, e)) h
        ]
]

fire_play-IsSound :
    (t : ScheduleTask) (now : ℕ) (s : Scheduler) → IsSound s → IsSound (fire_play t now s)
unfolding fire_play
fire_play-IsSound t now s h =
    let pe = play_of t s.next_ref in
    let made : Scheduler = record s { next_ref = suc s.next_ref } in
    elim (Bool-cases t.interrupt) [
      | inl i ↦
          let same : start_interrupt pe t.interrupt_duration now made ≡ fire_play t now s =
            ground (arith, i) in
          subst IsSound same (start_interrupt-IsSound pe t.interrupt_duration now made h)
      | inr i ↦ elim (Option-cases s.playing) [
        | inl n ↦
            let same : start_play pe made ≡ fire_play t now s = ground (arith, i, n) in
            subst IsSound same (start_play-IsSound pe made h)
        | inr (p, e) ↦
            let same : fire_over p pe made ≡ fire_play t now s = ground (arith, i, e) in
            subst IsSound same (fire_over-IsSound p pe made h e refl)
      ]
    ]

fire-IsSound : (t : ScheduleTask) (now : ℕ) (s : Scheduler) → IsSound s → IsSound (fire t now s)
unfolding fire
fire-IsSound t now s h =
    let ran : Scheduler = record s { store = record_run t.id now s.store } in
    elim (Bool-cases (s.inflight t.id || interrupt_active ran)) [
      | inl e ↦ SoundQueue-keep (ground (arith, e)) (λ n. ground (arith, e, n)) h
      | inr e ↦ elim (Bool-cases (is_stop t.action)) [
        | inl a ↦
            let same : fire_stop t ran ≡ fire t now s = ground (arith, e, a) in
            subst IsSound same (fire_stop-IsSound t ran h)
        | inr a ↦
            let same : fire_play t now ran ≡ fire t now s = ground (arith, e, a) in
            subst IsSound same (fire_play-IsSound t now ran h)
      ]
    ]

tick_task-IsSound :
    (cal : Calendar) (clock now : ℕ) (t : ScheduleTask) (s : Scheduler)
    → IsSound s
    → IsSound (tick_task cal clock now t s)
unfolding tick_task
tick_task-IsSound cal clock now t s h =
    let e = entry_for cal clock t now (s.sched t.id) in
    let s' = put_entry t.id e s in
    elim (Bool-cases (is_zero_time e.next || after e.next now)) [
      | inl z ↦ SoundQueue-keep (ground (arith, z)) (λ n. ground (arith, z, n)) h
      | inr z ↦
          SoundQueue-keep {q = (fire t now s').queue} {p = (fire t now s').playing}
            (ground (arith, z)) (λ n. ground (arith, z, n)) (fire-IsSound t now s' h)
    ]

tick_tasks-IsSound :
    (cal : Calendar) (clock now : ℕ) (ts : List ScheduleTask) (s : Scheduler)
    → IsSound s
    → IsSound (tick_tasks cal clock now ts s)
unfolding tick_tasks
tick_tasks-IsSound cal clock now [] s h = h
tick_tasks-IsSound cal clock now (t ∷ ts) s h =
    tick_tasks-IsSound cal clock now ts (tick_task cal clock now t s)
      (tick_task-IsSound cal clock now t s h)

pub tick-IsSound :
    (cal : Calendar) (clock now : ℕ) (ts : List ScheduleTask) (s : Scheduler)
    → IsSound s
    → IsSound (tick cal clock now ts s)
unfolding tick
tick-IsSound cal clock now ts s h =
    let s' = expire_interrupt now s in
    tick_tasks-IsSound cal clock now ts
      (record s' { sched = λ id. if any (λ t. str_eq t.id id) ts then s'.sched id else none })
      (expire_interrupt-IsSound now s h)
