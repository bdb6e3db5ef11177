-- ===== src/Scheduler/Sound.antt =====
-- The invariant of the playback state of management/scheduler.go, over any run of events.
pub mod Fires
use kplayer_go.Prelude.{
  ℕ, suc, ◌≤◌, ◌≡◌, refl, true, false, not, ◌&&◌, ◌||◌, Option, none, some, List, [], ◌∷◌, ◌++◌,
  arith, str_eq, if◌then◌else◌, leb, ◌==◌, sym, ◌∙◌, Bool-cases, Option-cases, inl, inr,
}
use mathlib.Core.Path.{subst}
use kplayer_go.Prelude.Lists.{any, length, length-append, All, All-append}
use kplayer_go.Prelude.Int.{ℤ, pos, ltb_ℤ, seconds, time_add, is_zero_time, after}
use kplayer_go.Tasks.{is_stop}
use kplayer_go.Model.{HealthPolicy, ScheduleTask}
use kplayer_go.Cron.Next.{Calendar}
use kplayer_go.Scheduler.{
  Scheduler, PendingPlay, Player, Dispatched, rank, start_play, cancel_playing, start_interrupt,
  interrupt_active, expire_interrupt, max_play_queue, drain_queue, drain, restore, play_ended,
  handle_play_error, is_current, free_slot,
}
use kplayer_go.Scheduler.Firing.{
  entry_for, put_entry, record_run, fire, fire_stop, fire_over, fire_play, tick_task, tick_tasks,
  tick, play_of,
}

-- Only important plays that do not interrupt are ever queued.
pub record IsQueued (p : PendingPlay) : Type 0 where
  pub important : rank p.priority ≡ 1
  pub plain : p.is_interrupt ≡ false

-- The queue is bounded, holds important plays only, and is empty when nothing plays.
pub record SoundQueue (queue : List PendingPlay) (playing : Option PendingPlay) : Type 0 where
  pub bounded : length queue ≤ max_play_queue
  pub queued : All IsQueued queue
  pub waiting : playing ≡ none → queue ≡ []

abbrev pub IsSound : Scheduler → Type 0
IsSound s = SoundQueue s.queue s.playing

-- The same queue, and something plays if something played.
pub SoundQueue-keep :
    {q q' : List PendingPlay} {p p' : Option PendingPlay}
    → q ≡ q'
    → (p' ≡ none → p ≡ none)
    → SoundQueue q p
    → SoundQueue q' p'
SoundQueue-keep e busy h = record {
  bounded = ground (arith, e, h.bounded);
  queued = subst (All IsQueued) e h.queued;
  waiting = λ n. sym e ∙ h.waiting (busy n);
}

pub start_play-queue : (pe : PendingPlay) (s : Scheduler) → s.queue ≡ (start_play pe s).queue
unfolding start_play
start_play-queue pe s = ground arith

pub start_play-busy :
    (pe : PendingPlay) (s : Scheduler) → (start_play pe s).playing ≡ none → s.playing ≡ none
unfolding start_play
start_play-busy pe s h = ground (arith, h)

pub start_play-IsSound : (pe : PendingPlay) (s : Scheduler) → IsSound s → IsSound (start_play pe s)
start_play-IsSound pe s h = SoundQueue-keep (start_play-queue pe s) (start_play-busy pe s) h

pub cancel_playing-IsSound : (s : Scheduler) → IsSound s → IsSound (cancel_playing s)
cancel_playing-IsSound s h = SoundQueue-keep (ground arith) (λ e. ground (arith, e)) h

drain_queue-IsSound :
    (q : List PendingPlay) (s : Scheduler)
    → length q ≤ max_play_queue
    → All IsQueued q
    → IsSound (drain_queue q s)
unfolding drain_queue
drain_queue-IsSound [] s b h = record { bounded = omega arith; queued = tt; waiting = λ e. refl }
drain_queue-IsSound (pe ∷ rest) s b h = elim (Option-cases s.playing) [
  | inl n ↦
      let s' = start_play pe (record s { queue = rest }) in
      let next : drain_queue rest s' ≡ drain_queue (pe ∷ rest) s = ground (arith, n) in
      subst IsSound next (drain_queue-IsSound rest s' (omega (arith, b)) h.1)
  | inr (p, e) ↦
      let kept : pe ∷ rest ≡ (drain_queue (pe ∷ rest) s).queue = ground (arith, e) in
      let busy : some p ≡ (drain_queue (pe ∷ rest) s).playing = ground (arith, e) in
      let waits : some p ≡ none → pe ∷ rest ≡ [] = λ n. ground (arith, n) in
      subst (λ (x : List PendingPlay). SoundQueue x (drain_queue (pe ∷ rest) s).playing) kept
        (subst (SoundQueue (pe ∷ rest)) busy (record { bounded = b; queued = h; waiting = waits }))
]

drain-IsSound :
    (s : Scheduler) (q : List PendingPlay)
    → q ≡ s.queue
    → length q ≤ max_play_queue
    → All IsQueued q
    → IsSound (drain s)
unfolding drain
drain-IsSound s q e b h =
    drain_queue-IsSound s.queue s (ground (arith, e, b)) (subst (All IsQueued) e h)

pub restore-queue : (s : Scheduler) → s.queue ≡ (restore s).queue
restore-queue s = elim (Option-cases s.resume) [
  | inl n ↦ ground (arith, n)
  | inr (r, e) ↦ ground (arith, e, start_play-queue r (record s { resume = none }))
]

pub play_ended-IsSound : (pe : PendingPlay) (s : Scheduler) → IsSound s → IsSound (play_ended pe s)
unfolding play_ended
play_ended-IsSound pe s h =
    let freed = record s { inflight = free_slot pe.id s.inflight } in
    let idle = record freed { playing = none } in
    let back = if pe.is_interrupt then restore (record idle { interrupt_end = 0 }) else idle in
    let same : s.queue ≡ back.queue =
      ground (arith, restore-queue (record idle { interrupt_end = 0 })) in
    elim (Bool-cases (is_current pe freed)) [
      | inl e ↦
          let ended : drain back ≡ play_ended pe s = ground (arith, e) in
          subst IsSound ended (drain-IsSound back s.queue same h.bounded h.queued)
      | inr e ↦ let ended : freed ≡ play_ended pe s = ground (arith, e) in subst IsSound ended h
    ]

pub start_interrupt-IsSound :
    (pe : PendingPlay) (duration : ℤ) (now : ℕ) (s : Scheduler)
    → IsSound s
    → IsSound (start_interrupt pe duration now s)
unfolding start_interrupt
start_interrupt-IsSound pe duration now s h =
    let timed = ltb_ℤ (pos 0) duration in
    let marked : Scheduler = record s {
      resume = if timed then s.playing else none;
      interrupt_end = if timed then time_add now (seconds duration) else 0;
    } in
    start_play-IsSound (record pe { is_interrupt = true }) (cancel_playing marked)
      (cancel_playing-IsSound marked h)

pub expire_interrupt-IsSound :
    (now : ℕ) (s : Scheduler) → IsSound s → IsSound (expire_interrupt now s)
unfolding expire_interrupt
expire_interrupt-IsSound now s h = SoundQueue-keep (ground arith) (λ e. ground (arith, e)) h

pub handle_play_error-IsSound :
    (policy : Option HealthPolicy) (p : Player) (g : Dispatched) (s : Scheduler)
    → IsSound s
    → IsSound (handle_play_error policy p g s)
unfolding handle_play_error
handle_play_error-IsSound policy p g s h = SoundQueue-keep (ground arith) (λ e. ground (arith, e)) h
