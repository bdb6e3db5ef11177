-- ===== src/Scheduler.antt =====
-- The playback state of management/scheduler.go and the operations that run under its lock. A
-- `pendingPlay` is an allocated object: `ref` is its identity, and its `cancel` function is the
-- number of the context that its last dispatch made. `dispatched` are the goroutines that have not
-- returned from `Play`, each with its context. The attached `Player` is known by its optional
-- capabilities only.
pub mod Firing
pub mod Lifecycle
pub mod Sound
pub mod Runs
pub mod Precedence
pub mod Ticks
pub mod Interrupts
pub mod Waiting
use kplayer_go.Prelude.{
  ℕ, suc, zero, ◌+◌, ◌≡◌, String, Bool, true, false, not, ◌&&◌, ◌||◌, Option, none, some, List, [],
  ◌∷◌, ◌++◌, map, str_eq, if◌then◌else◌, ltb, leb, ◌==◌,
}
use kplayer_go.Prelude.Lists.{any, select, length}
use kplayer_go.Prelude.Int.{ℤ, pos, ltb_ℤ, seconds, time_add, is_zero_time, before}
use kplayer_go.Model.{Data, Err, HealthPolicy, Priority}
use kplayer_go.Result.{Result, ok, err}
use kplayer_go.Tasks.{normalize_priority}

-- `rank` of player.go
unfoldable pub rank : Priority → ℕ
rank Priority.important = 1
rank Priority.critical = 2
rank _ = 0

-- `PlayRequest`, less its seek offset and random flag, which no fire sets.
pub record PlayRequest : Type 0 where
  pub playlist_id : String
  pub media_id : String
  pub scene_template_id : String
  pub loop : Bool
  pub priority : Priority

pub record PendingPlay : Type 0 where
  pub ref : ℕ
  pub id : String
  pub name : String
  pub req : PlayRequest
  pub priority : Priority
  pub context : ℕ
  pub is_interrupt : Bool

pub record ScheduleEntry : Type 0 where
  pub updated_at : ℕ
  pub next : ℕ

pub record Dispatched : Type 0 where
  pub play : PendingPlay
  pub cancelled : Bool

-- What `StoppingPlayer` and `SkippingPlayer` give, where the player implements them.
pub record Player : Type 0 where
  pub stop : Option (Result (Unit {0}))
  pub skip : Option (Result (Unit {0}))

-- What goes to the error handler and to the play event handler.
pub data Report : Type 0 where
  no_player cannot_stop queue_full play_started play_failed play_error : String → Report
  stop_error skip_error : String → Err → Report

pub record Scheduler : Type 0 where
  pub store : Data
  pub running : Bool
  pub player : Option Player
  pub context_live : Bool  -- the context of the run is not cancelled
  pub sched : String → Option ScheduleEntry
  pub inflight : String → Bool
  pub playing : Option PendingPlay
  pub queue : List PendingPlay
  pub resume : Option PendingPlay
  pub interrupt_end : ℕ
  pub dispatched : List Dispatched
  pub next_ref : ℕ
  pub next_context : ℕ
  pub reports : List Report

abbrev pub max_play_queue : ℕ
max_play_queue = 8

abbrev pub report : Report → Scheduler → Scheduler
report r s = record s { reports = s.reports ++ r ∷ [] }

abbrev pub cancel_if : ℕ → Dispatched → Dispatched
cancel_if n g = record g { cancelled = g.cancelled || (g.play.context == n) }

-- `pe.cancel()` of the current playback
abbrev pub cancel_playing : Scheduler → Scheduler
cancel_playing s = elim s.playing [
  | none ↦ s
  | some p ↦ record s { dispatched = map (cancel_if p.context) s.dispatched }
]

abbrev pub set_inflight : String → Bool → (String → Bool) → String → Bool
set_inflight id b m x = if str_eq x id then b else m x

abbrev pub take_slot : String → (String → Bool) → String → Bool
take_slot id m = if str_eq id "" then m else set_inflight id true m

abbrev pub free_slot : String → (String → Bool) → String → Bool
free_slot id m = if str_eq id "" then m else set_inflight id false m

-- `startPlayLocked`
unfoldable pub start_play : PendingPlay → Scheduler → Scheduler
start_play pe s = elim s.player [
  | none ↦ report (no_player pe.name) s
  | some p ↦
      let started : PendingPlay = record pe { context = s.next_context } in
      if s.context_live
      then record s {
        inflight = take_slot pe.id s.inflight;
        playing = some started;
        dispatched = s.dispatched ++ record { play = started; cancelled = false } ∷ [];
        next_context = suc s.next_context;
        reports = s.reports ++ play_started pe.name ∷ [];
      }
      else s
]

-- `drainLocked`, whose loop takes the plays off the queue one by one.
unfoldable pub drain_queue : List PendingPlay → Scheduler → Scheduler
unfolding start_play
drain_queue [] s = record s { queue = [] }
drain_queue (pe ∷ rest) s = elim s.playing [
  | some p ↦ record s { queue = pe ∷ rest }
  | none ↦ drain_queue rest (start_play pe (record s { queue = rest }))
]

unfoldable pub drain : Scheduler → Scheduler
unfolding drain_queue
drain s = drain_queue s.queue s

-- `interruptActiveLocked`
unfoldable pub interrupt_active : Scheduler → Bool
interrupt_active s = elim s.playing [ none ↦ false | some p ↦ p.is_interrupt ]

-- `expireInterruptLocked`
unfoldable pub expire_interrupt : ℕ → Scheduler → Scheduler
unfolding interrupt_active
expire_interrupt now s =
    if not (interrupt_active s) || is_zero_time s.interrupt_end
    then s
    else if before now s.interrupt_end
    then s
    else record (cancel_playing s) { interrupt_end = 0 }

-- `startInterruptLocked`
unfoldable pub start_interrupt : PendingPlay → ℤ → ℕ → Scheduler → Scheduler
unfolding start_play seconds time_add
start_interrupt pe duration now s =
    let timed = ltb_ℤ (pos 0) duration in
    start_play (record pe { is_interrupt = true })
      (cancel_playing (record s {
        resume = if timed then s.playing else none;
        interrupt_end = if timed then time_add now (seconds duration) else 0;
      }))

-- The restore of `playEndedLocked`
abbrev pub restore : Scheduler → Scheduler
restore s = elim s.resume [ none ↦ s | some r ↦ start_play r (record s { resume = none }) ]

abbrev pub is_current : PendingPlay → Scheduler → Bool
is_current pe s = elim s.playing [ none ↦ false | some p ↦ p.ref == pe.ref ]

-- `playEndedLocked`
unfoldable pub play_ended : PendingPlay → Scheduler → Scheduler
unfolding drain start_play
play_ended pe s =
    let freed = record s { inflight = free_slot pe.id s.inflight } in
    let idle = record freed { playing = none } in
    if not (is_current pe freed)
    then freed
    else drain (if pe.is_interrupt then restore (record idle { interrupt_end = 0 }) else idle)

-- `ShouldAutoSkip` and `ShouldSkipOnFailure` of health_policy.go
unfoldable pub should_auto_skip : Option HealthPolicy → Bool
should_auto_skip none = false
should_auto_skip (some p) = p.enabled && p.auto_skip_on_failure

unfoldable pub should_skip_on_failure : Option HealthPolicy → Bool → Bool
unfolding should_auto_skip
should_skip_on_failure p cancelled = not cancelled && should_auto_skip p

-- `handlePlayError`, with the player that the goroutine holds and the policy that it reads.
unfoldable pub handle_play_error : Option HealthPolicy → Player → Dispatched → Scheduler → Scheduler
unfolding should_skip_on_failure
handle_play_error policy p g s =
    let name = g.play.name in
    let failed = report (play_failed name) s in
    if should_skip_on_failure policy g.cancelled
    then (elim p.skip [
      | none ↦ report (play_error name) failed
      | some (ok u) ↦ failed
      | some (err e) ↦ report (skip_error name e) failed
    ])
    else report (play_error name) failed

-- The end of a Play goroutine: a failure is handled, then the playback ends.
unfoldable pub play_returned :
    Option HealthPolicy → Player → Bool → Dispatched → Scheduler → Scheduler
unfolding handle_play_error play_ended
play_returned policy p fails g s =
    let others = select (λ o. not (o.play.context == g.play.context)) s.dispatched in
    play_ended g.play
      (record (if fails then handle_play_error policy p g s else s) { dispatched = others })
