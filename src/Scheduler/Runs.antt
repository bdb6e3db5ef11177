-- ===== src/Scheduler/Runs.antt =====
-- Runs of the scheduler of management/scheduler.go: the events that change its state, in any order.
use kplayer_go.Prelude.{
  ℕ, suc, ◌≡◌, refl, Bool, true, false, Option, none, some, List, [], ◌∷◌, arith, Bool-cases, inl,
  inr,
}
use mathlib.Core.Path.{subst}
use kplayer_go.Prelude.Lists.{get_elem?}
use kplayer_go.Prelude.Int.{ℤ}
use kplayer_go.Model.{Data, HealthPolicy, ScheduleTask}
use kplayer_go.Result.{Result, ok, err}
use kplayer_go.Cron.Next.{Calendar}
use kplayer_go.Scheduler.{
  Scheduler, PendingPlay, PlayRequest, Player, Dispatched, play_returned, start_interrupt,
}
use kplayer_go.Scheduler.Lifecycle.{start, stop, interrupt, set_player, new_scheduler}
use kplayer_go.Scheduler.Sound.Fires.{tick-IsSound}
use kplayer_go.Scheduler.Firing.{tick}
use kplayer_go.Tasks.{normalize_priority}
use kplayer_go.Scheduler.Sound.{
  IsSound, SoundQueue, SoundQueue-keep, play_ended-IsSound, handle_play_error-IsSound,
  start_interrupt-IsSound,
}

-- A tick, the return of the Play goroutine at a position among those dispatched, and the calls of
-- the interface.
pub data Event : Type 0 where
  ticked : Calendar → ℕ → ℕ → List ScheduleTask → Event
  returned : Option HealthPolicy → Player → Bool → ℕ → Event
  interrupted : PlayRequest → ℤ → ℕ → Event
  started stopped : Event
  attached : Option Player → Event

abbrev pub or_same : Scheduler → Option Scheduler → Scheduler
or_same s none = s
or_same s (some s') = s'

abbrev pub ok_or_same : Scheduler → Result Scheduler → Scheduler
ok_or_same s (ok s') = s'
ok_or_same s (err e) = s

abbrev pub return_of :
    Option HealthPolicy → Player → Bool → Option Dispatched → Scheduler → Scheduler
return_of policy p fails none s = s
return_of policy p fails (some g) s = play_returned policy p fails g s

unfoldable pub after_event : Event → Scheduler → Scheduler
unfolding tick play_returned interrupt start stop
after_event (ticked cal clock now tasks) s = tick cal clock now tasks s
after_event (returned policy p fails i) s = return_of policy p fails (get_elem? s.dispatched i) s
after_event (interrupted req duration now) s = ok_or_same s (interrupt req duration now s)
after_event started s = or_same s (start s)
after_event stopped s = stop s
after_event (attached p) s = set_player p s

unfoldable pub after_events : List Event → Scheduler → Scheduler
unfolding after_event
after_events [] s = s
after_events (e ∷ es) s = after_events es (after_event e s)

return_of-IsSound :
    (policy : Option HealthPolicy) (p : Player) (fails : Bool) (g : Option Dispatched)
    (s : Scheduler)
    → IsSound s
    → IsSound (return_of policy p fails g s)
unfolding play_returned
return_of-IsSound policy p fails none s h = h
return_of-IsSound policy p true (some g) s h =
    play_ended-IsSound g.play _ (handle_play_error-IsSound policy p g s h)
return_of-IsSound policy p false (some g) s h = play_ended-IsSound g.play _ h

ok_or_same-IsSound :
    (s : Scheduler) (r : Result Scheduler)
    → IsSound s
    → ((s' : Scheduler) → r ≡ ok s' → IsSound s')
    → IsSound (ok_or_same s r)
ok_or_same-IsSound s (ok s') h g = g s' refl
ok_or_same-IsSound s (err e) h g = h

interrupt-IsSound :
    (req : PlayRequest) (duration : ℤ) (now : ℕ) (s s' : Scheduler)
    → IsSound s
    → interrupt req duration now s ≡ ok s'
    → IsSound s'
unfolding interrupt
interrupt-IsSound req duration now s s' h e =
    let made : Scheduler = record s { next_ref = suc s.next_ref } in
    let pe : PendingPlay = record {
      ref = s.next_ref;
      id = "";
      name = "";
      req = req;
      priority = normalize_priority req.priority;
      context = 0;
      is_interrupt = false;
    } in
    let same : start_interrupt pe duration now made ≡ s' = ground (arith, e) in
    subst IsSound same (start_interrupt-IsSound pe duration now made h)

after_event-IsSound : (e : Event) (s : Scheduler) → IsSound s → IsSound (after_event e s)
unfolding after_event start stop
after_event-IsSound (ticked cal clock now tasks) s h = tick-IsSound cal clock now tasks s h
after_event-IsSound (returned policy p fails i) s h =
    return_of-IsSound policy p fails (get_elem? s.dispatched i) s h
after_event-IsSound (interrupted req duration now) s h =
    ok_or_same-IsSound s (interrupt req duration now s) h
      λ s' e. interrupt-IsSound req duration now s s' h e
after_event-IsSound started s h = SoundQueue-keep (ground arith) (λ e. ground (arith, e)) h
after_event-IsSound stopped s h = elim (Bool-cases s.running) [
  | inl r ↦
      let same : [] ≡ (stop s).queue = ground (arith, r) in
      subst (λ q. SoundQueue q (stop s).playing) same
        (record { bounded = omega arith; queued = tt; waiting = λ e. refl })
  | inr r ↦ SoundQueue-keep (ground (arith, r)) (λ e. ground (arith, e, r)) h
]
after_event-IsSound (attached p) s h = h

new_scheduler-IsSound :
    (store : Data) (player : Option Player) → IsSound (new_scheduler store player)
new_scheduler-IsSound store player = record {
  bounded = omega arith;
  queued = tt;
  waiting = λ e. refl;
}

-- Whatever the order of ticks, returning plays, interrupts, starts, stops and changes of the
-- player: at most eight plays are queued, every queued play is of the important priority and no
-- interrupt, and none is queued while nothing plays, if that held at the start.
pub after_events-IsSound :
    (es : List Event) (s : Scheduler) → IsSound s → IsSound (after_events es s)
unfolding after_events
after_events-IsSound [] s h = h
after_events-IsSound (e ∷ es) s h =
    after_events-IsSound es (after_event e s) (after_event-IsSound e s h)
