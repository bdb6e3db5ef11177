-- ===== src/Scheduler/Ticks.antt =====
-- What the ticks of management/scheduler.go leave alone while an interrupt plays.
use kplayer_go.Prelude.{
  ℕ, ◌≡◌, refl, true, none, some, List, [], ◌∷◌, arith, ◌∙◌, ap, str_eq, if◌then◌else◌, Bool-cases,
  inl, inr, ◌||◌,
}
use kplayer_go.Prelude.Lists.{any}
use kplayer_go.Model.{ScheduleTask}
use kplayer_go.Prelude.Int.{is_zero_time, after}
use kplayer_go.Scheduler.{Scheduler, PendingPlay, interrupt_active, expire_interrupt}
use kplayer_go.Scheduler.Firing.{fire, tick, tick_task, tick_tasks, entry_for, put_entry}
use kplayer_go.Scheduler.Precedence.{fire-yields}
use kplayer_go.Cron.Next.{Calendar}

-- A tick of the loop, with what it reads.
pub record Tick : Type 0 where
  pub calendar : Calendar
  pub clock : ℕ
  pub at : ℕ
  pub tasks : List ScheduleTask

pub after_ticks : List Tick → Scheduler → Scheduler
after_ticks [] s = s
after_ticks (k ∷ ks) s = after_ticks ks (tick k.calendar k.clock k.at k.tasks s)

-- What a tick leaves alone while an interrupt plays.
pub record Holds (s s' : Scheduler) : Type 0 where
  pub player : s'.player ≡ s.player
  pub context_live : s'.context_live ≡ s.context_live
  pub playing : s'.playing ≡ s.playing
  pub queue : s'.queue ≡ s.queue
  pub resume : s'.resume ≡ s.resume
  pub next_context : s'.next_context ≡ s.next_context

pub Holds-trans : (a b c : Scheduler) → Holds a b → Holds b c → Holds a c
Holds-trans a b c h k = record {
  player = k.player ∙ h.player;
  context_live = k.context_live ∙ h.context_live;
  playing = k.playing ∙ h.playing;
  queue = k.queue ∙ h.queue;
  resume = k.resume ∙ h.resume;
  next_context = k.next_context ∙ h.next_context;
}

-- Another store and other entries of the schedule change none of it.
pub Holds-apart :
    (s s' : Scheduler) → record s' { store = s.store; sched = s.sched } ≡ s → Holds s s'
Holds-apart s s' e = record {
  player = ap (λ (x : Scheduler). x.player) e;
  context_live = ap (λ (x : Scheduler). x.context_live) e;
  playing = ap (λ (x : Scheduler). x.playing) e;
  queue = ap (λ (x : Scheduler). x.queue) e;
  resume = ap (λ (x : Scheduler). x.resume) e;
  next_context = ap (λ (x : Scheduler). x.next_context) e;
}

pub active_while :
    (s s' : Scheduler) → Holds s s' → interrupt_active s ≡ true → interrupt_active s' ≡ true
unfolding interrupt_active
active_while s s' h a = ground (arith, h.playing, a)

pub playing_interrupt :
    (s : Scheduler) (q : PendingPlay)
    → s.playing ≡ some q
    → q.is_interrupt ≡ true
    → interrupt_active s ≡ true
unfolding interrupt_active
playing_interrupt s q e i = ground (arith, e, i)

tick_task-Holds :
    (cal : Calendar) (clock now : ℕ) (t : ScheduleTask) (s : Scheduler)
    → interrupt_active s ≡ true
    → Holds s (tick_task cal clock now t s)
unfolding tick_task interrupt_active
tick_task-Holds cal clock now t s a =
    let e = entry_for cal clock t now (s.sched t.id) in
    let s' = put_entry t.id e s in
    let fired = fire-yields t now s' a in
    elim (Bool-cases (is_zero_time e.next || after e.next now)) [
      | inl w ↦ Holds-apart s _ (ground (arith, w))
      | inr w ↦ Holds-trans s s' _ (Holds-apart s s' refl) (
          Holds-trans s' (fire t now s') _
            (Holds-apart s' (fire t now s')
              (ap (λ (x : Scheduler). record x { sched = s'.sched }) fired))
            (Holds-apart (fire t now s') _ (ground (arith, w))))
    ]

tick_tasks-Holds :
    (cal : Calendar) (clock now : ℕ) (ts : List ScheduleTask) (s : Scheduler)
    → interrupt_active s ≡ true
    → Holds s (tick_tasks cal clock now ts s)
unfolding tick_tasks
tick_tasks-Holds cal clock now [] s a = Holds-apart s s refl
tick_tasks-Holds cal clock now (t ∷ ts) s a =
    let s' = tick_task cal clock now t s in
    let h = tick_task-Holds cal clock now t s a in
    Holds-trans s s' _ h (tick_tasks-Holds cal clock now ts s' (active_while s s' h a))

expire_interrupt-Holds : (now : ℕ) (s : Scheduler) → Holds s (expire_interrupt now s)
unfolding expire_interrupt
expire_interrupt-Holds now s = record {
  player = ground arith;
  context_live = ground arith;
  playing = ground arith;
  queue = ground arith;
  resume = ground arith;
  next_context = ground arith;
}

tick-Holds :
    (cal : Calendar) (clock now : ℕ) (ts : List ScheduleTask) (s : Scheduler)
    → interrupt_active s ≡ true
    → Holds s (tick cal clock now ts s)
unfolding tick
tick-Holds cal clock now ts s a =
    let s' = expire_interrupt now s in
    let s'' : Scheduler = record s' {
      sched = λ id. if any (λ t. str_eq t.id id) ts then s'.sched id else none;
    } in
    let h = Holds-trans s s' s'' (expire_interrupt-Holds now s) (Holds-apart s' s'' refl) in
    Holds-trans s s'' _ h (tick_tasks-Holds cal clock now ts s'' (active_while s s'' h a))

pub after_ticks-Holds :
    (ks : List Tick) (s : Scheduler) → interrupt_active s ≡ true → Holds s (after_ticks ks s)
unfolding after_ticks
after_ticks-Holds [] s a = Holds-apart s s refl
after_ticks-Holds (k ∷ ks) s a =
    let s' = tick k.calendar k.clock k.at k.tasks s in
    let h = tick-Holds k.calendar k.clock k.at k.tasks s a in
    Holds-trans s s' _ h (after_ticks-Holds ks s' (active_while s s' h a))
