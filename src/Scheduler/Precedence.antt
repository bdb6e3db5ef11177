-- ===== src/Scheduler/Precedence.antt =====
-- The precedence of fires in management/scheduler.go.
use kplayer_go.Prelude.{
  ℕ, suc, ◌<◌, ◌≡◌, refl, true, false, not, ◌&&◌, ◌||◌, some, arith, leb, ◌==◌, Bool-cases, inl,
  inr, ◌⊎◌, sym, ◌∙◌,
}
use mathlib.Core.Path.{subst}
use kplayer_go.Model.{ScheduleTask, Priority}
use kplayer_go.Scheduler.{Scheduler, PendingPlay, rank, interrupt_active}
use kplayer_go.Scheduler.Firing.{fire, fire_stop, fire_over, fire_play, record_run, play_of}
use kplayer_go.Tasks.{is_stop, normalize_priority}

normalized_rank : (p : Priority) → rank (normalize_priority p) ≡ rank p
unfolding rank normalize_priority
normalized_rank Priority.unset = refl
normalized_rank Priority.normal = refl
normalized_rank Priority.important = refl
normalized_rank Priority.critical = refl
normalized_rank (Priority.other name) = refl

-- What plays and which contexts are cancelled is as before.
abbrev pub Undisturbed : Scheduler → Scheduler → Type 0
Undisturbed s s' = (s'.playing ≡ s.playing) × (s'.dispatched ≡ s.dispatched)

fire_stop-Undisturbed : (t : ScheduleTask) (s : Scheduler) → Undisturbed s (fire_stop t s)
unfolding fire_stop
fire_stop-Undisturbed t s = (ground arith, ground arith)

fire_over-respects :
    (p pe : PendingPlay) (s : Scheduler)
    → Undisturbed s (fire_over p pe s) ⊎ ((rank pe.priority ≡ 2) × (rank p.priority < 2))
unfolding fire_over
fire_over-respects p pe s =
    elim (Bool-cases (rank pe.priority == 2 && not (leb 2 (rank p.priority)))) [
      | inl e ↦ inr (ground (arith, e), ground (arith, e))
      | inr e ↦ inl (ground (arith, e), ground (arith, e))
    ]

fire_play-respects :
    (t : ScheduleTask) (now : ℕ) (s : Scheduler) (p : PendingPlay)
    → t.interrupt ≡ false
    → s.playing ≡ some p
    → Undisturbed s (fire_play t now s) ⊎ ((rank t.priority ≡ 2) × (rank p.priority < 2))
unfolding fire_play
fire_play-respects t now s p i e =
    let pe = play_of t s.next_ref in
    let made : Scheduler = record s { next_ref = suc s.next_ref } in
    let same : fire_over p pe made ≡ fire_play t now s = ground (arith, i, e) in
    elim (fire_over-respects p pe made) [
      | inl u ↦ inl (subst (Undisturbed s) same u)
      | inr c ↦ inr (sym (normalized_rank t.priority) ∙ c.0, c.1)
    ]

-- While something plays, a fire leaves the record of it and the contexts of all dispatched plays as
-- they are, unless what plays is no interrupt, the task's action is not stop, and the task
-- interrupts, or is critical while what plays is not.
pub fire-respects_rank :
    (t : ScheduleTask) (now : ℕ) (s : Scheduler) (p : PendingPlay)
    → s.playing ≡ some p
    → (((fire t now s).playing ≡ s.playing) × ((fire t now s).dispatched ≡ s.dispatched))
      ⊎ ((p.is_interrupt ≡ false)
          × (is_stop t.action ≡ false)
          × ((t.interrupt ≡ true) ⊎ ((rank t.priority ≡ 2) × (rank p.priority < 2))))
unfolding fire interrupt_active
fire-respects_rank t now s p e =
    let ran : Scheduler = record s { store = record_run t.id now s.store } in
    elim (Bool-cases (s.inflight t.id || interrupt_active ran)) [
      | inl b ↦ inl (ground (arith, b), ground (arith, b))
      | inr b ↦ elim (Bool-cases (is_stop t.action)) [
        | inl a ↦
            let same : fire_stop t ran ≡ fire t now s = ground (arith, b, a) in
            inl (subst (Undisturbed s) same (fire_stop-Undisturbed t ran))
        | inr a ↦
            let same : fire_play t now ran ≡ fire t now s = ground (arith, b, a) in
            let plain : p.is_interrupt ≡ false = ground (arith, b, e) in
            elim (Bool-cases t.interrupt) [
              | inl i ↦ inr (plain, a, inl i)
              | inr i ↦ elim (fire_play-respects t now ran p i e) [
                | inl u ↦ inl (subst (Undisturbed s) same u)
                | inr c ↦ inr (plain, a, inr c)
              ]
            ]
      ]
    ]

-- While an interrupt plays, a fire changes nothing but the document, whatever the task is: what
-- plays, what is queued, the contexts of all plays, the target to be resumed and the end of the
-- interrupt stay.
pub fire-yields :
    (t : ScheduleTask) (now : ℕ) (s : Scheduler)
    → interrupt_active s ≡ true
    → record (fire t now s) { store = s.store } ≡ s
unfolding fire interrupt_active
fire-yields t now s h = elim (Bool-cases (s.inflight t.id)) [
  | inl e ↦
      let same : s ≡ fire t now s = ground (arith, e) in
      subst (λ (x : Scheduler). record x { store = s.store } ≡ s) same refl
  | inr e ↦
      let ran : Scheduler = record s { store = record_run t.id now s.store } in
      let same : ran ≡ fire t now s = ground (arith, e, h) in
      subst (λ (x : Scheduler). record x { store = s.store } ≡ s) same refl
]
