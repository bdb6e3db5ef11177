-- ===== src/Scheduler/Interrupts.antt =====
-- Interrupt playback in management/scheduler.go: what a timed interrupt replaces comes back.
use kplayer_go.Prelude.{
  ℕ, suc, ◌≡◌, ◌≢◌, refl, true, false, not, Option, none, some, List, [], ◌∷◌, arith, ◌==◌, eq_iff,
  sym, ◌∙◌, ap,
}
use kplayer_go.Prelude.Lists.{any, select}
use kplayer_go.Model.{HealthPolicy}
use kplayer_go.Prelude.Int.{ℤ, pos, ltb_ℤ, seconds, time_add}
use kplayer_go.Scheduler.{
  Scheduler, PendingPlay, Player, Dispatched, start_play, cancel_playing, start_interrupt,
  play_ended, play_returned, drain, free_slot, drain_queue,
}
use kplayer_go.Scheduler.Sound.{start_play-queue}
use kplayer_go.Scheduler.Ticks.{Tick, after_ticks, after_ticks-Holds, playing_interrupt}

-- A play that is not `pe`, put back with a new context.
abbrev pub again : ℕ → PendingPlay → PendingPlay
again n p = record p { context = n }

drain_queue-busy :
    (q : List PendingPlay) (s : Scheduler) (p : PendingPlay)
    → s.playing ≡ some p
    → s.queue ≡ q
    → drain_queue q s ≡ s
unfolding drain_queue
drain_queue-busy [] s p e h = ap (λ q. record s { queue = q }) (sym h)
drain_queue-busy (pe ∷ rest) s p e h =
    let same : drain_queue (pe ∷ rest) s ≡ record s { queue = pe ∷ rest } = ground (arith, e) in
    same ∙ ap (λ q. record s { queue = q }) (sym h)

drain-busy : (s : Scheduler) (p : PendingPlay) → s.playing ≡ some p → drain s ≡ s
unfolding drain
drain-busy s p e = drain_queue-busy s.queue s p e refl

-- What the later steps read of a state.
pub record IsPlaying (s : Scheduler) (p : PendingPlay) (resume : Option PendingPlay) (n : ℕ)
    : Type 0 where
  pub playing : s.playing ≡ some p
  pub resumes : s.resume ≡ resume
  pub next : s.next_context ≡ n

start_play-dispatches :
    (pe : PendingPlay) (s : Scheduler) (player : Player)
    → s.player ≡ some player
    → s.context_live ≡ true
    → ((start_play pe s).player ≡ some player)
      × ((start_play pe s).context_live ≡ true)
      × ((start_play pe s).interrupt_end ≡ s.interrupt_end)
      × IsPlaying (start_play pe s) (again s.next_context pe) s.resume (suc s.next_context)
unfolding start_play
start_play-dispatches pe s player a l = (
  ground (arith, a, l),
  ground (arith, a, l),
  ground (arith, a, l),
  record {
    playing = ground (arith, a, l);
    resumes = ground (arith, a, l);
    next = ground (arith, a, l);
  },
)

-- The end of the current interrupt.
play_ended-restores :
    (pe p q : PendingPlay) (s : Scheduler) (player : Player) (n : ℕ)
    → s.player ≡ some player
    → s.context_live ≡ true
    → pe.is_interrupt ≡ true
    → q.ref ≡ pe.ref
    → IsPlaying s q (some p) n
    → ((play_ended pe s).playing ≡ some (again n p))
      × ((play_ended pe s).queue ≡ s.queue)
      × ((play_ended pe s).resume ≡ none)
      × ((play_ended pe s).interrupt_end ≡ 0)
unfolding play_ended
play_ended-restores pe p q s player n a l i r h =
    let ready : Scheduler = record s {
      inflight = free_slot pe.id s.inflight;
      playing = none;
      interrupt_end = 0;
      resume = none;
    } in
    let (_, _, ended, st) = start_play-dispatches p ready player a l in
    let back = start_play p ready in
    let kept : ready.queue ≡ back.queue = start_play-queue p ready in
    let same : drain back ≡ play_ended pe s = ground (arith, i, r, h.playing, h.resumes) in
    let idle : back ≡ play_ended pe s = sym (drain-busy back _ st.playing) ∙ same in
    (
      ground (arith, idle, st.playing, h.next),
      ground (arith, idle, kept),
      ground (arith, idle, st.resumes),
      ground (arith, idle, ended),
    )

-- A timed interrupt of a scheduler with a player, whose run goes on, over a play `p`, after which
-- any ticks come, whatever tasks they fire and whether or not one of them ends the interrupt's
-- time, but no further interrupt and no other call: the interrupt still counts as playing, and when
-- its own play ends, the play `p` is dispatched once more, with a new context, and the queue is as
-- it was; nothing is left to be resumed and no end of an interrupt is set.
pub start_interrupt-restores :
    (s : Scheduler) (player : Player) (p pe : PendingPlay) (duration : ℤ) (now : ℕ)
    (ticks : List Tick)
    → s.player ≡ some player
    → s.context_live ≡ true
    → s.playing ≡ some p
    → ltb_ℤ (pos 0) duration ≡ true
    → let during : Scheduler = start_interrupt pe duration now s in
      let late : Scheduler = after_ticks ticks during in
      let after : Scheduler = play_ended (record pe { is_interrupt = true }) late in
      (late.playing ≡ some (record pe { is_interrupt = true; context = s.next_context }))
      × (after.playing ≡ some (again (suc s.next_context) p))
      × (after.queue ≡ s.queue)
      × (after.resume ≡ none)
      × (after.interrupt_end ≡ 0)
unfolding start_interrupt
start_interrupt-restores s player p pe duration now ticks a l e d =
    let pe' : PendingPlay = record pe { is_interrupt = true } in
    let marked : Scheduler = record s {
      resume = s.playing;
      interrupt_end = time_add now (seconds duration);
    } in
    let ready = cancel_playing marked in
    let same : start_play pe' ready ≡ start_interrupt pe duration now s = ground (arith, d) in
    let during = start_interrupt pe duration now s in
    let (a', l', _, st) =
      start_play-dispatches pe' ready player (ground (arith, a, e)) (ground (arith, l, e)) in
    let st' : IsPlaying during (again s.next_context pe') (some p) (suc s.next_context) = record {
      playing = ground (arith, same, st.playing, e);
      resumes = ground (arith, same, st.resumes, e);
      next = ground (arith, same, st.next, e);
    } in
    let late = after_ticks ticks during in
    let h = after_ticks-Holds ticks during (playing_interrupt during _ st'.playing refl) in
    let st'' : IsPlaying late (again s.next_context pe') (some p) (suc s.next_context) = record {
      playing = h.playing ∙ st'.playing;
      resumes = h.resume ∙ st'.resumes;
      next = h.next_context ∙ st'.next;
    } in
    let (x, y, z, w) =
      play_ended-restores pe' p (again s.next_context pe') late player (suc s.next_context)
        (h.player ∙ ground (arith, same, a')) (h.context_live ∙ ground (arith, same, l')) refl refl
        st'' in
    let waiting : s.queue ≡ during.queue = ground (arith, same, start_play-queue pe' ready, e) in
    (st''.playing, x, y ∙ h.queue ∙ sym waiting, z, w)

drain_queue-none :
    (q : List PendingPlay) (s : Scheduler) → q ≡ [] → drain_queue q s ≡ record s { queue = [] }
unfolding drain_queue
drain_queue-none [] s h = refl
drain_queue-none (pe ∷ rest) s h = absurd (ground (arith, h))

select-keeps :
    (gs : List Dispatched) (n k : ℕ)
    → k ≢ n
    → any (λ o. o.play.context == n) gs
      ≡ any (λ o. o.play.context == n) (select (λ o. not (o.play.context == k)) gs)
select-keeps [] n k d = refl
select-keeps (g ∷ gs) n k d = ground (arith, d, select-keeps gs n k d)

-- The slot is held by an object, not by a dispatch: when a play was put back while its first
-- dispatch had not returned, and that one returns, nothing counts as playing any more and the task
-- may fire again, although the second dispatch has not returned. (Nothing is queued.)
pub stale_return-frees :
    (policy : Option HealthPolicy) (player : Player) (g : Dispatched) (s : Scheduler)
    (q : PendingPlay)
    → s.playing ≡ some q
    → g.play.ref ≡ q.ref
    → g.play.id ≡ q.id
    → g.play.context ≢ q.context
    → g.play.is_interrupt ≡ false
    → q.id ≢ ""
    → s.queue ≡ []
    → any (λ o. o.play.context == q.context) s.dispatched ≡ true
    → let after : Scheduler = play_returned policy player false g s in
      (after.playing ≡ none)
      × (after.inflight q.id ≡ false)
      × (any (λ o. o.play.context == q.context) after.dispatched ≡ true)
unfolding play_returned play_ended drain
stale_return-frees policy player g s q e r i d p n w a =
    let others = select (λ o. not (o.play.context == g.play.context)) s.dispatched in
    let idle : Scheduler = record s {
      dispatched = others;
      inflight = free_slot g.play.id s.inflight;
      playing = none;
    } in
    let emptied : drain_queue s.queue idle ≡ record idle { queue = [] } =
      drain_queue-none s.queue idle w in
    let same : drain_queue s.queue idle ≡ play_returned policy player false g s =
      ground (arith, e, r, p) in
    let ended : record idle { queue = [] } ≡ play_returned policy player false g s =
      sym emptied ∙ same in
    (
      ground (arith, ended),
      ground (arith, ended, i, n, eq_iff q.id "", eq_iff g.play.id "", eq_iff q.id g.play.id),
      ground (arith, ended, select-keeps s.dispatched q.context g.play.context d, a),
    )
