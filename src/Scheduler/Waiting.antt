-- ===== src/Scheduler/Waiting.antt =====
-- The play queue of management/scheduler.go is served in order as the plays return.
use kplayer_go.Prelude.{
  ℕ, zero, suc, ◌≡◌, refl, Bool, true, false, not, Option, none, some, List, [], ◌∷◌, arith,
  if◌then◌else◌, ◌==◌, ap, sym, ◌∙◌,
}
use mathlib.Core.Path.{subst}
use kplayer_go.Prelude.Lists.{length, get_elem?, All, select}
use kplayer_go.Model.{HealthPolicy}
use kplayer_go.Scheduler.{
  Scheduler, Player, PendingPlay, Dispatched, play_ended, play_returned, handle_play_error, drain,
  drain_queue, start_play, free_slot, is_current,
}

-- A play goes on, it is no interrupt, and what follows can be started; the plays that wait.
pub record Serves (s : Scheduler) (pe : PendingPlay) (waiting : List PendingPlay) : Type 0 where
  pub player_there : (p : Player) × (s.player ≡ some p)
  pub live : s.context_live ≡ true
  pub now_playing : s.playing ≡ some pe
  pub plain : pe.is_interrupt ≡ false
  pub queued : s.queue ≡ waiting

drain_queue-busy :
    (qs : List PendingPlay) (s : Scheduler) (pe : PendingPlay)
    → s.playing ≡ some pe
    → drain_queue qs s ≡ record s { queue = qs }
unfolding drain_queue
drain_queue-busy [] s pe h = refl
drain_queue-busy (q ∷ qs) s pe h = ground (arith, h)

start_play-starts :
    (q : PendingPlay) (s : Scheduler) (p : Player)
    → s.player ≡ some p
    → s.context_live ≡ true
    → ((start_play q s).playing ≡ some (record q { context = s.next_context }))
      × ((start_play q s).player ≡ some p)
      × ((start_play q s).context_live ≡ true)
unfolding start_play
start_play-starts q s p h live =
    (ground (arith, h, live), ground (arith, h, live), ground (arith, h, live))

-- The state once the play has left.
abbrev idle : PendingPlay → Scheduler → Scheduler
idle pe s = record s { inflight = free_slot pe.id s.inflight; playing = none }

play_ended-idle :
    (pe : PendingPlay) (s : Scheduler)
    → s.playing ≡ some pe
    → pe.is_interrupt ≡ false
    → play_ended pe s ≡ drain (idle pe s)
unfolding play_ended
play_ended-idle pe s h plain =
    let own : is_current pe (record s { inflight = free_slot pe.id s.inflight }) ≡ true =
      ground (arith, h) in
    ground (arith, own, plain)

play_ended-next :
    (pe q : PendingPlay) (qs : List PendingPlay) (s : Scheduler)
    → Serves s pe (q ∷ qs)
    → q.is_interrupt ≡ false
    → Serves (play_ended pe s) (record q { context = s.next_context }) qs
unfolding drain drain_queue
play_ended-next pe q qs s v plain =
    let (p, there) = v.player_there in
    let before = record (idle pe s) { queue = qs } in
    let (playing, player, live) = start_play-starts q before p there v.live in
    let after : play_ended pe s ≡ record (start_play q before) { queue = qs } =
      play_ended-idle pe s v.now_playing v.plain
      ∙ ap (λ l. drain_queue l (idle pe s)) v.queued
      ∙ drain_queue-busy qs (start_play q before) (record q { context = s.next_context }) playing in
    subst (λ x. Serves x (record q { context = s.next_context }) qs) (sym after)
      (record {
        player_there = (p, player);
        live = live;
        now_playing = playing;
        plain = plain;
        queued = refl;
      })

-- What a failed play changes before it leaves: the reports only.
handle_play_error-Serves :
    (policy : Option HealthPolicy) (p : Player) (g : Dispatched) (s : Scheduler) (pe : PendingPlay)
    (qs : List PendingPlay)
    → Serves s pe qs
    → Serves (handle_play_error policy p g s) pe qs
unfolding handle_play_error
handle_play_error-Serves policy p g s pe qs v =
    let (pl, there) = v.player_there in
    record {
      player_there = (pl, ground (arith, there));
      live = ground (arith, v.live);
      now_playing = ground (arith, v.now_playing);
      plain = v.plain;
      queued = ground (arith, v.queued);
    }

play_returned-next :
    (policy : Option HealthPolicy) (p : Player) (fails : Bool) (g : Dispatched) (q : PendingPlay)
    (qs : List PendingPlay) (s : Scheduler)
    → Serves s g.play (q ∷ qs)
    → q.is_interrupt ≡ false
    → (c : ℕ) × Serves (play_returned policy p fails g s) (record q { context = c }) qs
unfolding play_returned
play_returned-next policy p fails g q qs s v plain =
    let others = select (λ (o : Dispatched). not (o.play.context == g.play.context)) s.dispatched in
    let without : Scheduler → Scheduler = λ x. record x { dispatched = others } in
    let kept : (x : Scheduler) → Serves x g.play (q ∷ qs) → Serves (without x) g.play (q ∷ qs) =
      λ x w. record {
        player_there = w.player_there;
        live = w.live;
        now_playing = w.now_playing;
        plain = w.plain;
        queued = w.queued;
      } in
    let before = without (if fails then handle_play_error policy p g s else s) in
    let served : Serves before g.play (q ∷ qs) =
      elim fails
        as (λ b.
          Serves (without (if b then handle_play_error policy p g s else s)) g.play (q ∷ qs)) [
            | true ↦
                kept (handle_play_error policy p g s)
                  (handle_play_error-Serves policy p g s g.play (q ∷ qs) v)
            | false ↦ kept s v
          ] in
    (before.next_context, play_ended-next g.play q qs before served plain)

-- How a play returns from the player.
pub record Return : Type 0 where
  pub policy : Option HealthPolicy
  pub player : Player
  pub fails : Bool
  pub cancelled : Bool

pub return_playing : Return → Scheduler → Scheduler
return_playing r s = elim s.playing [
  | none ↦ s
  | some pe ↦
      play_returned r.policy r.player r.fails (record { play = pe; cancelled = r.cancelled }) s
]

pub after_returns : List Return → Scheduler → Scheduler
after_returns [] s = s
after_returns (r ∷ rs) s = after_returns rs (return_playing r s)

return_playing-next :
    (r : Return) (pe q : PendingPlay) (qs : List PendingPlay) (s : Scheduler)
    → Serves s pe (q ∷ qs)
    → q.is_interrupt ≡ false
    → (c : ℕ) × Serves (return_playing r s) (record q { context = c }) qs
unfolding return_playing
return_playing-next r pe q qs s v plain =
    let g : Dispatched = record { play = pe; cancelled = r.cancelled } in
    let same : play_returned r.policy r.player r.fails g s ≡ return_playing r s =
      ground (arith, v.now_playing) in
    let (c, w) = play_returned-next r.policy r.player r.fails g q qs s v plain in
    (c, subst (λ x. Serves x (record q { context = c }) qs) same w)

-- A play that waits behind `k` others plays after `k + 1` plays in a row have returned, however
-- they return, if a player is attached and the context is live, what plays is no interrupt and no
-- interrupt waits.
pub after_returns-plays :
    (k : ℕ) (rs : List Return) (s : Scheduler) (pe q : PendingPlay) (waiting : List PendingPlay)
    → length rs ≡ suc k
    → get_elem? waiting k ≡ some q
    → All (λ w. w.is_interrupt ≡ false) waiting
    → Serves s pe waiting
    → (c : ℕ) × ((after_returns rs s).playing ≡ some (record q { context = c }))
unfolding after_returns
after_returns-plays k [] s pe q waiting len e plain v = absurd (ground (arith, len))
after_returns-plays k (r ∷ rs) s pe q [] len e plain v = absurd (ground (arith, e))
after_returns-plays zero (r ∷ []) s pe q (w ∷ ws) len e plain v =
    let (c, served) = return_playing-next r pe w ws s v plain.0 in
    let same : w ≡ q = ground (arith, e) in
    (c, served.now_playing ∙ ap (λ (x : PendingPlay). some (record x { context = c })) same)
after_returns-plays zero (r ∷ t ∷ rs) s pe q (w ∷ ws) len e plain v = absurd (ground (arith, len))
after_returns-plays (suc k) (r ∷ rs) s pe q (w ∷ ws) len e plain v =
    let (c, served) = return_playing-next r pe w ws s v plain.0 in
    after_returns-plays k rs (return_playing r s) (record w { context = c }) q ws
      (ground (arith, len)) e plain.1 served
