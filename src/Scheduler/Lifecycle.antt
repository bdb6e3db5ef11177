-- ===== src/Scheduler/Lifecycle.antt =====
-- The calls of the interface of the scheduler of management/scheduler.go: `NewScheduler`, `Start`,
-- `Stop`, `SetPlayer` and `Interrupt`.
use kplayer_go.Prelude.{
  ℕ, suc, true, false, not, Option, none, some, List, [], map, str_eq, if◌then◌else◌,
}
use kplayer_go.Prelude.Int.{ℤ}
use kplayer_go.Model.{Data, Err}
use kplayer_go.Result.{Result, ok, err}
use kplayer_go.Tasks.{normalize_priority}
use kplayer_go.Scheduler.{PlayRequest, PendingPlay, Dispatched, Player, Scheduler, start_interrupt}

-- `NewScheduler`, whose context is live
abbrev pub new_scheduler : Data → Option Player → Scheduler
new_scheduler store player = record {
  store = store;
  running = false;
  player = player;
  context_live = true;
  sched = λ id. none;
  inflight = λ id. false;
  playing = none;
  queue = [];
  resume = none;
  interrupt_end = 0;
  dispatched = [];
  next_ref = 0;
  next_context = 0;
  reports = [];
}

-- `SetPlayer`
abbrev pub set_player : Option Player → Scheduler → Scheduler
set_player p s = record s { player = p }

-- `Start` and `Stop`
abbrev pub cancelled_now : Dispatched → Dispatched
cancelled_now g = record g { cancelled = true }

abbrev pub cancel_all : List Dispatched → List Dispatched
cancel_all gs = map cancelled_now gs

unfoldable pub start : Scheduler → Option Scheduler
start s =
    if s.running
    then none
    else some
        (record s { running = true; context_live = true; dispatched = cancel_all s.dispatched })

unfoldable pub stop : Scheduler → Scheduler
stop s = if not s.running then s else record s {
  running = false;
  context_live = false;
  dispatched = cancel_all s.dispatched;
  playing = none;
  queue = [];
  resume = none;
  interrupt_end = 0;
}

-- `Interrupt`
unfoldable pub interrupt : PlayRequest → ℤ → ℕ → Scheduler → Result Scheduler
unfolding start_interrupt normalize_priority
interrupt req duration now s =
    let pe : PendingPlay = record {
      ref = s.next_ref;
      id = "";
      name = "";
      req = req;
      priority = normalize_priority req.priority;
      context = 0;
      is_interrupt = false;
    } in
    if (if str_eq req.media_id ""
      then str_eq req.playlist_id ""
      else not (str_eq req.playlist_id ""))
    then err Err.invalid
    else if not s.running
    then err Err.not_running
    else ok (start_interrupt pe duration now (record s { next_ref = suc s.next_ref }))
