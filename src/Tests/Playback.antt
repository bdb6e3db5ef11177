-- ===== src/Tests/Playback.antt =====
-- The scheduler on concrete plays.
use kplayer_go.Prelude.{
  ℕ, ◌<◌, ◌≡◌, refl, Bool, true, false, none, some, List, [], ◌∷◌, arith, str_eq, ◌==◌, ◌⊎◌,
}
use kplayer_go.Prelude.Int.{pos}
use kplayer_go.Prelude.Lists.{any}
use kplayer_go.Model.{ScheduleTask, TaskType, TaskAction, Priority, empty_data}
use kplayer_go.Result.{ok}
use kplayer_go.Tasks.{is_stop}
use kplayer_go.Scheduler.{
  Scheduler, PendingPlay, PlayRequest, Player, rank, interrupt_active, start_interrupt, play_ended,
  play_returned,
}
use kplayer_go.Scheduler.Firing.{fire}
use kplayer_go.Scheduler.Sound.{IsSound}
use kplayer_go.Scheduler.Runs.{
  Event, interrupted, returned, started, stopped, after_events, after_events-IsSound,
}
use kplayer_go.Scheduler.Waiting.{Return, after_returns, after_returns-plays}
use kplayer_go.Scheduler.Precedence.{fire-respects_rank, fire-yields}
use kplayer_go.Cron.Next.{Calendar}
use kplayer_go.Scheduler.Ticks.{Tick, after_ticks}
use kplayer_go.Scheduler.Interrupts.{again, start_interrupt-restores, stale_return-frees}

abbrev request : PlayRequest
request = record {
  playlist_id = "main";
  media_id = "";
  scene_template_id = "";
  loop = false;
  priority = Priority.normal;
}

abbrev play : ℕ → ℕ → Bool → PendingPlay
play ref context interrupts = record {
  ref = ref;
  id = "t1";
  name = "news";
  req = request;
  priority = Priority.normal;
  context = context;
  is_interrupt = interrupts;
}

abbrev player : Player
player = record { stop = some (ok tt); skip = none }

-- A play in progress, the dispatch of which is not the first of its object.
abbrev playing : Bool → Scheduler
playing interrupts = record {
  store = empty_data;
  running = true;
  player = some player;
  context_live = true;
  sched = λ id. none;
  inflight = λ id. str_eq id "t1";
  playing = some (play 0 2 interrupts);
  queue = [];
  resume = none;
  interrupt_end = 0;
  dispatched =
      record { play = play 0 0 false; cancelled = true }
      ∷ record { play = play 0 2 interrupts; cancelled = false }
      ∷ [];
  next_ref = 3;
  next_context = 3;
  reports = [];
}

playing-IsSound : IsSound (playing false)
playing-IsSound = record { bounded = omega arith; queued = tt; waiting = λ e. refl }

abbrev events : List Event
events = interrupted request (pos 5) 100 ∷ returned none player true 2 ∷ stopped ∷ started ∷ []

after_events-IsSound_example : IsSound (after_events events (playing false))
after_events-IsSound_example = after_events-IsSound events (playing false) playing-IsSound

abbrev task : ScheduleTask
task = record {
  id = "t2";
  name = "alert";
  type = TaskType.interval;
  interval = pos 60;
  cron = "";
  action = TaskAction.unset;
  playlist_id = "main";
  media_id = "";
  scene_template_id = "";
  loop = false;
  priority = Priority.important;
  interrupt = false;
  interrupt_duration = pos 0;
  enabled = true;
  created_at = 4;
  updated_at = 4;
  last_run = none;
}

fire-respects_rank_example :
    (((fire task 9 (playing false)).playing ≡ (playing false).playing)
      × ((fire task 9 (playing false)).dispatched ≡ (playing false).dispatched))
    ⊎ (((play 0 2 false).is_interrupt ≡ false)
        × (is_stop task.action ≡ false)
        × ((task.interrupt ≡ true)
            ⊎ ((rank task.priority ≡ 2) × (rank (play 0 2 false).priority < 2))))
fire-respects_rank_example = fire-respects_rank task 9 (playing false) (play 0 2 false) refl

fire-yields_test : record (fire task 9 (playing true)) { store = empty_data } ≡ playing true
unfolding interrupt_active
fire-yields_test = fire-yields task 9 (playing true) refl

abbrev no_calendar : Calendar
no_calendar = record {
  minute = λ t. 0;
  hour = λ t. 0;
  day = λ t. 1;
  month = λ t. 1;
  weekday = λ t. 0;
  five_years_after = λ t. t;
}

-- The second comes after the end of the interrupt.
abbrev two_ticks : List Tick
two_ticks =
    record { calendar = no_calendar; clock = 0; at = 101; tasks = task ∷ [] }
    ∷ record { calendar = no_calendar; clock = 0; at = 9000000000; tasks = [] }
    ∷ []

start_interrupt-restores_example :
    let during : Scheduler = start_interrupt (play 3 0 false) (pos 5) 100 (playing false) in
    let late : Scheduler = after_ticks two_ticks during in
    let after : Scheduler = play_ended (play 3 0 true) late in
    (late.playing ≡ some (play 3 3 true))
    × (after.playing ≡ some (again 4 (play 0 2 false)))
    × (after.queue ≡ [])
    × (after.resume ≡ none)
    × (after.interrupt_end ≡ 0)
start_interrupt-restores_example =
    start_interrupt-restores (playing false) player (play 0 2 false) (play 3 0 false) (pos 5) 100
      two_ticks refl refl refl refl

stale_return-frees_example :
    let after : Scheduler =
      play_returned none player false
        (record { play = play 0 0 false; cancelled = true })
        (playing false) in
    (after.playing ≡ none)
    × (after.inflight "t1" ≡ false)
    × (any (λ o. o.play.context == 2) after.dispatched ≡ true)
stale_return-frees_example =
    stale_return-frees none player (record { play = play 0 0 false; cancelled = true })
      (playing false) (play 0 2 false) refl refl refl (λ e. omega (arith, e)) refl (λ e. cc) refl
      refl

abbrev busy : Scheduler
busy = record (playing false) { queue = play 3 0 false ∷ play 4 0 false ∷ [] }

abbrev back : Bool → Return
back fails = record { policy = none; player = player; fails = fails; cancelled = false }

after_returns-plays_example :
    (c : ℕ) × ((after_returns (back false ∷ back true ∷ []) busy).playing
      ≡ some (record (play 4 0 false) { context = c }))
after_returns-plays_example =
    after_returns-plays 1 (back false ∷ back true ∷ []) busy (play 0 2 false) (play 4 0 false)
      (play 3 0 false ∷ play 4 0 false ∷ []) refl refl (refl, (refl, tt))
      (record {
        player_there = (player, refl);
        live = refl;
        now_playing = refl;
        plain = refl;
        queued = refl;
      })
