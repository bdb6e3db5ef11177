-- ===== src/Tests/Outputs.antt =====
-- The failover monitor on a concrete pair of outputs.
use kplayer_go.Prelude.{
  ℕ, ◌+◌, ◌*◌, ◌≡◌, refl, String, Bool, true, false, some, List, [], ◌∷◌, arith, eq_iff, leb,
  if◌then◌else◌, ◌⊎◌,
}
use kplayer_go.Prelude.Int.{pos, nanos_per_second}
use kplayer_go.Prelude.Lists.{any, All}
use kplayer_go.Model.{OutputFailover, FailoverPolicy, empty_data}
use kplayer_go.Failover.{OutputFailoverSpec, validate_spec}
use kplayer_go.Prelude.Text.{trim_space}
use kplayer_go.Result.{ok}
use kplayer_go.Failover.Monitor.{
  Runtime, Switcher, OutputState, Monitor, activated, switch, evaluate, down_for_threshold,
  no_runtime, enabled_failovers, connected_by, tick,
}
use kplayer_go.Failover.Decisions.{
  accepts, observed, outage, evaluate-activates, stale_active-stuck, outage-switches,
  threshold-overflow,
}
use kplayer_go.Failover.Ticks.{decided, tick-decides}
use kplayer_go.Failover.Specs.{
  IsFailover, Change, create_failover, enable_failover, delete_failover, after_changes,
  after_changes-IsFailover,
}

abbrev failover_with : ℕ → OutputFailover
failover_with threshold = record {
  id = "f1";
  name = "stage";
  primary_unique = "a";
  backup_unique = "b";
  policy = FailoverPolicy.automatic;
  threshold_seconds = pos threshold;
  enabled = true;
  created_at = 1;
  updated_at = 1;
}

abbrev nothing_connected : String → Bool
nothing_connected x = false

abbrev runtime : String → ℕ → Runtime
runtime active since = record { active = active; switched_at = 0; primary_down_since = since }

abbrev times : List ℕ
times = 1000000000 ∷ 2000000000 ∷ 3000000000 ∷ []

outage-switches_example :
    (observed (failover_with 2) (outage times nothing_connected) (runtime "a" 1000000000)).0.active
    ≡ (if any (λ t. leb (1000000000 + 2 * nanos_per_second) t) times then "b" else "a")
outage-switches_example =
    outage-switches (failover_with 2) 2 nothing_connected times (runtime "a" 1000000000) refl
      (omega arith) (λ e. ground (arith, e, eq_iff "b" "a")) refl refl (λ e. omega (arith, e))
      (omega arith, (omega arith, (omega arith, tt)))

abbrev working : Switcher
working = some (λ x. true)

abbrev switched : Runtime
switched = (evaluate working (λ x. true) 5 (failover_with 2) (runtime "b" 0)).0

evaluate-activates_example :
    (accepts working switched.active ≡ true)
    × ((switched.active ≡ (failover_with 2).primary_unique)
        ⊎ (switched.active ≡ (failover_with 2).backup_unique))
    × ((evaluate working (λ x. true) 5 (failover_with 2) (runtime "b" 0)).1
        ≡ activated "stage" switched.active ∷ [])
unfolding evaluate switch
evaluate-activates_example =
    evaluate-activates working (λ x. true) 5 (failover_with 2) (runtime "b" 0) (λ e. cc)

-- The primary of the failover was renamed from "old" while it was active.
stale_active-stuck_example :
    ((observed (failover_with 2) (outage times nothing_connected) (runtime "old" 0)).0.active
      ≡ "old")
    × ((observed (failover_with 2) (outage times nothing_connected) (runtime "old" 0)).1 ≡ [])
stale_active-stuck_example =
    stale_active-stuck (failover_with 2) (outage times nothing_connected) (runtime "old" 0)
      (λ e. cc) (λ e. cc)

abbrev threshold_spec : ℕ → OutputFailoverSpec
threshold_spec n = record {
  name = "stage";
  primary_unique = "a";
  backup_unique = "b";
  policy = FailoverPolicy.automatic;
  threshold_seconds = pos n;
  enabled = true;
}

threshold-overflow_example :
    (down_for_threshold (failover_with 10000000000) 7 7 ≡ true)
    × (validate_spec (threshold_spec 10000000000) ≡ ok (threshold_spec 10000000000))
unfolding validate_spec trim_space
threshold-overflow_example =
    threshold-overflow (failover_with 10000000000) 10000000000 7 7 (threshold_spec 2)
      (threshold_spec 2) refl (omega arith) (omega arith) (omega arith) refl

abbrev monitor : Monitor
monitor = record { running = true; runtime = no_runtime }

abbrev states : List OutputState
states = record { unique = "a"; connected = false } ∷ record { unique = "b"; connected = true } ∷ []

abbrev failovers : List OutputFailover
failovers = failover_with 2 ∷ []

tick-decides_example :
    All
      (λ f.
        (tick working (some states) 5 failovers monitor).0.runtime f.id
        ≡ some (decided working (connected_by states) 5 f (monitor.runtime f.id)))
      (enabled_failovers failovers)
tick-decides_example = tick-decides working states 5 failovers monitor (refl, tt)

abbrev spec : OutputFailoverSpec
spec = record {
  name = " stage ";
  primary_unique = "a";
  backup_unique = "b";
  policy = FailoverPolicy.unset;
  threshold_seconds = pos 5;
  enabled = true;
}

abbrev changes : List Change
changes = create_failover "f1" 3 spec ∷ enable_failover "f1" 4 false ∷ delete_failover "f2" ∷ []

after_changes-IsFailover_example : All IsFailover (after_changes changes empty_data).failovers
after_changes-IsFailover_example = after_changes-IsFailover changes empty_data tt
