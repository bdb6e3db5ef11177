-- ===== src/Failover/Monitor.antt =====
-- The monitor of management/failover.go: `FailoverMonitor`, its decision `evaluateLocked`, the
-- switch and the tick. The map of runtime states by failover id is a function; the snapshot of the
-- enabled failovers is the list of the document's, its ids taken to be different, as `newID` makes
-- them, so that no entry of the map hides another. The reader's report and the switcher are
-- parameters: a tick gets the report, and the switcher says for each target whether it fails.
use kplayer_go.Prelude.{
  ℕ, String, Bool, true, false, not, ◌&&◌, Option, none, some, List, [], ◌∷◌, ◌++◌, str_eq,
  if◌then◌else◌,
}
use kplayer_go.Prelude.Lists.{any, select}
use kplayer_go.Prelude.Int.{seconds, time_sub, leb_ℤ, is_zero_time}
use kplayer_go.Model.{OutputFailover, FailoverPolicy}

pub record OutputState : Type 0 where
  pub unique : String
  pub connected : Bool

-- `failoverRuntime`
pub record Runtime : Type 0 where
  pub active : String
  pub switched_at : ℕ
  pub primary_down_since : ℕ

-- `FailoverSwitcher`: whether `ActivateOutput` succeeds for a target; `none` is a nil switcher.
abbrev pub Switcher : Type 0
Switcher = Option (String → Bool)

-- The errors that go to the error handler, and the calls of the switcher that succeed.
pub data Report : Type 0 where
  read_failed : Report
  no_switcher : String → Report
  activate_failed activated : String → String → Report

-- `switchLocked`
unfoldable pub switch : Switcher → ℕ → OutputFailover → String → Runtime → Runtime × List Report
switch none now f target rt = (rt, no_switcher f.name ∷ [])
switch (some works) now f target rt =
    if works target
    then (
      record { active = target; switched_at = now; primary_down_since = 0 },
      activated f.name target ∷ [],
    )
    else (rt, activate_failed f.name target ∷ [])

abbrev pub is_manual : FailoverPolicy → Bool
is_manual FailoverPolicy.manual = true
is_manual _ = false

-- Since when the primary is down, as this tick sees it.
abbrev pub down_since : ℕ → Runtime → ℕ
down_since now rt = if is_zero_time rt.primary_down_since then now else rt.primary_down_since

-- `now.Sub(rt.primaryDownSince) >= time.Duration(f.ThresholdSeconds)*time.Second`
unfoldable pub down_for_threshold : OutputFailover → ℕ → ℕ → Bool
unfolding seconds time_sub
down_for_threshold f now since = leb_ℤ (seconds f.threshold_seconds) (time_sub now since)

-- `evaluateLocked`
unfoldable pub evaluate :
    Switcher → (String → Bool) → ℕ → OutputFailover → Runtime → Runtime × List Report
unfolding switch down_for_threshold
evaluate sw connected now f rt =
    let up = record rt { primary_down_since = 0 } in
    let down = record rt { primary_down_since = down_since now rt } in
    if connected f.primary_unique
    then (if str_eq rt.active f.backup_unique && not (is_manual f.policy)
        then switch sw now f f.primary_unique up
        else (up, []))
    else if str_eq rt.active f.primary_unique
    then (if down_for_threshold f now (down_since now rt)
        then switch sw now f f.backup_unique down
        else (down, []))
    else (rt, [])

-- The map that the loop over the report fills: the last report of an output counts, and an output
-- without one is disconnected.
unfoldable pub connected_by : List OutputState → String → Bool
connected_by [] unique = false
connected_by (s ∷ ss) unique =
    if any (λ r. str_eq r.unique unique) ss
    then connected_by ss unique
    else str_eq s.unique unique && s.connected

-- `FailoverMonitor`
pub record Monitor : Type 0 where
  pub running : Bool
  pub runtime : String → Option Runtime

abbrev pub no_runtime : String → Option Runtime
no_runtime id = none

abbrev pub set_runtime : String → Runtime → (String → Option Runtime) → String → Option Runtime
set_runtime id rt m x = if str_eq x id then some rt else m x

-- The runtime of a failover, which the tick makes when there is none.
abbrev pub runtime_or_new : OutputFailover → Option Runtime → Runtime
runtime_or_new f none = record {
  active = f.primary_unique;
  switched_at = 0;
  primary_down_since = 0;
}
runtime_or_new f (some rt) = rt

-- The loop of `tick` over the enabled failovers.
unfoldable pub evaluate_all :
    Switcher
    → (String → Bool)
    → ℕ
    → List OutputFailover
    → (String → Option Runtime)
    → (String → Option Runtime) × List Report
unfolding evaluate
evaluate_all sw connected now [] m = (m, [])
evaluate_all sw connected now (f ∷ fs) m =
    let (rt, out) = evaluate sw connected now f (runtime_or_new f (m f.id)) in
    let (m', rest) = evaluate_all sw connected now fs (set_runtime f.id rt m) in (m', out ++ rest)

-- `enabledFailovers`
abbrev pub enabled_failovers : List OutputFailover → List OutputFailover
enabled_failovers = select (λ f. f.enabled)

-- The loop that drops the entries of failovers that were removed or disabled.
abbrev pub pruned : List OutputFailover → (String → Option Runtime) → String → Option Runtime
pruned fs m id = if any (λ f. str_eq f.id id) fs then m id else none

-- `tick`: `none` is a report that could not be read.
unfoldable pub tick :
    Switcher → Option (List OutputState) → ℕ → List OutputFailover → Monitor → Monitor × List Report
unfolding evaluate_all connected_by
tick sw none now fs m = (m, read_failed ∷ [])
tick sw (some states) now fs m =
    let live = enabled_failovers fs in
    let (rts, out) = evaluate_all sw (connected_by states) now live m.runtime in
    (record m { runtime = pruned live rts }, out)

-- `Start` (`none` is ErrAlreadyRunning) and `Stop`
unfoldable pub start : Monitor → Option Monitor
start m = if m.running then none else some (record { running = true; runtime = no_runtime })

unfoldable pub stop : Monitor → Monitor
stop m = record m { running = false }
