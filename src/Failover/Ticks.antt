-- ===== src/Failover/Ticks.antt =====
-- A whole tick of the monitor of management/failover.go: every enabled failover is decided on its
-- own, in whichever order the map of them is traversed.
use kplayer_go.Prelude.{
  ℕ, ◌≡◌, refl, String, Bool, true, false, Option, some, List, [], ◌∷◌, arith, str_eq, eq_iff,
}
use kplayer_go.Prelude.Lists.{any, All, All-mono, All-none, All-both}
use kplayer_go.Model.{OutputFailover}
use kplayer_go.Failover.Monitor.{
  Runtime, Switcher, evaluate, OutputState, Monitor, tick, evaluate_all, connected_by,
  runtime_or_new, set_runtime, enabled_failovers,
}

-- No two failovers share an id.
abbrev pub DistinctIds : List OutputFailover → Type 0
DistinctIds [] = Unit
DistinctIds (f ∷ fs) = (any (λ g. str_eq g.id f.id) fs ≡ false) × DistinctIds fs

module _ (sw : Switcher) (connected : String → Bool) (now : ℕ) where
  -- The decision on one failover, from what is recorded in the map.
  abbrev pub decided : OutputFailover → Option Runtime → Runtime
  decided f r = (evaluate sw connected now f (runtime_or_new f r)).0

  evaluate_all-others :
      (fs : List OutputFailover) (m : String → Option Runtime) (id : String)
      → any (λ g. str_eq g.id id) fs ≡ false
      → (evaluate_all sw connected now fs m).0 id ≡ m id
  unfolding evaluate_all
  evaluate_all-others [] m id h = refl
  evaluate_all-others (f ∷ fs) m id h =
      let rest =
        evaluate_all-others fs (set_runtime f.id (decided f (m f.id)) m) id (ground (arith, h)) in
      ground (arith, h, rest, eq_iff f.id id, eq_iff id f.id)

  evaluate_all-each :
      (fs : List OutputFailover) (m : String → Option Runtime)
      → DistinctIds fs
      → All (λ f. (evaluate_all sw connected now fs m).0 f.id ≡ some (decided f (m f.id))) fs
  unfolding evaluate_all
  evaluate_all-each [] m d = tt
  evaluate_all-each (f ∷ fs) m d =
      let m' = set_runtime f.id (decided f (m f.id)) m in
      let rest = evaluate_all-each fs m' d.1 in
      let first = evaluate_all-others fs m' f.id d.0 in
      (
        ground (arith, first, eq_iff f.id f.id),
        All-both _ _ _ (λ g (other : str_eq g.id f.id ≡ false) own. ground (arith, other, own)) fs
            (All-none _ fs d.0) rest,
      )

any_self : (fs : List OutputFailover) → All (λ f. any (λ g. str_eq g.id f.id) fs ≡ true) fs
any_self [] = tt
any_self (f ∷ fs) =
    (ground (arith, eq_iff f.id f.id), All-mono _ _ (λ g h. ground (arith, h)) fs (any_self fs))

-- After a tick with a report, every enabled failover holds the decision made from its own entry of
-- the map before the tick, whatever the other failovers are and wherever it stands among them, if
-- no two of them share an id.
pub tick-decides :
    (sw : Switcher) (states : List OutputState) (now : ℕ) (fs : List OutputFailover) (m : Monitor)
    → DistinctIds (enabled_failovers fs)
    → All
        (λ f.
          (tick sw (some states) now fs m).0.runtime f.id
          ≡ some (decided sw (connected_by states) now f (m.runtime f.id)))
        (enabled_failovers fs)
unfolding tick
tick-decides sw states now fs m d =
    let live = enabled_failovers fs in
    All-both _ _ _ (λ f here own. ground (arith, here, own)) live (any_self live)
      (evaluate_all-each sw (connected_by states) now live m.runtime d)
