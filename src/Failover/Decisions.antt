-- ===== src/Failover/Decisions.antt =====
-- What the decisions of the monitor of management/failover.go amount to, over any run of ticks.
use kplayer_go.Prelude.{
  ℕ, ◌*◌, ◌-◌, ◌+◌, ◌≤◌, ◌≡◌, ◌≢◌, refl, String, Bool, true, false, none, some, List, [], ◌∷◌, ◌++◌,
  arith, eq_iff, ◌⊎◌, inl, inr, Bool-cases, if◌then◌else◌, leb, ap, sym, ◌∙◌,
}
use kplayer_go.Prelude.Lists.{any, All}
use kplayer_go.Prelude.Int.{pos, negsuc, seconds, time_sub, nanos_per_second, int64_max, u64_mod}
use kplayer_go.Model.{OutputFailover}
use kplayer_go.Result.{ok}
use kplayer_go.Failover.{OutputFailoverSpec, normalized, validate_spec}
use kplayer_go.Failover.Monitor.{
  Runtime, Switcher, Report, switch, evaluate, down_since, down_for_threshold, activated,
}

-- One tick as a failover sees it: which outputs are connected, when, and what the switcher does.
pub record Observation : Type 0 where
  pub connected : String → Bool
  pub at : ℕ
  pub switcher : Switcher

-- The runtime after a run of ticks, and everything reported by them.
abbrev pub observed : OutputFailover → List Observation → Runtime → Runtime × List Report
observed f [] rt = (rt, [])
observed f (o ∷ os) rt =
    let (rt', out) = evaluate o.switcher o.connected o.at f rt in
    let (rt'', rest) = observed f os rt' in (rt'', out ++ rest)

-- Whether the switcher activates a target; a nil switcher activates nothing.
abbrev pub accepts : Switcher → String → Bool
accepts none target = false
accepts (some works) target = works target

switch-activates :
    (sw : Switcher) (now : ℕ) (f : OutputFailover) (target : String) (rt : Runtime)
    → (switch sw now f target rt).0.active ≢ rt.active
    → (accepts sw (switch sw now f target rt).0.active ≡ true)
      × ((switch sw now f target rt).0.active ≡ target)
      × ((switch sw now f target rt).1 ≡ activated f.name (switch sw now f target rt).0.active ∷ [])
unfolding switch
switch-activates none now f target rt h = absurd (h refl)
switch-activates (some works) now f target rt h =
    (ground (arith, h), ground (arith, h), ground (arith, h))

-- The output that is recorded as active changes only if there is a switcher and its activation of
-- the new output succeeds. The new output is then the primary or the backup of the failover, and
-- its activation is all that the decision reports.
pub evaluate-activates :
    (sw : Switcher) (connected : String → Bool) (now : ℕ) (f : OutputFailover) (rt : Runtime)
    → (evaluate sw connected now f rt).0.active ≢ rt.active
    → (accepts sw (evaluate sw connected now f rt).0.active ≡ true)
      × (((evaluate sw connected now f rt).0.active ≡ f.primary_unique)
          ⊎ ((evaluate sw connected now f rt).0.active ≡ f.backup_unique))
      × ((evaluate sw connected now f rt).1
          ≡ activated f.name (evaluate sw connected now f rt).0.active ∷ [])
unfolding evaluate
evaluate-activates sw connected now f rt h =
    let back = switch-activates sw now f f.primary_unique (record rt { primary_down_since = 0 }) in
    let over =
      switch-activates sw now f f.backup_unique
        (record rt { primary_down_since = down_since now rt }) in
    elim (Bool-cases (connected f.primary_unique)) [
      | inl c ↦
          (ground (arith, h, c, back), inl (ground (arith, h, c, back)), ground (arith, h, c, back))
      | inr c ↦
          (ground (arith, h, c, over), inr (ground (arith, h, c, over)), ground (arith, h, c, over))
    ]

evaluate-stale :
    (sw : Switcher) (connected : String → Bool) (now : ℕ) (f : OutputFailover) (rt : Runtime)
    → rt.active ≢ f.primary_unique
    → rt.active ≢ f.backup_unique
    → ((evaluate sw connected now f rt).0.active ≡ rt.active)
      × ((evaluate sw connected now f rt).1 ≡ [])
unfolding evaluate
evaluate-stale sw connected now f rt p b = (
  ground (arith, p, b, eq_iff rt.active f.primary_unique, eq_iff rt.active f.backup_unique),
  ground (arith, p, b, eq_iff rt.active f.primary_unique, eq_iff rt.active f.backup_unique),
)

-- A failover whose recorded active output is neither its primary nor its backup never switches
-- again: no run of ticks, whatever is connected, changes what is recorded or reports anything.
pub stale_active-stuck :
    (f : OutputFailover) (os : List Observation) (rt : Runtime)
    → rt.active ≢ f.primary_unique
    → rt.active ≢ f.backup_unique
    → ((observed f os rt).0.active ≡ rt.active) × ((observed f os rt).1 ≡ [])
stale_active-stuck f [] rt p b = (refl, refl)
stale_active-stuck f (o ∷ os) rt p b =
    let (same, silent) = evaluate-stale o.switcher o.connected o.at f rt p b in
    let rt' = (evaluate o.switcher o.connected o.at f rt).0 in
    let (same', silent') =
      stale_active-stuck f os rt' (λ e. p (sym same ∙ e)) (λ e. b (sym same ∙ e)) in
    (same' ∙ same, cc)

-- A run of ticks that find the primary disconnected, with a switcher that works.
abbrev pub outage : List ℕ → (String → Bool) → List Observation
outage [] connected = []
outage (t ∷ ts) connected =
    record { connected = connected; at = t; switcher = some (λ x. true) } ∷ outage ts connected

-- The product of the seconds does not overflow.
seconds-small :
    (n : ℕ) → n * nanos_per_second ≤ int64_max → seconds (pos n) ≡ pos (n * nanos_per_second)
unfolding seconds
seconds-small n h = ground (arith, h)

down_for_threshold-leb :
    (f : OutputFailover) (n now since : ℕ)
    → f.threshold_seconds ≡ pos n
    → n * nanos_per_second ≤ int64_max
    → since ≤ now
    → down_for_threshold f now since ≡ leb (since + n * nanos_per_second) now
unfolding down_for_threshold time_sub
down_for_threshold-leb f n now since s h le =
    ground (arith, ap seconds s ∙ seconds-small n h, h, le)

-- One tick of an outage while the primary is recorded as active.
outage-tick :
    (f : OutputFailover) (connected : String → Bool) (t : ℕ) (rt : Runtime)
    → connected f.primary_unique ≡ false
    → rt.active ≡ f.primary_unique
    → rt.primary_down_since ≢ 0
    → (evaluate (some (λ x. true)) connected t f rt).0 ≡ (
        if down_for_threshold f t rt.primary_down_since
        then record { active = f.backup_unique; switched_at = t; primary_down_since = 0 }
        else rt)
unfolding evaluate switch
outage-tick f connected t rt c a z = ground (arith, c, a, z, eq_iff rt.active f.primary_unique)

on_backup-stays :
    (f : OutputFailover) (connected : String → Bool) (ts : List ℕ) (rt : Runtime)
    → connected f.primary_unique ≡ false
    → rt.active ≢ f.primary_unique
    → (observed f (outage ts connected) rt).0 ≡ rt
unfolding evaluate
on_backup-stays f connected [] rt c a = refl
on_backup-stays f connected (t ∷ ts) rt c a =
    let same : (evaluate (some (λ x. true)) connected t f rt).0 ≡ rt =
      ground (arith, c, a, eq_iff rt.active f.primary_unique) in
    ap (λ r. (observed f (outage ts connected) r).0) same ∙ on_backup-stays f connected ts rt c a

-- An outage of the primary that was first seen at an instant, not Go's zero time: after any ticks,
-- none earlier than that, the backup is recorded as active exactly if one of them came at least the
-- threshold after it, and the primary otherwise. Primary and backup differ, the switcher works, and
-- the threshold fits in a `time.Duration`.
pub outage-switches :
    (f : OutputFailover) (n : ℕ) (connected : String → Bool) (ts : List ℕ) (rt : Runtime)
    → f.threshold_seconds ≡ pos n
    → n * nanos_per_second ≤ int64_max
    → f.backup_unique ≢ f.primary_unique
    → connected f.primary_unique ≡ false
    → rt.active ≡ f.primary_unique
    → rt.primary_down_since ≢ 0
    → All (λ t. rt.primary_down_since ≤ t) ts
    → (observed f (outage ts connected) rt).0.active ≡ (
        if any (λ t. leb (rt.primary_down_since + n * nanos_per_second) t) ts
        then f.backup_unique
        else f.primary_unique)
outage-switches f n connected [] rt s small d c a z later = a
outage-switches f n connected (t ∷ ts) rt s small d c a z later =
    let due = down_for_threshold-leb f n t rt.primary_down_since s small later.0 in
    let step = outage-tick f connected t rt c a z in
    let after = λ (r : Runtime). (observed f (outage ts connected) r).0.active in
    let switched : Runtime = record {
      active = f.backup_unique;
      switched_at = t;
      primary_down_since = 0;
    } in
    elim (Bool-cases (leb (rt.primary_down_since + n * nanos_per_second) t)) [
      | inl e ↦
          let now_on_backup : (evaluate (some (λ x. true)) connected t f rt).0 ≡ switched =
            ground (arith, e, due, step) in
          let stays =
            ap (λ (r : Runtime). r.active) (on_backup-stays f connected ts switched c d) in
          ground (arith, e, ap after now_on_backup ∙ stays)
      | inr e ↦
          let unchanged : (evaluate (some (λ x. true)) connected t f rt).0 ≡ rt =
            ground (arith, e, due, step) in
          let rest = outage-switches f n connected ts rt s small d c a z later.1 in
          ground (arith, e, ap after unchanged ∙ rest)
    ]

seconds-overflow :
    (n : ℕ)
    → 9223372037 ≤ n
    → n ≤ 18446744073
    → seconds (pos n) ≡ negsuc (u64_mod - 1 - n * nanos_per_second)
unfolding seconds
seconds-overflow n lo hi = ground (arith, lo, hi)

-- A threshold of 9223372037 to 18446744073 seconds overflows `time.Duration` to a negative length:
-- it is reached by every tick that is no earlier than the first sight of the outage, so also by
-- that first tick itself. The checks of a spec accept it: a spec that they accept is accepted with
-- this threshold too.
pub threshold-overflow :
    (f : OutputFailover) (n now since : ℕ) (spec accepted : OutputFailoverSpec)
    → f.threshold_seconds ≡ pos n
    → 9223372037 ≤ n
    → n ≤ 18446744073
    → since ≤ now
    → validate_spec spec ≡ ok accepted
    → (down_for_threshold f now since ≡ true)
      × (validate_spec (record spec { threshold_seconds = pos n })
          ≡ ok (record accepted { threshold_seconds = pos n }))
unfolding down_for_threshold time_sub validate_spec
threshold-overflow f n now since spec accepted s lo hi le v =
    let m = normalized spec in
    let same : m ≡ accepted = ground (arith, v) in
    let raised : validate_spec (record spec { threshold_seconds = pos n })
        ≡ ok (record m { threshold_seconds = pos n }) =
      ground (arith, v, lo) in
    (
      ground (arith, ap seconds s ∙ seconds-overflow n lo hi, lo, hi, le),
      raised ∙ ap (λ (x : OutputFailoverSpec). ok (record x { threshold_seconds = pos n })) same,
    )
