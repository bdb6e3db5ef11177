-- ===== src/Alarm/Counts.antt =====
-- What the operations of management/alarm.go on many alarms leave behind.
use kplayer_go.Prelude.{
  ℕ, ◌+◌, ◌≡◌, refl, true, false, not, List, [], ◌∷◌, arith, Bool-cases, inl, inr, ◌==◌, ap,
}
use kplayer_go.Prelude.Lists.{any, select, count, length, length-select, count-split}
use kplayer_go.Prelude.Int.{wrap64, ℤ, pos, time_add}
use kplayer_go.Model.{Alarm, Data}
use kplayer_go.Result.{commit}
use kplayer_go.Alarm.{is_active, close_active, resolve_all, prune, expired, neg_ℤ}

close_active_lem :
    (now : ℕ) (others : List Alarm)
    → (count is_active (close_active now others) ≡ 0)
      × (length (close_active now others) ≡ length others)
close_active_lem now [] = (refl, refl)
close_active_lem now (a ∷ others) =
    let (x, y) = close_active_lem now others in
    elim (Bool-cases (is_active a)) [
      | inl e ↦ (ground (arith, e, x), ground (arith, y))
      | inr e ↦ (ground (arith, e, x), ground (arith, y))
    ]

-- `ResolveAll` that changes the document leaves no alarm active, drops none, and reports how many
-- were active.
pub resolve_all-closes :
    (now n : ℕ) (d e : Data)
    → resolve_all now d ≡ commit e n
    → (count is_active e.alarms ≡ 0)
      × (length e.alarms ≡ length d.alarms)
      × (n ≡ count is_active d.alarms)
unfolding resolve_all
resolve_all-closes now n d e h =
    let (x, y) = close_active_lem now d.alarms in
    let same : record d { alarms = close_active now d.alarms } ≡ e = ground (arith, h) in
    (
      ground (arith, ap (λ (z : Data). count is_active z.alarms) same, x),
      ground (arith, ap (λ (z : Data). length z.alarms) same, y),
      ground (arith, h),
    )

select-none :
    (cutoff : ℕ) (others : List Alarm)
    → any (expired cutoff) (select (λ a. not (expired cutoff a)) others) ≡ false
select-none cutoff [] = refl
select-none cutoff (a ∷ others) = ground (arith, select-none cutoff others)

select-active :
    (cutoff : ℕ) (others : List Alarm)
    → count is_active (select (λ a. not (expired cutoff a)) others) ≡ count is_active others
select-active cutoff [] = refl
select-active cutoff (a ∷ others) = ground (arith, select-active cutoff others)

-- `Prune` that changes the document leaves no expired alarm and every active one, and reports how
-- many it removed.
pub prune-removes :
    (now n : ℕ) (older_than : ℤ) (d e : Data)
    → prune now older_than d ≡ commit e n
    → (any (expired (time_add now (wrap64 (neg_ℤ older_than)))) e.alarms ≡ false)
      × (count is_active e.alarms ≡ count is_active d.alarms)
      × (n + length e.alarms ≡ length d.alarms)
unfolding prune
prune-removes now n older_than d e h =
    let cutoff = time_add now (wrap64 (neg_ℤ older_than)) in
    let same : record d { alarms = select (λ a. not (expired cutoff a)) d.alarms } ≡ e =
      ground (arith, h) in
    let counted : count (expired cutoff) d.alarms ≡ n = ground (arith, h) in
    (
      ground (
        arith,
        ap (λ (z : Data). any (expired cutoff) z.alarms) same,
        select-none cutoff d.alarms,
      ),
      ground
          (arith, ap (λ (z : Data). count is_active z.alarms) same, select-active cutoff d.alarms),
      ground (
        arith,
        ap (λ (z : Data). length z.alarms) same,
        counted,
        count-split (expired cutoff) d.alarms,
        length-select (λ a. not (expired cutoff a)) d.alarms,
      ),
    )

count-any :
    (cutoff : ℕ) (others : List Alarm)
    → (count (expired cutoff) others == 0) ≡ not (any (expired cutoff) others)
count-any cutoff [] = refl
count-any cutoff (a ∷ others) = ground (arith, count-any cutoff others)

-- `Prune` with a zero duration, where some alarm was resolved before the present, changes the
-- document and leaves no such alarm.
pub prune-zero :
    (now : ℕ) (d : Data)
    → any (expired now) d.alarms ≡ true
    → (e : Data) × (n : ℕ) × (prune now (pos 0) d ≡ commit e n)
      × (any (expired now) e.alarms ≡ false)
unfolding prune time_add
prune-zero now d h = (
  record d { alarms = select (λ a. not (expired now a)) d.alarms },
  count (expired now) d.alarms,
  ground (arith, count-any now d.alarms, h),
  select-none now d.alarms,
)
