-- ===== src/Failover/Specs.antt =====
-- The operations on output failovers of management/failover.go keep every one of them well formed.
use kplayer_go.Prelude.{
  ℕ, ◌≡◌, ◌≢◌, refl, String, Bool, true, some, List, [], ◌∷◌, ◌++◌, arith, eq_iff, inl, inr,
  Option-cases,
}
use mathlib.Core.Path.{subst}
use kplayer_go.Prelude.Int.{ℤ, pos, ◌≤ℤ◌}
use kplayer_go.Prelude.Lists.{All, All-append}
use kplayer_go.Model.{Data, OutputFailover, FailoverPolicy}
use kplayer_go.Result.{ok, Txn, commit, keep, fail, check-commit}
use kplayer_go.Collection.{find, cut_first}
use kplayer_go.Collection.Laws.{All-put_first, All-cut_first, All-find}
use kplayer_go.Failover
use kplayer_go.Failover.{
  OutputFailoverSpec, known_policy, failover_id, new_failover, put_failover, on_failover,
  configured, validate_spec, normalized,
}

-- The fields that a failover shares with its spec, as the checks want them.
pub record IsPair (name primary backup : String) (policy : FailoverPolicy) (threshold : ℤ)
    : Type 0 where
  pub named : name ≢ ""
  pub primary_set : primary ≢ ""
  pub backup_set : backup ≢ ""
  pub differ : primary ≢ backup
  pub policed : known_policy policy ≡ true
  pub positive : pos 1 ≤ℤ threshold

abbrev pub IsFailover : OutputFailover → Type 0
IsFailover f = IsPair f.name f.primary_unique f.backup_unique f.policy f.threshold_seconds

pub validate_spec-IsPair :
    (s n : OutputFailoverSpec)
    → validate_spec s ≡ ok n
    → (n ≡ normalized s)
      × IsPair n.name n.primary_unique n.backup_unique n.policy n.threshold_seconds
unfolding validate_spec
validate_spec-IsPair s n h =
    let m = normalized s in
    let same : m ≡ n = ground (arith, h) in
    (
      ground (arith, h),
      subst
          (λ (x : OutputFailoverSpec).
            IsPair x.name x.primary_unique x.backup_unique x.policy x.threshold_seconds)
          same
          (record {
            named = ground (arith, h, eq_iff m.name "");
            primary_set = ground (arith, h, eq_iff m.primary_unique "");
            backup_set = ground (arith, h, eq_iff m.backup_unique "");
            differ = ground (arith, h, eq_iff m.primary_unique m.backup_unique);
            policed = ground (arith, h);
            positive = ground (arith, h);
          }),
    )

-- A commit after which every failover is well formed.
abbrev pub CommitsGood {ℓ} : {A : Type ℓ} → Txn Data A → Type ℓ
CommitsGood {A} t = (e : Data) (a : A) → t ≡ commit e a → All IsFailover e.failovers

on_failover-good {ℓ} :
    {A : Type ℓ} (id : String) (d : Data) (k : OutputFailover → Txn Data A)
    → ((f : OutputFailover) → find (failover_id id) d.failovers ≡ some f → CommitsGood (k f))
    → CommitsGood (on_failover id d k)
on_failover-good id d k g e a c = elim (Option-cases (find (failover_id id) d.failovers)) [
  | inl n ↦ absurd (ground (arith, n, c))
  | inr (t, f) ↦ g t f e a (ground (arith, f, c))
]

put_failover-good :
    (id : String) (d : Data) (f : OutputFailover) (e : Data)
    → All IsFailover d.failovers
    → IsFailover f
    → put_failover id f d ≡ e
    → All IsFailover e.failovers
put_failover-good id d f e h g same =
    subst (λ (x : Data). All IsFailover x.failovers) same
      (All-put_first (failover_id id) IsFailover f d.failovers h g)

create-good :
    (id : String) (now : ℕ) (spec : OutputFailoverSpec) (d : Data)
    → All IsFailover d.failovers
    → CommitsGood (Failover.create id now spec d)
unfolding Failover.create
create-good id now spec d h e a c =
    let (n, valid, c1) = check-commit (validate_spec spec) _ c in
    let f = new_failover id now n in
    let same : record d { failovers = d.failovers ++ f ∷ [] } ≡ e = ground (arith, c1) in
    subst (λ (x : Data). All IsFailover x.failovers) same
      (All-append IsFailover d.failovers (f ∷ []) h ((validate_spec-IsPair spec n valid).1, tt))

update-good :
    (id : String) (now : ℕ) (spec : OutputFailoverSpec) (d : Data)
    → All IsFailover d.failovers
    → CommitsGood (Failover.update id now spec d)
unfolding Failover.update
update-good id now spec d h e a c =
    let (n, valid, c1) = check-commit (validate_spec spec) _ c in
    on_failover-good id d _
      (λ f found e' a' c'.
        put_failover-good id d (configured now n f) e' h (validate_spec-IsPair spec n valid).1
          (ground (arith, c')))
      e a c1

set_enabled-good :
    (id : String) (now : ℕ) (enabled : Bool) (d : Data)
    → All IsFailover d.failovers
    → CommitsGood (Failover.set_enabled id now enabled d)
unfolding Failover.set_enabled
set_enabled-good id now enabled d h = on_failover-good id d _ λ f found e a c.
    put_failover-good id d (record f { enabled = enabled; updated_at = now }) e h
      (All-find (failover_id id) IsFailover d.failovers f h found) (ground (arith, c))

delete-good :
    (id : String) (d : Data) → All IsFailover d.failovers → CommitsGood (Failover.delete id d)
unfolding Failover.delete
delete-good id d h = on_failover-good id d _ λ f found e a c.
    let same : record d { failovers = cut_first (failover_id id) d.failovers } ≡ e =
      ground (arith, c) in
    subst (λ (x : Data). All IsFailover x.failovers) same
      (All-cut_first (failover_id id) IsFailover d.failovers h)

-- The operations on output failovers.
pub data Change : Type 0 where
  create_failover update_failover : String → ℕ → OutputFailoverSpec → Change
  enable_failover : String → ℕ → Bool → Change
  delete_failover : String → Change

abbrev pub outcome {ℓ} : {A : Type ℓ} → Data → Txn Data A → Data
outcome d (commit e a) = e
outcome d (keep a) = d
outcome d (fail x) = d

pub after_change : Change → Data → Data
after_change (create_failover id now spec) d = outcome d (Failover.create id now spec d)
after_change (update_failover id now spec) d = outcome d (Failover.update id now spec d)
after_change (enable_failover id now enabled) d = outcome d (Failover.set_enabled id now enabled d)
after_change (delete_failover id) d = outcome d (Failover.delete id d)

outcome-good {ℓ} :
    {A : Type ℓ} (d : Data) (t : Txn Data A)
    → All IsFailover d.failovers
    → CommitsGood t
    → All IsFailover (outcome d t).failovers
outcome-good d (commit e a) h g = g e a refl
outcome-good d (keep a) h g = h
outcome-good d (fail x) h g = h

after_change-good :
    (c : Change) (d : Data)
    → All IsFailover d.failovers
    → All IsFailover (after_change c d).failovers
unfolding after_change
after_change-good (create_failover id now spec) d h =
    outcome-good d _ h (create-good id now spec d h)
after_change-good (update_failover id now spec) d h =
    outcome-good d _ h (update-good id now spec d h)
after_change-good (enable_failover id now enabled) d h =
    outcome-good d _ h (set_enabled-good id now enabled d h)
after_change-good (delete_failover id) d h = outcome-good d _ h (delete-good id d h)

pub after_changes : List Change → Data → Data
after_changes [] d = d
after_changes (c ∷ cs) d = after_changes cs (after_change c d)

-- However the operations on output failovers follow one another, and whichever of them fail, every
-- failover has a name, a known policy, a positive threshold and a primary and a backup that are
-- set and differ, if that held at the start.
pub after_changes-IsFailover :
    (cs : List Change) (d : Data)
    → All IsFailover d.failovers
    → All IsFailover (after_changes cs d).failovers
unfolding after_changes
after_changes-IsFailover [] d h = h
after_changes-IsFailover (c ∷ cs) d h =
    after_changes-IsFailover cs (after_change c d) (after_change-good c d h)
