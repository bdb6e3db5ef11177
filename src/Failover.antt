-- ===== src/Failover.antt =====
-- management/failover.go: the output failovers of the document, with the checks of
-- `validateOutputFailoverSpec`. The monitor that runs them is in Failover/Monitor.antt.
pub mod Monitor
pub mod Decisions
pub mod Specs
pub mod Ticks
use kplayer_go.Prelude.{
  ℕ, ◌≡◌, String, Bool, true, false, not, ◌&&◌, none, some, List, [], ◌∷◌, ◌++◌, str_eq,
  if◌then◌else◌,
}
use kplayer_go.Prelude.Lists.{any}
use kplayer_go.Prelude.Text.{trim_space}
use kplayer_go.Prelude.Int.{ℤ, pos, leb_ℤ}
use kplayer_go.Model.{Data, Err, OutputFailover, FailoverPolicy}
use kplayer_go.Result.{Result, ok, err, Txn, commit, keep, fail, refuse, check, ◌>>=◌, ◌>>◌}
use kplayer_go.Collection.{find, put_first, cut_first, has_id}
use Err.{not_found, already_exists, invalid}

pub record OutputFailoverSpec : Type 0 where
  pub name : String
  pub primary_unique : String
  pub backup_unique : String
  pub policy : FailoverPolicy
  pub threshold_seconds : ℤ
  pub enabled : Bool

-- The policy after the default, and whether it is known.
abbrev pub default_policy : FailoverPolicy → FailoverPolicy
default_policy FailoverPolicy.unset = FailoverPolicy.automatic
default_policy p = p

abbrev pub known_policy : FailoverPolicy → Bool
known_policy FailoverPolicy.automatic = true
known_policy FailoverPolicy.manual = true
known_policy _ = false

abbrev pub normalized : OutputFailoverSpec → OutputFailoverSpec
normalized s = record s {
  name = trim_space s.name;
  primary_unique = trim_space s.primary_unique;
  backup_unique = trim_space s.backup_unique;
  policy = default_policy s.policy;
}

-- `validateOutputFailoverSpec`
unfoldable pub validate_spec : OutputFailoverSpec → Result OutputFailoverSpec
validate_spec s =
    let n = normalized s in
    (do
      refuse (str_eq n.name "") invalid
      refuse (str_eq n.primary_unique "") invalid
      refuse (str_eq n.backup_unique "") invalid
      refuse (str_eq n.primary_unique n.backup_unique) invalid
      refuse (not (known_policy n.policy)) invalid
      refuse (leb_ℤ n.threshold_seconds (pos 0)) invalid
      ok n)

abbrev pub failover_id : String → OutputFailover → Bool
failover_id = has_id (λ f. f.id)

abbrev pub new_failover : String → ℕ → OutputFailoverSpec → OutputFailover
new_failover id now s = record {
  id = id;
  name = s.name;
  primary_unique = s.primary_unique;
  backup_unique = s.backup_unique;
  policy = s.policy;
  threshold_seconds = s.threshold_seconds;
  enabled = s.enabled;
  created_at = now;
  updated_at = now;
}

-- `Create`
unfoldable pub create : String → ℕ → OutputFailoverSpec → Data → Txn Data OutputFailover
unfolding validate_spec
create id now spec d = check (validate_spec spec) λ s.
    if any (λ o. str_eq o.name s.name) d.failovers
    then fail already_exists
    else commit (record d { failovers = d.failovers ++ new_failover id now s ∷ [] })
        (new_failover id now s)

abbrev pub put_failover : String → OutputFailover → Data → Data
put_failover id f d = record d { failovers = put_first (failover_id id) f d.failovers }

abbrev pub on_failover {ℓ} :
    {A : Type ℓ} → String → Data → (OutputFailover → Txn Data A) → Txn Data A
on_failover id d k = elim (find (failover_id id) d.failovers) [
  | none ↦ fail not_found
  | some f ↦ k f
]

abbrev pub configured : ℕ → OutputFailoverSpec → OutputFailover → OutputFailover
configured now s f = record f {
  name = s.name;
  primary_unique = s.primary_unique;
  backup_unique = s.backup_unique;
  policy = s.policy;
  threshold_seconds = s.threshold_seconds;
  enabled = s.enabled;
  updated_at = now;
}

-- `Update`
unfoldable pub update : String → ℕ → OutputFailoverSpec → Data → Txn Data OutputFailover
unfolding validate_spec
update id now spec d = check (validate_spec spec) λ s. on_failover id d λ f.
    if any (λ o. not (failover_id id o) && str_eq o.name s.name) d.failovers
    then fail already_exists
    else commit (put_failover id (configured now s f) d) (configured now s f)

-- `SetEnabled`
unfoldable pub set_enabled : String → ℕ → Bool → Data → Txn Data (Unit {0})
set_enabled id now enabled d =
    on_failover id d
      λ f. commit (put_failover id (record f { enabled = enabled; updated_at = now }) d) tt

-- `Delete`
unfoldable pub delete : String → Data → Txn Data (Unit {0})
delete id d =
    on_failover id d
      λ f. commit (record d { failovers = cut_first (failover_id id) d.failovers }) tt
