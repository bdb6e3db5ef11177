-- ===== src/HealthPolicies.antt =====
-- management/health_policy.go: `HealthPolicyService` and `RetriesExceeded`. Each operation is the
-- callback of `Store.Update` that it runs, after its checks. The skip decisions stand in Scheduler.
pub mod Invariant
use kplayer_go.Prelude.{
  ℕ, zero, suc, String, Bool, true, false, not, ◌&&◌, Option, none, some, List, str_eq,
  if◌then◌else◌,
}
use kplayer_go.Prelude.Int.{ℤ, pos, negsuc, leb_ℤ}
use kplayer_go.Prelude.Text.{trim_space, less_text}
use kplayer_go.Model.{Data, HealthPolicy}
use kplayer_go.Model.Err.{not_found, invalid}
use kplayer_go.Result.{Result, ok, err, Txn, refuse, check, ◌>>◌, ◌>>=◌}
use kplayer_go.Collection.{find, has_id}
use kplayer_go.Ordering.{sort_by}
use kplayer_go.Catalog.{add, replace, change, setting, remove, within}

pub record HealthPolicySpec : Type 0 where
  pub name : String
  pub max_retries : ℤ
  pub retry_window_seconds : ℤ
  pub auto_skip_on_failure : Bool
  pub enabled : Bool

abbrev pub default_max_retries : ℤ
default_max_retries = pos 3

abbrev pub default_retry_window_seconds : ℤ
default_retry_window_seconds = pos 60

-- A zero is replaced by the default, a negative number refused.
abbrev pub or_default : ℤ → ℤ → Result ℤ
or_default default (pos zero) = ok default
or_default default (pos (suc n)) = ok (pos (suc n))
or_default default (negsuc n) = err invalid

-- `normalizeHealthPolicySpec`
unfoldable pub normalize_spec : HealthPolicySpec → Result HealthPolicySpec
normalize_spec spec =
    let name = trim_space spec.name in
    (do
      refuse (str_eq name "") invalid
      retries ← or_default default_max_retries spec.max_retries
      window ← or_default default_retry_window_seconds spec.retry_window_seconds
      ok (record spec { name = name; max_retries = retries; retry_window_seconds = window }))

abbrev pub id_of : HealthPolicy → String
id_of p = p.id

abbrev pub name_of : HealthPolicy → String
name_of p = p.name

abbrev pub in_policies {ℓ} : {A : Type ℓ} → Data → Txn (List HealthPolicy) A → Txn Data A
in_policies d = within (λ ps. record d { health_policies = ps })

-- `List` and `Get`
unfoldable pub list : Data → List HealthPolicy
list d = sort_by (λ (a b : HealthPolicy). less_text a.name b.name) d.health_policies

unfoldable pub get : String → Data → Result HealthPolicy
get id d = elim (find (has_id id_of id) d.health_policies) [ none ↦ err not_found | some p ↦ ok p ]

abbrev pub new_policy : String → ℕ → HealthPolicySpec → HealthPolicy
new_policy id now s = record {
  id = id;
  name = s.name;
  max_retries = s.max_retries;
  retry_window_seconds = s.retry_window_seconds;
  auto_skip_on_failure = s.auto_skip_on_failure;
  enabled = s.enabled;
  created_at = now;
  updated_at = now;
}

-- `Create`
unfoldable pub create : String → ℕ → HealthPolicySpec → Data → Txn Data HealthPolicy
unfolding normalize_spec
create id now spec d =
    check (normalize_spec spec)
      λ s. in_policies d (add id_of name_of (new_policy id now s) d.health_policies)

abbrev pub configured : HealthPolicySpec → ℕ → HealthPolicy → HealthPolicy
configured s now p = record p {
  name = s.name;
  max_retries = s.max_retries;
  retry_window_seconds = s.retry_window_seconds;
  auto_skip_on_failure = s.auto_skip_on_failure;
  enabled = s.enabled;
  updated_at = now;
}

-- `Update`
unfoldable pub update : String → ℕ → HealthPolicySpec → Data → Txn Data HealthPolicy
unfolding normalize_spec
update id now spec d =
    check (normalize_spec spec)
      λ s. in_policies d (replace id_of name_of id s.name (configured s now) d.health_policies)

abbrev pub stamped : ℕ → HealthPolicy → HealthPolicy
stamped now p = record p { updated_at = now }

-- `SetEnabled`
unfoldable pub set_enabled : String → ℕ → Bool → Data → Txn Data (Unit {0})
set_enabled id now enabled d = in_policies d (
    change id_of id (stamped now) (setting (λ p. record p { enabled = enabled })) d.health_policies)

-- `Delete`
unfoldable pub delete : String → Data → Txn Data (Unit {0})
delete id d = in_policies d (remove id_of id d.health_policies)

-- `RetriesExceeded`; `none` is a nil policy.
unfoldable pub retries_exceeded : Option HealthPolicy → ℤ → Bool
retries_exceeded none attempts = false
retries_exceeded (some p) attempts = p.enabled && leb_ℤ p.max_retries attempts
