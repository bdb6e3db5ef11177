-- ===== src/HealthPolicies/Invariant.antt =====
-- The policies of management/health_policy.go stay well-formed under every operation.
use kplayer_go.Prelude.{
  ℕ, zero, suc, ◌≡◌, refl, Bool, true, false, String, List, arith, inl, inr, str_eq,
}
use mathlib.Core.Path.{subst}
use kplayer_go.Prelude.Lists.{any}
use kplayer_go.Prelude.Int.{ℤ, pos, negsuc}
use kplayer_go.Prelude.Text.{trim_space}
use kplayer_go.Model.{Data, HealthPolicy}
use kplayer_go.Result.{ok, Result-cases, outcome, outcome-check}
use kplayer_go.Collection.{has_id}
use kplayer_go.Catalog.Laws.{Kept, add-Holds, replace-Holds, set-Holds, remove-Holds}
use kplayer_go.HealthPolicies.{
  HealthPolicySpec, normalize_spec, or_default, default_max_retries, default_retry_window_seconds,
  id_of, name_of, new_policy, configured, stamped, create, update, set_enabled, delete,
}

abbrev pub is_positive : ℤ → Bool
is_positive (pos (suc n)) = true
is_positive _ = false

-- A policy has a name, and positive limits.
abbrev pub IsPolicy : HealthPolicy → Type 0
IsPolicy p =
    (str_eq p.name "" ≡ false)
    × (is_positive p.max_retries ≡ true)
    × (is_positive p.retry_window_seconds ≡ true)

abbrev pub WellFormed : List HealthPolicy → Type 0
WellFormed = Kept id_of name_of IsPolicy

or_default-is_positive :
    (default z w : ℤ)
    → is_positive default ≡ true
    → or_default default z ≡ ok w
    → is_positive w ≡ true
or_default-is_positive default (pos zero) w h e =
    let same : default ≡ w = ground (arith, e) in subst (λ x. is_positive x ≡ true) same h
or_default-is_positive default (pos (suc n)) w h e =
    let same : pos (suc n) ≡ w = ground (arith, e) in subst (λ x. is_positive x ≡ true) same refl
or_default-is_positive default (negsuc n) w h e = cc

normalize_spec-IsPolicy :
    (spec s : HealthPolicySpec) (id : String) (now : ℕ)
    → normalize_spec spec ≡ ok s
    → IsPolicy (new_policy id now s)
unfolding normalize_spec
normalize_spec-IsPolicy spec s id now h =
    let name = trim_space spec.name in
    let named : str_eq name "" ≡ false = ground (arith, h) in
    elim (Result-cases (or_default default_max_retries spec.max_retries)) [
      | inr (x, e) ↦ absurd (ground (arith, named, e, h))
      | inl (retries, e) ↦
          elim (Result-cases (or_default default_retry_window_seconds spec.retry_window_seconds)) [
            | inr (x, g) ↦ absurd (ground (arith, named, e, g, h))
            | inl (window, g) ↦
                let t : HealthPolicySpec = record spec {
                  name = name;
                  max_retries = retries;
                  retry_window_seconds = window;
                } in
                let same : t ≡ s = ground (arith, named, e, g, h) in
                subst (λ (x : HealthPolicySpec). IsPolicy (new_policy id now x)) same
                  (
                    named,
                    or_default-is_positive default_max_retries spec.max_retries retries refl e,
                    or_default-is_positive default_retry_window_seconds spec.retry_window_seconds
                        window refl g,
                  )
          ]
    ]

-- The calls that change policies.
pub data Call : Type 0 where
  creating : String → ℕ → HealthPolicySpec → Call
  updating : String → ℕ → HealthPolicySpec → Call
  enabling : String → ℕ → Bool → Call
  deleting : String → Call

pub after_call : Call → Data → Data
after_call (creating id now spec) d = outcome d (create id now spec d)
after_call (updating id now spec) d = outcome d (update id now spec d)
after_call (enabling id now enabled) d = outcome d (set_enabled id now enabled d)
after_call (deleting id) d = outcome d (delete id d)

-- The id that a creation draws is new.
abbrev pub HasNewId : Call → Data → Type 0
HasNewId (creating id now spec) d = any (has_id id_of id) d.health_policies ≡ false
HasNewId _ d = Unit

abbrev put : Data → List HealthPolicy → Data
put d ps = record d { health_policies = ps }

abbrev read : Data → List HealthPolicy
read d = d.health_policies

-- Whatever is called, with whichever outcome, no two health policies share a name or an id
-- afterwards, and every policy has a name and positive limits, if all this was so before and a
-- creation draws a new id.
pub after_policy_call-WellFormed :
    (k : Call) (d : Data)
    → HasNewId k d
    → WellFormed d.health_policies
    → WellFormed (after_call k d).health_policies
unfolding after_call create update set_enabled delete
after_policy_call-WellFormed (creating id now spec) d new good =
    outcome-check (λ (x : Data). WellFormed x.health_policies) d (normalize_spec spec) _ good
      λ s e.
        add-Holds id_of name_of IsPolicy put read (λ d ps. refl) (new_policy id now s) d new
          (normalize_spec-IsPolicy spec s id now e) good
after_policy_call-WellFormed (updating id now spec) d new good =
    outcome-check (λ (x : Data). WellFormed x.health_policies) d (normalize_spec spec) _ good
      λ s e.
        replace-Holds id_of name_of IsPolicy put read (λ d ps. refl) id s.name (configured s now) d
          (λ p. refl) (λ p. refl) (λ p _. normalize_spec-IsPolicy spec s id now e) good
after_policy_call-WellFormed (enabling id now enabled) d new good =
    set-Holds id_of name_of IsPolicy put read (λ d ps. refl) id (stamped now)
      (λ p. record p { enabled = enabled }) d (λ p. refl) (λ p. refl) (λ p k. k) good
after_policy_call-WellFormed (deleting id) d new good =
    remove-Holds id_of name_of IsPolicy put read (λ d ps. refl) id d good
