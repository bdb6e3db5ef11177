-- ===== src/Journals/Audit.antt =====
-- management/audit.go: `AuditService`. Each operation is the callback of `Store.Update` that it
-- runs, after its checks; `now` is what `time.Now()` gives.
use kplayer_go.Prelude.{
  ℕ, String, Bool, true, false, not, ◌&&◌, ◌||◌, List, [], ◌∷◌, ◌++◌, str_eq, if◌then◌else◌,
}
use kplayer_go.Prelude.Lists.{select}
use kplayer_go.Prelude.Int.{ℤ, is_zero_time}
use kplayer_go.Prelude.Text.{is_blank}
use kplayer_go.Model.{Data, AuditEntry, AuditResult}
use kplayer_go.Model.Err.{invalid}
use kplayer_go.Result.{Result, ok, Txn, commit, refuse, check, ◌>>◌}
use kplayer_go.Ordering.{sort_by, newer}
use kplayer_go.Catalog.{within}
use kplayer_go.Journals as Journals

abbrev pub default_result : AuditResult → AuditResult
default_result AuditResult.unset = AuditResult.success
default_result r = r

-- `validateAuditResult`
abbrev pub known_result : AuditResult → Bool
known_result AuditResult.success = true
known_result AuditResult.failure = true
known_result _ = false

-- The entry that `Record` stores, or its refusal.
unfoldable pub prepare : String → ℕ → AuditEntry → Result AuditEntry
prepare id now e =
    let r = default_result e.result in
    (do
      refuse (is_blank e.action) invalid
      refuse (not (known_result r)) invalid
      ok (record e { id = id; result = r; time = if is_zero_time e.time then now else e.time }))

-- `Record`
unfoldable pub record_entry : String → ℕ → AuditEntry → Data → Txn Data AuditEntry
unfolding prepare
record_entry id now entry d =
    check (prepare id now entry) λ e. commit (record d { audit_logs = d.audit_logs ++ e ∷ [] }) e

-- `sortAuditEntries`, `List`
unfoldable pub list : Data → List AuditEntry
list d = sort_by (newer (λ (e : AuditEntry). e.time) (λ e. e.id)) d.audit_logs

pub record AuditFilter : Type 0 where
  pub operator : String
  pub action : String
  pub result : AuditResult

-- A result of the filter, which "" does not constrain.
abbrev pub fits_result : AuditResult → AuditResult → Bool
fits_result AuditResult.unset r = true
fits_result AuditResult.success AuditResult.success = true
fits_result AuditResult.failure AuditResult.failure = true
fits_result (AuditResult.other s) (AuditResult.other t) = str_eq s t
fits_result _ _ = false

abbrev pub fits : AuditFilter → AuditEntry → Bool
fits f e =
    (str_eq f.operator "" || str_eq e.operator f.operator)
    && (str_eq f.action "" || str_eq e.action f.action)
    && fits_result f.result e.result

-- `ListFiltered`
unfoldable pub list_filtered : AuditFilter → Data → List AuditEntry
unfolding list
list_filtered f d = select (fits f) (list d)

-- `Prune`
unfoldable pub prune : ℤ → Data → Txn Data ℕ
prune max_entries d =
    within (λ es. record d { audit_logs = es })
      (Journals.prune (λ (e : AuditEntry). e.time) (λ e. e.id) max_entries d.audit_logs)
