-- ===== src/CacheTasks.antt =====
-- management/cache_task.go: `CacheTaskService`. Each operation is the callback of `Store.Update`
-- that it runs, after its checks; `now` is what `time.Now()` gives, which one call may ask twice.
pub mod Completion
use kplayer_go.Prelude.{
  ℕ, String, Bool, true, false, not, Option, none, some, List, [], ◌∷◌, ◌++◌, str_eq, if◌then◌else◌,
}
use kplayer_go.Prelude.Lists.{count}
use kplayer_go.Prelude.Text.{trim_space, is_blank}
use kplayer_go.Model.{Data, CacheTask, CacheStatus}
use kplayer_go.Model.Err.{not_found, invalid}
use kplayer_go.Result.{Result, ok, err, Txn, commit, fail, refuse, check, ◌>>◌}
use kplayer_go.Collection.{find, put_first, has_id}
use kplayer_go.Ordering.{sort_by, newer}
use kplayer_go.Playlist.{resolve_media}
use kplayer_go.Catalog.{change, remove, within}

pub record CacheTaskSpec : Type 0 where
  pub media_id : String
  pub note : String
  pub status : CacheStatus

-- `IsTerminal`
abbrev pub is_terminal : CacheStatus → Bool
is_terminal CacheStatus.done = true
is_terminal CacheStatus.failed = true
is_terminal _ = false

-- `validateCacheStatus`
abbrev pub known_status : CacheStatus → Bool
known_status CacheStatus.pending = true
known_status CacheStatus.running = true
known_status CacheStatus.done = true
known_status CacheStatus.failed = true
known_status _ = false

abbrev pub default_status : CacheStatus → CacheStatus
default_status CacheStatus.unset = CacheStatus.pending
default_status s = s

-- `validateCacheTaskSpec`
unfoldable pub validate_spec : CacheTaskSpec → Result (Unit {0})
validate_spec s = do
  refuse (is_blank s.media_id) invalid
  refuse (not (known_status s.status)) invalid
  ok tt

abbrev pub trimmed : CacheTaskSpec → CacheTaskSpec
trimmed s = record s { media_id = trim_space s.media_id; status = default_status s.status }

abbrev pub completed : ℕ → Option ℕ → Option ℕ
completed now none = some now
completed now (some t) = some t

-- `syncCacheCompletedAt`
abbrev pub sync_completed_at : ℕ → CacheTask → CacheTask
sync_completed_at now t = record t {
  completed_at = if is_terminal t.status then completed now t.completed_at else none;
}

abbrev pub id_of : CacheTask → String
id_of t = t.id

abbrev pub in_tasks {ℓ} : {A : Type ℓ} → Data → Txn (List CacheTask) A → Txn Data A
in_tasks d = within (λ ts. record d { cache_tasks = ts })

-- `List` and `Get`
unfoldable pub list : Data → List CacheTask
list d = sort_by (newer (λ (t : CacheTask). t.created_at) (λ t. t.id)) d.cache_tasks

unfoldable pub get : String → Data → Result CacheTask
get id d = elim (find (has_id id_of id) d.cache_tasks) [ none ↦ err not_found | some t ↦ ok t ]

abbrev pub new_task : String → ℕ → CacheTaskSpec → CacheTask
new_task id now s = record {
  id = id;
  media_id = s.media_id;
  status = s.status;
  note = s.note;
  created_at = now;
  updated_at = now;
  completed_at = none;
}

-- `Create`
unfoldable pub create : String → ℕ → CacheTaskSpec → Data → Txn Data CacheTask
unfolding validate_spec resolve_media
create id now spec d =
    let s = trimmed spec in
    let t = sync_completed_at now (new_task id now s) in
    check (validate_spec s) λ _.
      check (resolve_media d s.media_id)
        λ _. commit (record d { cache_tasks = d.cache_tasks ++ t ∷ [] }) t

abbrev pub configured : CacheTaskSpec → ℕ → CacheTask → CacheTask
configured s now t =
    let u : CacheTask = record t { media_id = s.media_id; note = s.note; status = s.status } in
    record (sync_completed_at now u) { updated_at = now }

abbrev pub put_task : String → CacheTask → Data → Data
put_task id t d = record d { cache_tasks = put_first (has_id id_of id) t d.cache_tasks }

-- `Update`
unfoldable pub update : String → ℕ → CacheTaskSpec → Data → Txn Data CacheTask
unfolding validate_spec resolve_media
update id now spec d =
    let s = trimmed spec in
    check (validate_spec s) λ _. elim (find (has_id id_of id) d.cache_tasks) [
      | none ↦ fail not_found
      | some t ↦
          check (resolve_media d s.media_id)
            λ _. commit (put_task id (configured s now t) d) (configured s now t)
    ]

-- `Delete`
unfoldable pub delete : String → Data → Txn Data (Unit {0})
delete id d = in_tasks d (remove id_of id d.cache_tasks)

abbrev pub stamped : ℕ → CacheTask → CacheTask
stamped now t = record t { updated_at = now }

-- `transition`
unfoldable pub transition : String → ℕ → (CacheTask → CacheTask) → Data → Txn Data CacheTask
transition id now fn d =
    in_tasks d
      (change id_of id (stamped now) (λ t. commit (fn t) (stamped now (fn t))) d.cache_tasks)

-- `MarkRunning`, `MarkDone` and `MarkFailed`
unfoldable pub mark_running : String → ℕ → Data → Txn Data CacheTask
unfolding transition
mark_running id now =
    transition id now (λ t. record t { status = CacheStatus.running; completed_at = none })

unfoldable pub mark_done : String → ℕ → Data → Txn Data CacheTask
unfolding transition
mark_done id now =
    transition id now (λ t. record t { status = CacheStatus.done; completed_at = some now })

unfoldable pub mark_failed : String → ℕ → String → Data → Txn Data CacheTask
unfolding transition
mark_failed id now note = transition id now (λ t. record t {
  status = CacheStatus.failed;
  completed_at = some now;
  note = if str_eq note "" then t.note else note;
})

abbrev pub is_status : CacheStatus → CacheStatus → Bool
is_status CacheStatus.pending CacheStatus.pending = true
is_status CacheStatus.running CacheStatus.running = true
is_status CacheStatus.done CacheStatus.done = true
is_status CacheStatus.failed CacheStatus.failed = true
is_status _ _ = false

-- `CountByStatus`
unfoldable pub count_by_status : CacheStatus → Data → ℕ
count_by_status s d = count (λ (t : CacheTask). is_status s t.status) d.cache_tasks
