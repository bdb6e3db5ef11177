-- ===== src/Lib.antt =====
-- kplayer-go: the management layer, in package management/. A store keeps one document, a JSON
-- file; services change it in callbacks of `Store.Update`; the scheduler fires tasks of the document
-- at a player, and the failover monitor switches between outputs.
--
-- Model: the document and its entities, with the source's enumerations as data types, a string
--   outside an enumeration being `other`; times are nanoseconds since Go's zero time.
-- Result: `(value, error)`, and the outcomes of a callback of `Store.Update`. Collection: the loops
--   over a collection of entities with ids. Prelude: lists, integers of 64 bits, and text.
-- Store: management/store.go. Disk is `writeFileAtomic` as the sequence of its file operations, so
--   that a crash is a prefix of it; Updates the calls `OpenStore`, `Update`, `Replace`, `Save`.
-- Playlist: management/playlist.go, `PlaylistService`; Fallback is `ResolveWithFallback`, with one
--   round of fuel more than the five hops that it may take.
-- Cron: management/cron.go. Scan has the functions of package strings that the parser calls, on
--   character codes; Next is `Next` over a calendar, a parameter, with as many rounds as there are
--   minutes before the limit and one. The loop over a step has 200 rounds, as no field exceeds 59.
-- Tasks: management/schedule.go, `TaskService`, and `MediaService.Delete` of management/media.go.
--   Integrity is on the references between playlists, tasks and media.
-- MediaLibrary: the other operations of management/media.go; Paths is on adding.
-- Alarm: management/alarm.go, `AlarmService`; Counts is on the operations on many alarms.
-- Failover: management/failover.go, the operations; Monitor is `FailoverMonitor`, with `evaluate`
--   for `evaluateLocked`, `switch` for `switchLocked`, and a tick over a report of the outputs.
-- Scheduler: management/scheduler.go, the operations under the lock; Firing is `fire`, `computeNext`
--   and `tick`; Lifecycle `NewScheduler`, `Start`, `Stop`, `SetPlayer` and `Interrupt`; Runs are
--   sequences of events. A goroutine that plays is an entry of `dispatched`.
--   Waiting is on the play queue as the plays return, Interrupts and Ticks on interrupts.
-- Ordering: `sort.Slice` by a time with ids breaking ties, of which Newest is the part in front.
-- Catalog: what the services of user.go, output_group.go, health_policy.go, node.go, webhook.go,
--   smart_rule.go, config_template.go and scene_template.go do alike to entities with unique names:
--   the callbacks of Create, Update, update and Delete.
-- Users: management/user.go, `UserService`; Hashing has the digests of `hashPassword` and
--   `verifyPassword` over bytes. The 10000 rounds are structural.
-- Sessions: management/auth.go, `SessionService`, `AuthService` and `CanAccess`; Survival is on
--   `evict`, Logins on `Login`, Endurance on a session over later calls.
-- Commands: management/remote_command.go, `RemoteCommandService`; Phases is the abstract life of a
--   command, Lifecycle its refinement, Purge `PurgeTerminal`.
-- HealthPolicies: management/health_policy.go. OutputGroups: management/output_group.go. Nodes:
--   management/node.go, with `InstanceService` in Instances. CacheTasks: management/cache_task.go.
-- ConfigTemplates: management/config_template.go.
-- SceneTemplates: management/scene_template.go. SmartRules: management/smart_rule.go, with
--   management/smart_generate.go in Generation. Suggestions:
--   management/suggestion.go, with Review on `Approve` and `Reject`.
-- Webhooks: management/webhook.go, `WebhookService`; Deliveries is `WebhookDispatcher`, whose loop
--   has as many rounds as attempts are allowed.
-- Journals: the logs. Audit is management/audit.go, Plays management/play_event.go and the counts of
--   management/metrics.go; a pointer to an entry is its position.
-- Tests: the theorems at concrete inputs.
--
-- Parameters: which calls of the operating system fail, fresh ids, the present time, the calendar
-- of the time zone, the player, the report of the outputs, the switcher, SHA-256, the salt that is
-- drawn, paths and `os.Stat`, `url.Parse`, `json.Valid`, the comparison of a float64 with a number, and how
-- each HTTP attempt ends. JSON is taken to read back what it wrote. Locks make the operations a sequence, so interleavings are sequences of them.
-- Not modelled: the HTTP server, the engine that runs ffmpeg, the bindings to the native core, the
-- web console, the goroutines of `Dispatch`, and the services of management/ without a file here:
-- industry templates, snapshots, the generation of suggestions, and deployment; of configuration
-- templates, `Expand`; of media, `Expand` and the walk over
-- directories; of the metrics, the ratios and the trend.
pub mod Alarm
pub mod CacheTasks
pub mod Catalog
pub mod Collection
pub mod Commands
pub mod ConfigTemplates
pub mod Cron
pub mod Failover
pub mod HealthPolicies
pub mod Journals
pub mod MediaLibrary
pub mod Model
pub mod Nodes
pub mod Ordering
pub mod OutputGroups
pub mod Playlist
pub mod Prelude
pub mod Result
pub mod SceneTemplates
pub mod Scheduler
pub mod Sessions
pub mod SmartRules
pub mod Store
pub mod Suggestions
pub mod Tasks
pub mod Tests
pub mod Users
pub mod Webhooks
