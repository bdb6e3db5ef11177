-- ===== src/Model.antt =====
-- The entities of the management document: management/store.go (Data, the sentinel errors) and the
-- structs of media.go, playlist.go, alarm.go, output_group.go, schedule.go, failover.go,
-- health_policy.go, remote_command.go, auth.go, user.go, play_event.go, audit.go, node.go,
-- cache_task.go, webhook.go, scene_template.go, suggestion.go, smart_rule.go and config_template.go. A Go string type
-- with named constants is a data type with a constructor for each constant, `unset` for "" where the code
-- tests for it, and `other` for any other text. Instants are numbers of nanoseconds, 0 the zero time.
use kplayer_go.Prelude.{ℕ, String, Bool, Option, List, []}
use kplayer_go.Prelude.Int.{ℤ}

-- The sentinel errors of the package; `plain` is an error that wraps none of them, `io` one of
-- the operating system.
pub data Err : Type 0 where
  not_found already_exists in_use invalid no_player already_running not_running queue_full : Err
  no_switcher cannot_stop invalid_credentials plain io : Err
  backend : String → Err

pub data PlayMode : Type 0 where
  unset order loop random random_loop : PlayMode
  other : String → PlayMode

pub data AlarmLevel : Type 0 where
  unset info warning critical : AlarmLevel
  other : String → AlarmLevel

pub data AlarmStatus : Type 0 where
  active resolved : AlarmStatus
  other : String → AlarmStatus

pub data TaskType : Type 0 where
  interval cron : TaskType
  other : String → TaskType

pub data TaskAction : Type 0 where
  unset play stop : TaskAction
  other : String → TaskAction

pub data Priority : Type 0 where
  unset normal important critical : Priority
  other : String → Priority

pub data FailoverPolicy : Type 0 where
  unset automatic manual : FailoverPolicy
  other : String → FailoverPolicy

pub data RemoteAction : Type 0 where
  start stop restart : RemoteAction
  other : String → RemoteAction

pub data CommandStatus : Type 0 where
  pending sent success failed : CommandStatus
  other : String → CommandStatus

pub data MediaSortOrder : Type 0 where
  unset by_name by_time by_random : MediaSortOrder
  other : String → MediaSortOrder

-- The size of the picture and the bit rate are read by no operation modelled here. The duration is
-- the float64 as its bits.
pub record Media : Type 0 where
  pub id : String
  pub name : String
  pub path : String
  pub ext : String
  pub size : ℤ
  pub mod_time : ℕ
  pub is_dir : Bool
  pub sort_by : MediaSortOrder
  pub audio_path : String
  pub subtitle_path : String
  pub duration : ℕ
  pub probed : Bool
  pub tags : List String
  pub created_at : ℕ
  pub updated_at : ℕ

pub record Playlist : Type 0 where
  pub id : String
  pub name : String
  pub desc : String
  pub fallback_playlist_id : String
  pub items : List String  -- the media ids of the `PlaylistItem`s
  pub mode : PlayMode
  pub loop : Bool
  pub created_at : ℕ
  pub updated_at : ℕ

pub record Alarm : Type 0 where
  pub id : String
  pub level : AlarmLevel
  pub title : String
  pub message : String
  pub status : AlarmStatus
  pub created_at : ℕ
  pub updated_at : ℕ
  pub resolved_at : Option ℕ

pub record OutputGroup : Type 0 where
  pub id : String
  pub name : String
  pub description : String
  pub platform : String
  pub region : String
  pub business : String
  pub outputs : List String
  pub enabled : Bool
  pub created_at : ℕ
  pub updated_at : ℕ

pub record ScheduleTask : Type 0 where
  pub id : String
  pub name : String
  pub type : TaskType
  pub interval : ℤ
  pub cron : String
  pub action : TaskAction
  pub playlist_id : String
  pub media_id : String
  pub scene_template_id : String
  pub loop : Bool
  pub priority : Priority
  pub interrupt : Bool
  pub interrupt_duration : ℤ
  pub enabled : Bool
  pub created_at : ℕ
  pub updated_at : ℕ
  pub last_run : Option ℕ

pub record OutputFailover : Type 0 where
  pub id : String
  pub name : String
  pub primary_unique : String
  pub backup_unique : String
  pub policy : FailoverPolicy
  pub threshold_seconds : ℤ
  pub enabled : Bool
  pub created_at : ℕ
  pub updated_at : ℕ

pub record HealthPolicy : Type 0 where
  pub id : String
  pub name : String
  pub max_retries : ℤ
  pub retry_window_seconds : ℤ
  pub auto_skip_on_failure : Bool
  pub enabled : Bool
  pub created_at : ℕ
  pub updated_at : ℕ

pub data SceneKind : Type 0 where
  logo clock title scroll watermark progress intro outro background : SceneKind
  other : String → SceneKind

-- The parameters are the entries of a map.
pub record SceneTemplate : Type 0 where
  pub id : String
  pub name : String
  pub kind : SceneKind
  pub params : List (String × String)
  pub enabled : Bool
  pub created_at : ℕ
  pub updated_at : ℕ

pub data SuggestionKind : Type 0 where
  media_recommend title_generate : SuggestionKind
  other : String → SuggestionKind

pub data SuggestionStatus : Type 0 where
  pending applied rejected : SuggestionStatus
  other : String → SuggestionStatus

-- The payload is the entries of a map; a nil map has none.
pub record Suggestion : Type 0 where
  pub id : String
  pub kind : SuggestionKind
  pub title : String
  pub payload : List (String × String)
  pub status : SuggestionStatus
  pub reason : String
  pub created_at : ℕ
  pub applied_at : Option ℕ
  pub updated_at : ℕ

pub record Session : Type 0 where
  pub id : String
  pub user_id : String
  pub username : String
  pub created_at : ℕ
  pub expires_at : ℕ

pub data UserRole : Type 0 where
  admin operator auditor : UserRole
  other : String → UserRole

-- The digest is the list of its characters.
pub record User : Type 0 where
  pub id : String
  pub username : String
  pub password_hash : List ℕ
  pub role : UserRole
  pub enabled : Bool
  pub created_at : ℕ
  pub updated_at : ℕ

pub data PlayResult : Type 0 where
  unset success failure : PlayResult
  other : String → PlayResult

pub record PlayEvent : Type 0 where
  pub id : String
  pub time : ℕ
  pub task_id : String
  pub task_name : String
  pub media_id : String
  pub playlist_id : String
  pub result : PlayResult
  pub detail : String

pub data AuditResult : Type 0 where
  unset success failure : AuditResult
  other : String → AuditResult

pub record AuditEntry : Type 0 where
  pub id : String
  pub time : ℕ
  pub operator : String
  pub action : String
  pub target : String
  pub result : AuditResult
  pub detail : String

pub data NodeStatus : Type 0 where
  unset online offline unknown : NodeStatus
  other : String → NodeStatus

pub record Node : Type 0 where
  pub id : String
  pub name : String
  pub address : String
  pub status : NodeStatus
  pub last_seen : ℕ
  pub enabled : Bool
  pub created_at : ℕ
  pub updated_at : ℕ

pub data InstanceStatus : Type 0 where
  unset running stopped unknown : InstanceStatus
  other : String → InstanceStatus

pub record Instance : Type 0 where
  pub id : String
  pub node_id : String
  pub name : String
  pub status : InstanceStatus
  pub channel_id : String
  pub created_at : ℕ
  pub updated_at : ℕ

pub data CacheStatus : Type 0 where
  unset pending running done failed : CacheStatus
  other : String → CacheStatus

pub record CacheTask : Type 0 where
  pub id : String
  pub media_id : String
  pub status : CacheStatus
  pub note : String
  pub created_at : ℕ
  pub updated_at : ℕ
  pub completed_at : Option ℕ

pub data WebhookEvent : Type 0 where
  output_disconnected channel_status_changed material_failed task_completed engine_exited :
      WebhookEvent
  other : String → WebhookEvent

pub record WebhookSubscription : Type 0 where
  pub id : String
  pub name : String
  pub url : String
  pub events : List WebhookEvent
  pub enabled : Bool
  pub created_at : ℕ
  pub updated_at : ℕ

pub data DeliveryStatus : Type 0 where
  success failed : DeliveryStatus

-- The text of the last error is left out.
pub record WebhookDelivery : Type 0 where
  pub id : String
  pub subscription_id : String
  pub event : WebhookEvent
  pub status : DeliveryStatus
  pub attempts : ℕ
  pub has_error : Bool
  pub delivered_at : ℕ
  pub created_at : ℕ

pub record RemoteCommand : Type 0 where
  pub id : String
  pub node_id : String
  pub instance_id : String
  pub action : RemoteAction
  pub status : CommandStatus
  pub error : String
  pub created_at : ℕ
  pub executed_at : Option ℕ
  pub updated_at : ℕ

pub record TimeSlot : Type 0 where
  pub start_hour : ℤ
  pub end_hour : ℤ

pub record SmartRule : Type 0 where
  pub id : String
  pub name : String
  pub description : String
  pub time_slots : List TimeSlot
  pub tags : List String
  pub max_duration_sec : ℤ
  pub avoid_repeat : Bool
  pub repeat_lookback : ℤ
  pub max_items : ℤ
  pub enabled : Bool
  pub created_at : ℕ
  pub updated_at : ℕ

-- The body is JSON text.
pub record ConfigTemplate : Type 0 where
  pub id : String
  pub name : String
  pub type_name : String
  pub body : String
  pub enabled : Bool
  pub created_at : ℕ
  pub updated_at : ℕ

-- The root document. The collections that no operation modelled here reads or writes
-- (snapshots and industry templates) are left out.
pub record Data : Type 0 where
  pub media : List Media
  pub playlists : List Playlist
  pub alarms : List Alarm
  pub output_groups : List OutputGroup
  pub tasks : List ScheduleTask
  pub failovers : List OutputFailover
  pub health_policies : List HealthPolicy
  pub scene_templates : List SceneTemplate
  pub sessions : List Session
  pub users : List User
  pub play_events : List PlayEvent
  pub remote_commands : List RemoteCommand
  pub cache_tasks : List CacheTask
  pub webhook_subscriptions : List WebhookSubscription
  pub webhook_deliveries : List WebhookDelivery
  pub audit_logs : List AuditEntry
  pub nodes : List Node
  pub instances : List Instance
  pub suggestions : List Suggestion
  pub smart_rules : List SmartRule
  pub config_templates : List ConfigTemplate
  pub updated_at : ℕ

-- `&Data{}`
abbrev pub empty_data : Data
empty_data = record {
  media = [];
  playlists = [];
  alarms = [];
  output_groups = [];
  tasks = [];
  failovers = [];
  health_policies = [];
  scene_templates = [];
  sessions = [];
  users = [];
  play_events = [];
  remote_commands = [];
  cache_tasks = [];
  webhook_subscriptions = [];
  webhook_deliveries = [];
  audit_logs = [];
  nodes = [];
  instances = [];
  suggestions = [];
  smart_rules = [];
  config_templates = [];
  updated_at = 0;
}
