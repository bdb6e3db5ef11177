-- ===== src/Commands.antt =====
-- management/remote_command.go: `RemoteCommandService`. Each operation is the callback of
-- `Store.Update` that it runs, after its checks; `now` is what `time.Now()` gives, which one call
-- may ask twice.
pub mod Phases
pub mod Lifecycle
pub mod Purge
use kplayer_go.Prelude.{
  ℕ, ◌≡◌, String, Bool, true, false, not, ◌&&◌, ◌||◌, Option, none, some, List, [], ◌∷◌, ◌++◌,
  str_eq, if◌then◌else◌, ◌==◌,
}
use kplayer_go.Prelude.Lists.{any, select, count, take}
use kplayer_go.Prelude.Int.{ℤ, pos, negsuc}
use kplayer_go.Prelude.Text.{trim_space, is_blank}
use kplayer_go.Model.{Data, Err, RemoteCommand, RemoteAction, CommandStatus}
use kplayer_go.Result.{Result, ok, err, Txn, commit, keep, fail, refuse, check, ◌>>◌, ◌>>=◌}
use kplayer_go.Collection.{find, put_first, has_id}
use kplayer_go.Ordering.{sort_by, newer}
use Err.{not_found, invalid}

pub record RemoteCommandSpec : Type 0 where
  pub node_id : String
  pub instance_id : String
  pub action : RemoteAction

-- `IsTerminal`
abbrev pub is_terminal : CommandStatus → Bool
is_terminal CommandStatus.pending = false
is_terminal CommandStatus.sent = false
is_terminal CommandStatus.success = true
is_terminal CommandStatus.failed = true
is_terminal (CommandStatus.other s) = false

-- `validateRemoteAction`
abbrev pub known_action : RemoteAction → Bool
known_action RemoteAction.start = true
known_action RemoteAction.stop = true
known_action RemoteAction.restart = true
known_action (RemoteAction.other s) = false

-- `validateCommandStatus`
unfoldable pub validate_status : CommandStatus → Result (Unit {0})
validate_status CommandStatus.pending = ok tt
validate_status CommandStatus.sent = ok tt
validate_status CommandStatus.success = ok tt
validate_status CommandStatus.failed = ok tt
validate_status (CommandStatus.other s) = err invalid

-- `validateRemoteCommandSpec`
unfoldable pub validate_spec : RemoteCommandSpec → Result (Unit {0})
validate_spec s = do
  refuse (is_blank s.node_id) invalid
  refuse (not (known_action s.action)) invalid
  ok tt

abbrev pub command_id : String → RemoteCommand → Bool
command_id = has_id (λ c. c.id)

abbrev pub new_command : String → ℕ → RemoteCommandSpec → RemoteCommand
new_command id now s = record {
  id = id;
  node_id = s.node_id;
  instance_id = s.instance_id;
  action = s.action;
  status = CommandStatus.pending;
  error = "";
  created_at = now;
  executed_at = none;
  updated_at = now;
}

-- `Enqueue`
unfoldable pub enqueue : String → ℕ → RemoteCommandSpec → Data → Txn Data RemoteCommand
unfolding validate_spec
enqueue id now spec d =
    let s = record spec { node_id = trim_space spec.node_id } in
    let c = new_command id now s in
    check (validate_spec s)
      λ u. commit (record d { remote_commands = d.remote_commands ++ c ∷ [] }) c

-- `ExecutedAt`, recorded the first time.
abbrev pub executed : ℕ → Option ℕ → Option ℕ
executed now none = some now
executed now (some t) = some t

-- `transitionRemoteCommand`
unfoldable pub transition : CommandStatus → String → ℕ → RemoteCommand → Result RemoteCommand
transition next message now c =
    if is_terminal c.status
    then err invalid
    else ok (record c {
      executed_at = executed now c.executed_at;
      error = if str_eq message "" then c.error else message;
      status = next;
    })

-- `mark`
unfoldable pub mark : String → CommandStatus → String → ℕ → Data → Txn Data RemoteCommand
unfolding transition
mark id next message now d = elim (find (command_id id) d.remote_commands) [
  | none ↦ fail not_found
  | some c ↦ check (transition next message now c) λ t.
      let u = record t { updated_at = now } in
      commit (record d { remote_commands = put_first (command_id id) u d.remote_commands }) u
]

-- `MarkSent`, `MarkSuccess` and `MarkFailed`
unfoldable pub mark_sent : String → ℕ → Data → Txn Data RemoteCommand
unfolding mark
mark_sent id now = mark id CommandStatus.sent "" now

unfoldable pub mark_success : String → ℕ → Data → Txn Data RemoteCommand
unfolding mark
mark_success id now = mark id CommandStatus.success "" now

unfoldable pub mark_failed : String → String → ℕ → Data → Txn Data RemoteCommand
unfolding mark
mark_failed id message now = mark id CommandStatus.failed message now

-- `sortRemoteCommands`
abbrev pub sort_commands : List RemoteCommand → List RemoteCommand
sort_commands = sort_by (newer (λ c. c.created_at) (λ c. c.id))

abbrev pub terminals : List RemoteCommand → List RemoteCommand
terminals = select (λ c. is_terminal c.status)

-- The terminal commands whose ids `PurgeTerminal` puts into its set.
abbrev pub recent : ℕ → List RemoteCommand → List RemoteCommand
recent n cs = take n (sort_commands (terminals cs))

-- Whether its loop drops a command.
abbrev pub stale : ℕ → List RemoteCommand → RemoteCommand → Bool
stale n cs c = is_terminal c.status && not (any (command_id c.id) (recent n cs))

-- `PurgeTerminal`
unfoldable pub purge_terminal : ℤ → Data → Txn Data ℕ
purge_terminal (negsuc n) d = fail invalid
purge_terminal (pos n) d =
    let removed = count (stale n d.remote_commands) d.remote_commands in
    if removed == 0
    then keep 0
    else commit
        (record d {
          remote_commands = select (λ c. not (stale n d.remote_commands c)) d.remote_commands;
        })
        removed

-- `List`, `ListByNode` and `Get`
unfoldable pub list : Data → List RemoteCommand
list d = sort_commands d.remote_commands

unfoldable pub list_by_node : String → Data → List RemoteCommand
list_by_node node d = sort_commands (select (λ c. str_eq c.node_id node) d.remote_commands)

unfoldable pub get : String → Data → Result RemoteCommand
get id d = elim (find (command_id id) d.remote_commands) [ none ↦ err not_found | some c ↦ ok c ]
