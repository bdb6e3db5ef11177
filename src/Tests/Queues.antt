-- ===== src/Tests/Queues.antt =====
-- The command queue and the logs on concrete documents.
use Prim.Native.Nat.{min}
use kplayer_go.Prelude.{ℕ, ◌+◌, ◌≤◌, ◌≡◌, refl, Bool, true, not, none, List, [], ◌∷◌, String, ◌⊎◌}
use kplayer_go.Prelude.Int.{pos}
use kplayer_go.Prelude.Lists.{length, count, any, select, All}
use kplayer_go.Model.{
  Data, RemoteCommand, RemoteAction, CommandStatus, AuditEntry, AuditResult, empty_data,
}
use kplayer_go.Result.{commit}
use kplayer_go.Collection.{find}
use kplayer_go.Ordering.{sort_by}
use kplayer_go.Commands.{command_id, terminals, purge_terminal}
use kplayer_go.Commands.Lifecycle.{
  Call, marking_sent, marking_success, marking_failed, after_calls, Followed, after_calls-Follows,
}
use kplayer_go.Commands.Purge.{ends, purge_terminal-keeps}
use kplayer_go.Journals.{prune}
use kplayer_go.Journals.Pruning.{Thinned, prune-keeps_newest}

abbrev command : String → ℕ → CommandStatus → RemoteCommand
command id at status = record {
  id = id;
  node_id = "n1";
  instance_id = "";
  action = RemoteAction.restart;
  status = status;
  error = "";
  created_at = at;
  executed_at = none;
  updated_at = at;
}

abbrev waiting : Data
waiting = record empty_data {
  remote_commands = command "a" 1 CommandStatus.pending ∷ command "b" 2 CommandStatus.success ∷ [];
}

abbrev calls : List Call
calls = marking_sent "a" 5 ∷ marking_failed "a" "no route" 6 ∷ marking_success "a" 7 ∷ []

after_calls-Follows_example :
    Followed (after_calls calls waiting) "a" (command "a" 1 CommandStatus.pending)
unfolding find
after_calls-Follows_example =
    after_calls-Follows calls waiting "a" (command "a" 1 CommandStatus.pending) refl

abbrev finished : Data
finished = record empty_data {
  remote_commands =
      command "a" 1 CommandStatus.failed
      ∷ command "b" 2 CommandStatus.pending
      ∷ command "c" 3 CommandStatus.success
      ∷ [];
}

abbrev purged : Data
purged = record empty_data {
  remote_commands = command "b" 2 CommandStatus.pending ∷ command "c" 3 CommandStatus.success ∷ [];
}

purged_test : purge_terminal (pos 1) finished ≡ commit purged 1
unfolding purge_terminal sort_by
purged_test = refl

purge_terminal-keeps_example :
    (((kept : RemoteCommand → Bool) × (purged.remote_commands
          ≡ select kept finished.remote_commands))
      × (select (λ c. not (ends c)) purged.remote_commands
          ≡ select (λ c. not (ends c)) finished.remote_commands)
      × (count ends purged.remote_commands ≡ min 1 (count ends finished.remote_commands))
      × (1 + length purged.remote_commands ≡ length finished.remote_commands))
    × All
        (λ (c : RemoteCommand).
          (any (command_id c.id) purged.remote_commands ≡ true)
          ⊎ All
              (λ (k : RemoteCommand). c.created_at ≤ k.created_at)
              (terminals purged.remote_commands))
        (terminals finished.remote_commands)
purge_terminal-keeps_example =
    purge_terminal-keeps 1 1 finished purged (refl, (refl, tt)) purged_test

abbrev entry : String → ℕ → AuditEntry
entry id at = record {
  id = id;
  time = at;
  operator = "root";
  action = "login";
  target = "";
  result = AuditResult.success;
  detail = "";
}

abbrev entry_time : AuditEntry → ℕ
entry_time e = e.time

abbrev entry_id : AuditEntry → String
entry_id e = e.id

abbrev log : List AuditEntry
log = entry "a" 3 ∷ entry "b" 1 ∷ entry "c" 2 ∷ []

pruned_test : prune entry_time entry_id (pos 2) log ≡ commit (entry "a" 3 ∷ entry "c" 2 ∷ []) 1
unfolding prune sort_by
pruned_test = refl

prune-keeps_newest_example :
    (gone : List AuditEntry) × Thinned log (entry "a" 3 ∷ entry "c" 2 ∷ []) gone
    × (length (entry "a" 3 ∷ entry "c" 2 ∷ []) ≡ 2)
    × (length gone ≡ 1)
    × All (λ a. All (λ k. entry_time a ≤ entry_time k) (entry "a" 3 ∷ entry "c" 2 ∷ [])) gone
prune-keeps_newest_example =
    prune-keeps_newest entry_time entry_id 1 1 log (entry "a" 3 ∷ entry "c" 2 ∷ []) pruned_test
