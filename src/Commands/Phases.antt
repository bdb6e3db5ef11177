-- ===== src/Commands/Phases.antt =====
-- The promise of management/remote_command.go in the abstract: a command is queued, then
-- delivered, then done, and never goes back.
use kplayer_go.Prelude.{ℕ, Option, none, some}
use kplayer_go.Model.{CommandStatus}

pub data Phase : Type 0 where
  queued delivered done : Phase

-- A status that is none of the four, from a store edited by hand, counts as queued.
abbrev pub phase : CommandStatus → Phase
phase CommandStatus.pending = Phase.queued
phase CommandStatus.sent = Phase.delivered
phase CommandStatus.success = Phase.done
phase CommandStatus.failed = Phase.done
phase (CommandStatus.other s) = Phase.queued

pub data Moves : Phase → Phase → Type 0 where
  stay : (p : Phase) → Moves p p
  deliver : Moves Phase.queued Phase.delivered
  finish : Moves Phase.delivered Phase.done
  finish_at_once : Moves Phase.queued Phase.done

pub Moves-trans : {p q r : Phase} → Moves p q → Moves q r → Moves p r
Moves-trans (stay p) m = m
Moves-trans deliver (stay _) = deliver
Moves-trans deliver finish = finish_at_once
Moves-trans finish (stay _) = finish
Moves-trans finish_at_once (stay _) = finish_at_once

-- A time that is recorded once.
pub data Recorded : Option ℕ → Option ℕ → Type 0 where
  kept : (t : Option ℕ) → Recorded t t
  first : (t : ℕ) → Recorded none (some t)

pub Recorded-trans : {s t u : Option ℕ} → Recorded s t → Recorded t u → Recorded s u
Recorded-trans (kept t) r = r
Recorded-trans (first t) (kept _) = first t
