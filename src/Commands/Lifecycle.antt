-- ===== src/Commands/Lifecycle.antt =====
-- The operations of management/remote_command.go carry out the abstract phases of a command.
use kplayer_go.Prelude.{
  ℕ, ◌≡◌, refl, String, true, false, Option, none, some, List, [], ◌∷◌, ◌++◌, arith, str_eq, eq_iff,
  if◌then◌else◌, Bool-cases, Option-cases, inl, inr, ◌⊎◌, sym, ◌∙◌, ap,
}
use mathlib.Core.Path.{subst}
use kplayer_go.Model.{Data, RemoteCommand, CommandStatus}
use kplayer_go.Result.{Result-cases, outcome}
use kplayer_go.Collection.{find, put_first}
use kplayer_go.Collection.Laws.{find-put_first, find-put_first_ne, find-append, find-passes}
use kplayer_go.Prelude.Text.{trim_space}
use kplayer_go.Commands.{
  RemoteCommandSpec, is_terminal, command_id, enqueue, executed, transition, mark, mark_sent,
  mark_success, mark_failed, validate_spec, new_command,
}
use kplayer_go.Commands.Phases.{
  Phase, phase, Moves, stay, deliver, finish, finish_at_once, Moves-trans, Recorded, kept, first,
  Recorded-trans,
}

-- What may become of a command: its phase goes forward, the time of its execution is recorded
-- once, a terminal command is final, and what it asks for stays.
pub record Follows (c c' : RemoteCommand) : Type 0 where
  pub moves : Moves (phase c.status) (phase c'.status)
  pub recorded : Recorded c.executed_at c'.executed_at
  pub locked : (c' ≡ c) ⊎ (is_terminal c.status ≡ false)
  pub same_id : c'.id ≡ c.id
  pub same_node : c'.node_id ≡ c.node_id
  pub same_instance : c'.instance_id ≡ c.instance_id
  pub same_action : c'.action ≡ c.action
  pub same_creation : c'.created_at ≡ c.created_at

Follows-refl : (c : RemoteCommand) → Follows c c
Follows-refl c = record {
  moves = stay (phase c.status);
  recorded = kept c.executed_at;
  locked = inl refl;
  same_id = refl;
  same_node = refl;
  same_instance = refl;
  same_action = refl;
  same_creation = refl;
}

Follows-trans : {a b c : RemoteCommand} → Follows a b → Follows b c → Follows a c
Follows-trans {a} {b} {c} f g = record {
  moves = Moves-trans f.moves g.moves;
  recorded = Recorded-trans f.recorded g.recorded;
  locked = elim f.locked [
    | inr open_still ↦ inr open_still
    | inl same ↦ (elim g.locked [
      | inl same' ↦ inl (same' ∙ same)
      | inr open_still ↦
          inr (sym (ap (λ (x : RemoteCommand). is_terminal x.status) same) ∙ open_still)
    ])
  ];
  same_id = g.same_id ∙ f.same_id;
  same_node = g.same_node ∙ f.same_node;
  same_instance = g.same_instance ∙ f.same_instance;
  same_action = g.same_action ∙ f.same_action;
  same_creation = g.same_creation ∙ f.same_creation;
}

executed-Recorded : (now : ℕ) (t : Option ℕ) → Recorded t (executed now t)
executed-Recorded now none = first now
executed-Recorded now (some t) = kept (some t)

-- The statuses that the `Mark` operations set.
pub data Outcome : Type 0 where
  sending succeeding failing : Outcome

abbrev pub status_of : Outcome → CommandStatus
status_of sending = CommandStatus.sent
status_of succeeding = CommandStatus.success
status_of failing = CommandStatus.failed

open-Moves :
    (o : Outcome) (s : CommandStatus)
    → is_terminal s ≡ false
    → Moves (phase s) (phase (status_of o))
open-Moves sending CommandStatus.pending h = deliver
open-Moves sending CommandStatus.sent h = stay Phase.delivered
open-Moves sending CommandStatus.success h = cc
open-Moves sending CommandStatus.failed h = cc
open-Moves sending (CommandStatus.other s) h = deliver
open-Moves succeeding CommandStatus.pending h = finish_at_once
open-Moves succeeding CommandStatus.sent h = finish
open-Moves succeeding CommandStatus.success h = cc
open-Moves succeeding CommandStatus.failed h = cc
open-Moves succeeding (CommandStatus.other s) h = finish_at_once
open-Moves failing CommandStatus.pending h = finish_at_once
open-Moves failing CommandStatus.sent h = finish
open-Moves failing CommandStatus.success h = cc
open-Moves failing CommandStatus.failed h = cc
open-Moves failing (CommandStatus.other s) h = finish_at_once

-- The calls that change commands and remove none.
pub data Call : Type 0 where
  enqueuing : String → ℕ → RemoteCommandSpec → Call
  marking_sent marking_success : String → ℕ → Call
  marking_failed : String → String → ℕ → Call

pub after_call : Call → Data → Data
after_call (enqueuing id now spec) d = outcome d (enqueue id now spec d)
after_call (marking_sent id now) d = outcome d (mark_sent id now d)
after_call (marking_success id now) d = outcome d (mark_success id now d)
after_call (marking_failed id message now) d = outcome d (mark_failed id message now d)

pub after_calls : List Call → Data → Data
after_calls [] d = d
after_calls (c ∷ cs) d = after_calls cs (after_call c d)

-- What has become of the command with an id.
abbrev pub Followed : Data → String → RemoteCommand → Type 0
Followed d id c =
    (c' : RemoteCommand) × (find (command_id id) d.remote_commands ≡ some c') × Follows c c'

abbrev marked : Outcome → String → ℕ → RemoteCommand → RemoteCommand
marked o message now c = record c {
  executed_at = executed now c.executed_at;
  error = if str_eq message "" then c.error else message;
  status = status_of o;
  updated_at = now;
}

marked-Follows :
    (o : Outcome) (message : String) (now : ℕ) (c : RemoteCommand)
    → is_terminal c.status ≡ false
    → Follows c (marked o message now c)
marked-Follows o message now c h = record {
  moves = open-Moves o c.status h;
  recorded = executed-Recorded now c.executed_at;
  locked = inr h;
  same_id = refl;
  same_node = refl;
  same_instance = refl;
  same_action = refl;
  same_creation = refl;
}

-- A mark of one command, seen at the id of any.
mark-Followed :
    (o : Outcome) (id message : String) (now : ℕ) (d : Data) (id' : String) (c : RemoteCommand)
    → find (command_id id') d.remote_commands ≡ some c
    → Followed (outcome d (mark id (status_of o) message now d)) id' c
unfolding mark transition
mark-Followed o id message now d id' c f =
    elim (Option-cases (find (command_id id) d.remote_commands)) [
      | inl n ↦ (c, ground (arith, n, f), Follows-refl c)
      | inr (b, g) ↦ elim (Bool-cases (is_terminal b.status)) [
        | inl t ↦ (c, ground (arith, g, t, f), Follows-refl c)
        | inr t ↦
            let u = marked o message now b in
            let put = λ (x : RemoteCommand). record d {
              remote_commands = put_first (command_id id) x d.remote_commands;
            } in
            let e : put u ≡ outcome d (mark id (status_of o) message now d) =
              ground (arith, g, t) in
            let own : str_eq b.id id ≡ true = find-passes (command_id id) d.remote_commands b g in
            subst (λ (x : Data). Followed x id' c) e
              (elim (Bool-cases (str_eq id id')) [
                | inl same ↦
                    let same_id = (eq_iff id id').0 same in
                    let g' =
                      subst (λ j. find (command_id j) d.remote_commands ≡ some b) same_id g in
                    let b_is_c : b ≡ c = cc in
                    subst (λ j. Followed (put u) j c) same_id
                      (subst (Followed (put u) id) b_is_c (
                        u,
                        find-put_first (command_id id) u d.remote_commands b g own,
                        marked-Follows o message now b t,
                      ))
                | inr other ↦
                    let ne : str_eq b.id id' ≡ false =
                      ground (arith, own, other, eq_iff b.id id, eq_iff id id', eq_iff b.id id') in
                    (
                      c,
                      find-put_first_ne (command_id id) (command_id id') u d.remote_commands b g ne
                            ne
                          ∙ f,
                      Follows-refl c,
                    )
              ])
      ]
    ]

enqueue-Followed :
    (id : String) (now : ℕ) (spec : RemoteCommandSpec) (d : Data) (id' : String) (c : RemoteCommand)
    → find (command_id id') d.remote_commands ≡ some c
    → Followed (outcome d (enqueue id now spec d)) id' c
unfolding enqueue
enqueue-Followed id now spec d id' c f =
    let s : RemoteCommandSpec = record spec { node_id = trim_space spec.node_id } in
    elim (Result-cases (validate_spec s)) [
      | inl (u, e) ↦
          let n = new_command id now s in
          let added : record d { remote_commands = d.remote_commands ++ n ∷ [] }
              ≡ outcome d (enqueue id now spec d) =
            ground (arith, e) in
          subst (λ (x : Data). Followed x id' c) added
            (c, find-append (command_id id') d.remote_commands (n ∷ []) c f, Follows-refl c)
      | inr (x, e) ↦
          let same : d ≡ outcome d (enqueue id now spec d) = ground (arith, e) in
          subst (λ (x : Data). Followed x id' c) same (c, f, Follows-refl c)
    ]

after_call-Followed :
    (k : Call) (d : Data) (id : String) (c : RemoteCommand)
    → find (command_id id) d.remote_commands ≡ some c
    → Followed (after_call k d) id c
unfolding after_call mark_sent mark_success mark_failed
after_call-Followed (enqueuing i now spec) d id c f = enqueue-Followed i now spec d id c f
after_call-Followed (marking_sent i now) d id c f = mark-Followed sending i "" now d id c f
after_call-Followed (marking_success i now) d id c f = mark-Followed succeeding i "" now d id c f
after_call-Followed (marking_failed i message now) d id c f =
    mark-Followed failing i message now d id c f

-- Whatever commands are enqueued and marked, with whichever outcomes, a command that is in the
-- queue stays in it under its id, and: its phase only goes from queued over delivered to done, the
-- time of its execution is recorded at most once, a terminal command stays as it is, and the id,
-- node, instance, action and time of creation stay.
pub after_calls-Follows :
    (ks : List Call) (d : Data) (id : String) (c : RemoteCommand)
    → find (command_id id) d.remote_commands ≡ some c
    → Followed (after_calls ks d) id c
unfolding after_calls
after_calls-Follows [] d id c f = (c, f, Follows-refl c)
after_calls-Follows (k ∷ ks) d id c f =
    let (b, g, first_step) = after_call-Followed k d id c f in
    let (e, h, later) = after_calls-Follows ks (after_call k d) id b g in
    (e, h, Follows-trans first_step later)
