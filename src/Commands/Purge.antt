-- ===== src/Commands/Purge.antt =====
-- What `PurgeTerminal` of management/remote_command.go keeps.
use Prim.Native.Nat.{min}
use kplayer_go.Prelude.{
  ℕ, ◌+◌, ◌≤◌, ◌≡◌, refl, Bool, true, false, not, ◌&&◌, List, [], ◌∷◌, arith, Bool-cases, inl, inr,
  ◌⊎◌, ap, eq_iff, ◌∙◌,
}
use mathlib.Core.Path.{subst}
use kplayer_go.Prelude.Int.{pos}
use kplayer_go.Prelude.Lists.{
  length, count, any, select, All, All-mono, All-select, All-both, count-split, length-select,
}
use kplayer_go.Model.{Data, RemoteCommand}
use kplayer_go.Result.{commit}
use kplayer_go.Ordering.Newest.{EachOnce, among, count-among, newest_rank}
use kplayer_go.Collection.Laws.{All-passes}
use kplayer_go.Commands.{is_terminal, command_id, terminals, recent, stale, purge_terminal}

abbrev pub ends : RemoteCommand → Bool
ends c = is_terminal c.status

-- Commands with one id.
abbrev pub same_command : RemoteCommand → RemoteCommand → Bool
same_command a b = command_id a.id b

same_command_refl : (c : RemoteCommand) → same_command c c ≡ true
same_command_refl c = ground (arith, eq_iff c.id c.id)

-- Every id occurs once among the terminal commands.
abbrev pub OwnIds : List RemoteCommand → Type 0
OwnIds cs = EachOnce same_command (terminals cs)

count-select-and :
    (p q : RemoteCommand → Bool) (cs : List RemoteCommand)
    → count p (select q cs) ≡ count (λ c. q c && p c) cs
count-select-and p q [] = refl
count-select-and p q (c ∷ cs) = ground (arith, count-select-and p q cs)

-- What is left of the open and of the terminal commands.
kept_open :
    (s : RemoteCommand → Bool) (cs : List RemoteCommand)
    → select (λ c. not (ends c)) (select (λ c. not (ends c && s c)) cs)
      ≡ select (λ c. not (ends c)) cs
kept_open s [] = refl
kept_open s (c ∷ cs) = ground (arith, kept_open s cs)

kept_terminal :
    (s : RemoteCommand → Bool) (cs : List RemoteCommand)
    → count ends (select (λ c. not (ends c && not (s c))) cs) ≡ count s (terminals cs)
kept_terminal s [] = refl
kept_terminal s (c ∷ cs) = ground (arith, kept_terminal s cs)

-- A purge that changes the queue keeps all open commands as they are and as many terminal ones as
-- it was asked to, or all there are, and reports how many it removed, if no two terminal commands share
-- an id.
purge_terminal-counts :
    (n removed : ℕ) (d e : Data)
    → OwnIds d.remote_commands
    → purge_terminal (pos n) d ≡ commit e removed
    → ((kept : RemoteCommand → Bool) × (e.remote_commands ≡ select kept d.remote_commands))
      × (select (λ c. not (ends c)) e.remote_commands
          ≡ select (λ c. not (ends c)) d.remote_commands)
      × (count ends e.remote_commands ≡ min n (count ends d.remote_commands))
      × (removed + length e.remote_commands ≡ length d.remote_commands)
unfolding purge_terminal
purge_terminal-counts n removed d e own h =
    let cs = d.remote_commands in
    let s = among same_command (recent n cs) in
    let left = select (λ c. not (stale n cs c)) cs in
    let same : record d { remote_commands = left } ≡ e = ground (arith, h) in
    let n_removed : count (stale n cs) cs ≡ removed = ground (arith, h) in
    let counted : removed + length left ≡ length cs =
      omega (
        arith,
        n_removed,
        count-split (stale n cs) cs,
        length-select (λ c. not (stale n cs c)) cs,
      ) in
    subst
      (λ (x : Data).
        ((kept : RemoteCommand → Bool) × (x.remote_commands ≡ select kept cs))
        × (select (λ c. not (ends c)) x.remote_commands ≡ select (λ c. not (ends c)) cs)
        × (count ends x.remote_commands ≡ min n (count ends cs))
        × (removed + length x.remote_commands ≡ length cs))
      same
      (
        (λ c. not (stale n cs c), refl),
        kept_open (λ c. not (s c)) cs,
        kept_terminal s cs
            ∙ count-among (λ (c : RemoteCommand). c.created_at) (λ c. c.id) same_command
                same_command_refl n (terminals cs) own
            ∙ ap (min n) (length-select ends cs),
        counted,
      )

-- What passes a test is selected, by its id.
select-has :
    (p : RemoteCommand → Bool) (cs : List RemoteCommand)
    → All (λ c. (p c ≡ false) ⊎ (any (command_id c.id) (select p cs) ≡ true)) cs
select-has p [] = tt
select-has p (c ∷ cs) = (
  elim (Bool-cases (p c)) [ inl e ↦ inr (ground (arith, e, eq_iff c.id c.id)) | inr e ↦ inl e ],
  All-mono _ _ (λ x h. ground (arith, h)) cs (select-has p cs),
)

select-select_comm :
    (p q : RemoteCommand → Bool) (cs : List RemoteCommand)
    → select q (select p cs) ≡ select p (select q cs)
select-select_comm p q [] = refl
select-select_comm p q (c ∷ cs) = ground (arith, select-select_comm p q cs)

All-thin {κ} :
    (P : RemoteCommand → Type κ) (p q : RemoteCommand → Bool) (cs : List RemoteCommand)
    → All P (select p cs)
    → All P (select p (select q cs))
All-thin P p q cs h = subst (All P) (select-select_comm p q cs) (All-select P q (select p cs) h)

rank_le : {a b : ℕ} (x y : Bool) → (x ≡ false) ⊎ (y ≡ true) ⊎ (a ≤ b) → x ≡ true → y ≡ false → a ≤ b
rank_le x y (inl p) h k = absurd (ground (arith, p, h))
rank_le x y (inr (inl p)) h k = absurd (ground (arith, p, k))
rank_le x y (inr (inr le)) h k = le

-- A purge that changes the queue keeps the newest: every terminal command is still in the queue, by
-- its id, or is no newer than any terminal command that is, if no two of them share an id.
purge_terminal-newest :
    (n removed : ℕ) (d e : Data)
    → OwnIds d.remote_commands
    → purge_terminal (pos n) d ≡ commit e removed
    → All
        (λ c.
          (any (command_id c.id) e.remote_commands ≡ true)
          ⊎ All (λ k. c.created_at ≤ k.created_at) (terminals e.remote_commands))
        (terminals d.remote_commands)
unfolding purge_terminal
purge_terminal-newest n removed d e own h =
    let cs = d.remote_commands in
    let s = among same_command (recent n cs) in
    let stays = λ (c : RemoteCommand). not (ends c && not (s c)) in
    let left = select stays cs in
    let same : record d { remote_commands = left } ≡ e = ground (arith, h) in
    let by_time = λ (c : RemoteCommand). c.created_at in
    let rank =
      newest_rank by_time (λ c. c.id) same_command same_command_refl n (terminals cs) own in
    let kept : All (λ k. s k ≡ true) (terminals left) =
      All-both _ _ _ (λ k x y. ground (arith, x, y)) (terminals left) (All-passes ends left)
        (All-select _ ends left (All-passes stays cs)) in
    subst
      (λ (x : Data).
        All
          (λ c.
            (any (command_id c.id) x.remote_commands ≡ true)
            ⊎ All (λ k. c.created_at ≤ k.created_at) (terminals x.remote_commands))
          (terminals cs))
      same
      (All-both _ _ _
        (λ c has ranked. elim has [
          | inr there ↦ inl there
          | inl gone ↦ inr (
              All-both _ _ _ (λ k among_k r. rank_le (s k) (s c) r among_k (ground (arith, gone)))
                (terminals left) kept (All-thin _ ends stays cs ranked))
        ])
        (terminals cs) (All-select _ ends cs (select-has stays cs)) rank)

-- A purge that changes the queue only takes commands out: what is left are commands that were
-- there, unaltered and in their order. All open commands are left, and as many terminal ones as it
-- was asked to keep, or all there are; it reports how many it removed, and removes none that is
-- newer than one it keeps: every terminal command is still in the queue, by its id, or is no newer than any
-- terminal command that is, if no two terminal commands share an id.
pub purge_terminal-keeps :
    (n removed : ℕ) (d e : Data)
    → OwnIds d.remote_commands
    → purge_terminal (pos n) d ≡ commit e removed
    → (((kept : RemoteCommand → Bool) × (e.remote_commands ≡ select kept d.remote_commands))
        × (select (λ c. not (ends c)) e.remote_commands
            ≡ select (λ c. not (ends c)) d.remote_commands)
        × (count ends e.remote_commands ≡ min n (count ends d.remote_commands))
        × (removed + length e.remote_commands ≡ length d.remote_commands))
      × All
          (λ c.
            (any (command_id c.id) e.remote_commands ≡ true)
            ⊎ All (λ k. c.created_at ≤ k.created_at) (terminals e.remote_commands))
          (terminals d.remote_commands)
purge_terminal-keeps n removed d e own h =
    (purge_terminal-counts n removed d e own h, purge_terminal-newest n removed d e own h)
