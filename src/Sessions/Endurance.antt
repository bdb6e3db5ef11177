-- ===== src/Sessions/Endurance.antt =====
-- What keeps a session of management/auth.go among the sessions, whatever happens to the others.
pub mod Calls
use kplayer_go.Prelude.{
  ℕ, zero, suc, ◌+◌, ◌-◌, ◌≤◌, ◌<◌, ◌≡◌, refl, Bool, true, false, not, ◌||◌, String, none, some,
  List, [], ◌∷◌, ◌++◌, arith, str_eq, eq_iff, leb, ◌==◌, Bool-cases, Option-cases, inl, inr, ◌⊎◌,
  ap, sym, ◌∙◌,
}
use mathlib.Core.Path.{subst}
use kplayer_go.Prelude.Int.{ℤ, pos, negsuc}
use kplayer_go.Prelude.Lists.{
  length, any, count, select, take, drop, All, All-mono, All-append, All-drop, All-none, All-select,
  All-both, All-every, length-append, length-drop,
}
use kplayer_go.Prelude.Text.{is_blank}
use kplayer_go.Model.{Data, Session}
use kplayer_go.Result.{ok, commit, outcome}
use kplayer_go.Collection.{find, cut_first}
use kplayer_go.Collection.Laws.{any-find, find-passes, All-find, All-cut_first}
use kplayer_go.Ordering.{older, sort_by}
use kplayer_go.Ordering.Laws.{
  All-sort_by, count-sort_by, length-sort_by, oldest_first, IsSorted-cut, NotNewer,
}
use kplayer_go.Ordering.Newest.{count-append, count-passing, count-none}
use kplayer_go.Sessions.{
  session_id, session_expired, by_age, evict, new_session, create, validate, authenticate, logout,
  delete, purge_expired, without,
}
use kplayer_go.Sessions.Survival.{create-evict}
use kplayer_go.Collection.Counts.{
  count-cut, count_mono, count-any, count-select_same, count-select_le, count-cut_first_same,
  count-cut_first_le, All-take,
}

-- A session that is `s`, or has another token.
abbrev Own : Session → Session → Type 0
Own s x = (x ≡ s) ⊎ (session_id s.id x ≡ false)

abbrev not_older : Session → Session → Bool
not_older s x = leb s.created_at x.created_at

-- The session is in the list, the only one with its token, and at most `n` are as new as it is.
record IsSafe (s : Session) (n : ℕ) (ss : List Session) : Type 0 where
  own : All (Own s) ss
  there : 1 ≤ count (session_id s.id) ss
  newer : count (not_older s) ss ≤ n

Own-not_older : (s x : Session) → Own s x → (session_id s.id x ≡ false) ⊎ (not_older s x ≡ true)
Own-not_older s x (inl e) = inr (ground (arith, ap (λ (y : Session). y.created_at) e))
Own-not_older s x (inr e) = inl e

found :
    (s : Session) (ss : List Session)
    → All (Own s) ss
    → 1 ≤ count (session_id s.id) ss
    → find (session_id s.id) ss ≡ some s
found s ss own there =
    let (x, f) = any-find (session_id s.id) ss (count-any (session_id s.id) ss there) in
    elim (All-find (session_id s.id) (Own s) ss x own f) [
      | inl e ↦ f ∙ ap some e
      | inr e ↦ absurd (ground (arith, e, find-passes (session_id s.id) ss x f))
    ]

-- A cut of the sorted list that leaves as many as are as new as the session leaves the session.
cut-there :
    (s : Session) (n k : ℕ) (ss : List Session)
    → IsSafe s n ss
    → n ≤ length (drop k (by_age ss))
    → 1 ≤ count (session_id s.id) (drop k (by_age ss))
cut-there s n k ss h room =
    let sorted = by_age ss in
    let front = take k sorted in
    let kept = drop k sorted in
    let less = older (λ (x : Session). x.created_at) (λ x. x.id) in
    let own : All (Own s) front = All-take (Own s) k sorted (All-sort_by less (Own s) ss h.own) in
    elim (Bool-cases (leb 1 (count (session_id s.id) kept))) [
      | inl e ↦ ground (arith, e)
      | inr e ↦
          let gone : count (session_id s.id) kept ≡ 0 = ground (arith, e) in
          let in_front : 1 ≤ count (session_id s.id) front = omega (
            arith,
            gone,
            count-cut (session_id s.id) k sorted,
            count-sort_by less (session_id s.id) ss,
            h.there,
          ) in
          let above =
            All-find (session_id s.id)
              (λ (a : Session). All (NotNewer (λ (x : Session). x.created_at) (λ x. x.id) a) kept)
              front s
              (IsSorted-cut (NotNewer (λ (x : Session). x.created_at) (λ x. x.id)) k sorted
                (oldest_first (λ (x : Session). x.created_at) (λ x. x.id) ss))
              (found s front own in_front) in
          let all_newer : count (not_older s) kept ≡ length kept =
            count-passing (not_older s) kept
              (All-mono _ (λ x. not_older s x ≡ true) (λ x le. ground (arith, le)) kept above) in
          let itself =
            count_mono (session_id s.id) (not_older s) front
              (All-mono (Own s) _ (λ x o. Own-not_older s x o) front own) in
          absurd (
            omega (
              arith,
              all_newer,
              itself,
              in_front,
              room,
              h.newer,
              count-cut (not_older s) k sorted,
              count-sort_by less (not_older s) ss,
            ))
    ]

evict-IsSafe :
    (s : Session) (n cap : ℕ) (ss : List Session)
    → n ≤ suc cap
    → IsSafe s n ss
    → IsSafe s n (evict (pos (suc cap)) ss)
unfolding evict
evict-IsSafe s n cap ss fits h = elim (Bool-cases (suc cap == 0 || leb (length ss) (suc cap))) [
  | inl e ↦ rw e h
  | inr e ↦
      let less = older (λ (x : Session). x.created_at) (λ x. x.id) in
      let k = length ss - suc cap in
      let longer : suc cap ≤ length ss = ground (arith, e) in
      let room : n ≤ length (drop k (by_age ss)) =
        omega (arith, longer, fits, length-drop k (by_age ss), length-sort_by less ss) in
      rw e (record {
        own = All-drop (Own s) k (by_age ss) (All-sort_by less (Own s) ss h.own);
        there = cut-there s n k ss h room;
        newer = omega (
          arith,
          h.newer,
          count-cut (not_older s) k (by_age ss),
          count-sort_by less (not_older s) ss,
        );
      })
]

append-IsSafe :
    (s x : Session) (n : ℕ) (ss : List Session)
    → session_id s.id x ≡ false
    → IsSafe s n ss
    → IsSafe s (suc n) (ss ++ x ∷ [])
append-IsSafe s x n ss other h = record {
  own = All-append (Own s) ss (x ∷ []) h.own (inr other, tt);
  there = omega (arith, h.there, count-append (session_id s.id) ss (x ∷ []));
  newer = ground (arith, h.newer, count-append (not_older s) ss (x ∷ []));
}

-- Room for one more.
weaken : (s : Session) (n : ℕ) (ss : List Session) → IsSafe s n ss → IsSafe s (suc n) ss
weaken s n ss h = record { own = h.own; there = h.there; newer = omega (arith, h.newer) }

create-IsSafe :
    (s : Session) (n cap : ℕ) (token : String) (now : ℕ) (user name : String) (ttl : ℤ) (d : Data)
    → str_eq token s.id ≡ false
    → suc n ≤ suc cap
    → IsSafe s n d.sessions
    → IsSafe s (suc n) (outcome d (create (pos (suc cap)) token now user name ttl d)).sessions
unfolding create
create-IsSafe s n cap token now user name (negsuc k) d other fits h = weaken s n d.sessions h
create-IsSafe s n cap token now user name (pos ttl) d other fits h =
    let x = new_session token now user name ttl in
    elim (Bool-cases (ttl == 0)) [
      | inl e ↦ rw e (weaken s n d.sessions h)
      | inr e ↦ rw e (
          evict-IsSafe s (suc n) cap (d.sessions ++ x ∷ []) fits
            (append-IsSafe s x n d.sessions other h))
    ]

without-IsSafe :
    (s : Session) (n : ℕ) (token : String) (ss : List Session)
    → str_eq token s.id ≡ false
    → IsSafe s n ss
    → IsSafe s n (cut_first (session_id token) ss)
without-IsSafe s n token ss other h =
    let same = count-cut_first_same (session_id s.id) (session_id token) ss (λ x.
      elim (Bool-cases (session_id token x)) [
        | inl e ↦
            inr (ground (arith, e, other, eq_iff x.id token, eq_iff x.id s.id, eq_iff token s.id))
        | inr e ↦ inl e
      ]) in
    record {
      own = All-cut_first (session_id token) (Own s) ss h.own;
      there = omega (arith, same, h.there);
      newer = omega (arith, h.newer, count-cut_first_le (not_older s) (session_id token) ss);
    }

purge-IsSafe :
    (s : Session) (n now : ℕ) (ss : List Session)
    → now < s.expires_at
    → IsSafe s n ss
    → IsSafe s n (select (λ x. not (session_expired x now)) ss)
purge-IsSafe s n now ss live h =
    let same =
      count-select_same (session_id s.id) (λ x. not (session_expired x now)) ss
        (All-mono (Own s) _
          (λ x o. elim o [
            | inl e ↦ inr (ground (arith, live, ap (λ (y : Session). y.expires_at) e))
            | inr e ↦ inl e
          ])
          ss h.own) in
    record {
      own = All-select (Own s) (λ x. not (session_expired x now)) ss h.own;
      there = omega (arith, same, h.there);
      newer =
          omega
            (arith, h.newer, count-select_le (not_older s) (λ x. not (session_expired x now)) ss);
    }
