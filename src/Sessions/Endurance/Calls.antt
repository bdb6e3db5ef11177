-- ===== src/Sessions/Endurance/Calls.antt =====
-- How long a session of management/auth.go is accepted, over any later calls of its service.
use kplayer_go.Prelude.{
  ℕ, suc, ◌+◌, ◌≤◌, ◌<◌, ◌≡◌, refl, false, String, some, List, [], ◌∷◌, ◌++◌, arith, str_eq, eq_iff,
  ◌==◌, Bool-cases, Option-cases, inl, inr, ap, sym,
}
use mathlib.Core.Path.{subst}
use kplayer_go.Prelude.Int.{ℤ, pos}
use kplayer_go.Prelude.Lists.{any, count, All, All-mono, All-append, All-none}
use kplayer_go.Prelude.Text.{is_blank}
use kplayer_go.Model.{Data, Session}
use kplayer_go.Result.{ok, commit, outcome}
use kplayer_go.Collection.{find}
use kplayer_go.Collection.Laws.{find-passes, All-find}
use kplayer_go.Ordering.Newest.{count-append, count-none}
use kplayer_go.Sessions.{
  session_id, session_expired, create, validate, authenticate, logout, delete, purge_expired,
}
use kplayer_go.Sessions.Survival.{create-evict}
use kplayer_go.Sessions.Endurance.{
  Own, not_older, IsSafe, found, evict-IsSafe, create-IsSafe, without-IsSafe, purge-IsSafe,
}

-- The calls on the sessions: a login opens one, the others close, check or purge.
pub data Call : Type 0 where
  opening : String → ℕ → String → String → ℤ → Call
  closing : String → Call
  checking : String → ℕ → Call
  purging : ℕ → Call

pub after_call : ℤ → Call → Data → Data
after_call cap (opening token now user name ttl) d =
    outcome d (create cap token now user name ttl d)
after_call cap (closing token) d = outcome d (logout token d)
after_call cap (checking token now) d = (authenticate token now d).0
after_call cap (purging now) d = outcome d (purge_expired now d)

pub after_calls : ℤ → List Call → Data → Data
after_calls cap [] d = d
after_calls cap (c ∷ cs) d = after_calls cap cs (after_call cap c d)

-- No other session gets the token, no logout names it, and no call comes when the session has
-- expired.
abbrev pub Spares : Session → Call → Type 0
Spares s (opening token now user name ttl) = str_eq token s.id ≡ false
Spares s (closing token) = str_eq token s.id ≡ false
Spares s (checking token now) = now < s.expires_at
Spares s (purging now) = now < s.expires_at

abbrev pub openings : List Call → ℕ
openings [] = 0
openings (opening token now user name ttl ∷ cs) = suc (openings cs)
openings (_ ∷ cs) = openings cs

delete-IsSafe :
    (s : Session) (n : ℕ) (token : String) (d : Data)
    → str_eq token s.id ≡ false
    → IsSafe s n d.sessions
    → IsSafe s n (outcome d (delete token d)).sessions
unfolding delete
delete-IsSafe s n token d other h = elim (Bool-cases (is_blank token)) [
  | inl e ↦ rw e h
  | inr e ↦ elim (Option-cases (find (session_id token) d.sessions)) [
    | inl f ↦ rw e (rw f h)
    | inr (x, f) ↦ rw e (rw f (without-IsSafe s n token d.sessions other h))
  ]
]

validate-IsSafe :
    (s : Session) (n : ℕ) (token : String) (now : ℕ) (d : Data)
    → now < s.expires_at
    → IsSafe s n d.sessions
    → IsSafe s n (validate token now d).0.sessions
unfolding validate
validate-IsSafe s n token now d live h = elim (Bool-cases (is_blank token)) [
  | inl e ↦ rw e h
  | inr e ↦ elim (Option-cases (find (session_id token) d.sessions)) [
    | inl f ↦ rw e (rw f h)
    | inr (x, f) ↦ elim (Bool-cases (session_expired x now)) [
      | inr g ↦ rw e (rw f (rw g h))
      | inl g ↦
          let there = find-passes (session_id token) d.sessions x f in
          let other : str_eq token s.id ≡ false =
            elim (All-find (session_id token) (Own s) d.sessions x h.own f) [
              | inl same ↦ absurd (ground (arith, g, live, ap (λ (y : Session). y.expires_at) same))
              | inr apart ↦
                  ground
                    (arith, apart, there, eq_iff x.id token, eq_iff x.id s.id, eq_iff token s.id)
            ] in
          rw e (rw f (rw g (without-IsSafe s n token d.sessions other h)))
    ]
  ]
]

purge_expired-IsSafe :
    (s : Session) (n now : ℕ) (d : Data)
    → now < s.expires_at
    → IsSafe s n d.sessions
    → IsSafe s n (outcome d (purge_expired now d)).sessions
unfolding purge_expired
purge_expired-IsSafe s n now d live h =
    elim (Bool-cases (count (λ x. session_expired x now) d.sessions == 0)) [
      | inl e ↦ rw e h
      | inr e ↦ rw e (purge-IsSafe s n now d.sessions live h)
    ]

after_calls-IsSafe :
    (s : Session) (n cap : ℕ) (cs : List Call) (d : Data)
    → All (Spares s) cs
    → n + openings cs ≤ suc cap
    → IsSafe s n d.sessions
    → IsSafe s (n + openings cs) (after_calls (pos (suc cap)) cs d).sessions
unfolding after_calls after_call logout authenticate
after_calls-IsSafe s n cap [] d ok_calls fits h = record {
  own = h.own;
  there = h.there;
  newer = omega (arith, h.newer);
}
after_calls-IsSafe s n cap (opening token now user name ttl ∷ cs) d ok_calls fits h =
    let e = outcome d (create (pos (suc cap)) token now user name ttl d) in
    let first =
      create-IsSafe s n cap token now user name ttl d ok_calls.0 (omega (arith, fits)) h in
    let rest = after_calls-IsSafe s (suc n) cap cs e ok_calls.1 (omega (arith, fits)) first in
    record { own = rest.own; there = rest.there; newer = omega (arith, rest.newer) }
after_calls-IsSafe s n cap (closing token ∷ cs) d ok_calls fits h =
    after_calls-IsSafe s n cap cs (outcome d (delete token d)) ok_calls.1 fits
      (delete-IsSafe s n token d ok_calls.0 h)
after_calls-IsSafe s n cap (checking token now ∷ cs) d ok_calls fits h =
    after_calls-IsSafe s n cap cs (validate token now d).0 ok_calls.1 fits
      (validate-IsSafe s n token now d ok_calls.0 h)
after_calls-IsSafe s n cap (purging now ∷ cs) d ok_calls fits h =
    after_calls-IsSafe s n cap cs (outcome d (purge_expired now d)) ok_calls.1 fits
      (purge_expired-IsSafe s n now d ok_calls.0 h)

-- The session that is opened, newer than all the others and with a token of its own
opened-IsSafe :
    (cap : ℕ) (ttl : ℤ) (token : String) (now : ℕ) (user name : String) (d e : Data) (s : Session)
    → any (session_id token) d.sessions ≡ false
    → All (λ x. x.created_at < now) d.sessions
    → create (pos (suc cap)) token now user name ttl d ≡ commit e s
    → IsSafe s 1 e.sessions
opened-IsSafe cap ttl token now user name d e s unused before h =
    let (own, time, eq) = create-evict (pos (suc cap)) ttl token now user name d e s h in
    let ss = d.sessions ++ s ∷ [] in
    let unused' : any (session_id s.id) d.sessions ≡ false =
      subst (λ i. any (session_id i) d.sessions ≡ false) (sym own) unused in
    let apart = All-none (session_id s.id) d.sessions unused' in
    let none_newer = count-none (not_older s) d.sessions (
      All-mono _ (λ x. not_older s x ≡ false) (λ x b. ground (arith, b, time)) d.sessions before) in
    let all : IsSafe s 1 ss = record {
      own =
          All-append (Own s) d.sessions (s ∷ [])
            (All-mono _ (Own s) (λ x o. inr o) d.sessions apart) (inl refl, tt);
      there = ground (arith, eq_iff s.id s.id, count-append (session_id s.id) d.sessions (s ∷ []));
      newer = ground (arith, none_newer, count-append (not_older s) d.sessions (s ∷ []));
    } in
    subst (IsSafe s 1) (sym eq) (evict-IsSafe s 1 cap ss (omega arith) all)

-- A session that was opened is accepted at every time before it expires, whatever calls open,
-- close, check and purge sessions in between, if with it no more sessions are opened than the
-- positive cap allows, no other session gets its token, no logout names it, and no check or purge
-- in between comes when it has expired. Its token is not blank and was not in use, and every other
-- session was created before it.
pub create-authenticate :
    (cap : ℕ) (ttl : ℤ) (token : String) (now : ℕ) (user name : String) (d e : Data) (s : Session)
    (cs : List Call) (later : ℕ)
    → is_blank token ≡ false
    → any (session_id token) d.sessions ≡ false
    → All (λ x. x.created_at < now) d.sessions
    → create (pos (suc cap)) token now user name ttl d ≡ commit e s
    → All (Spares s) cs
    → openings cs ≤ cap
    → later < s.expires_at
    → authenticate token later (after_calls (pos (suc cap)) cs e)
      ≡ (after_calls (pos (suc cap)) cs e, ok s)
unfolding authenticate validate
create-authenticate cap ttl token now user name d e s cs later filled unused before h calls fits
      live =
    let (own, _, _) = create-evict (pos (suc cap)) ttl token now user name d e s h in
    let safe =
      after_calls-IsSafe s 1 cap cs e calls (omega (arith, fits))
        (opened-IsSafe cap ttl token now user name d e s unused before h) in
    let last = (after_calls (pos (suc cap)) cs e).sessions in
    let there : find (session_id token) last ≡ some s =
      subst (λ i. find (session_id i) last ≡ some s) own (found s last safe.own safe.there) in
    ground (arith, filled, there, live)
