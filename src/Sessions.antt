-- ===== src/Sessions.antt =====
-- management/auth.go: `SessionService`, `AuthService` and `CanAccess`. Each operation is the
-- callback of `Store.Update` that it runs, after its checks; the token, the time of the call and
-- SHA-256 are arguments.
pub mod Survival
pub mod Logins
pub mod Endurance
use kplayer_go.Prelude.{
  ℕ, ◌+◌, ◌-◌, ◌≡◌, String, Bool, true, false, not, ◌&&◌, ◌||◌, Option, none, some, List, [], ◌∷◌,
  ◌++◌, str_eq, if◌then◌else◌, ltb, leb, ◌==◌,
}
use kplayer_go.Prelude.Lists.{length, count, select, drop}
use kplayer_go.Prelude.Int.{ℤ, pos, negsuc}
use kplayer_go.Prelude.Text.{is_blank}
use kplayer_go.Model.{Data, Err, Session, User, UserRole}
use kplayer_go.Result.{Result, ok, err, Txn, commit, keep, fail, refuse, check, ◌>>◌, ◌>>=◌}
use kplayer_go.Collection.{find, cut_first, has_id}
use kplayer_go.Ordering.{sort_by, older}
use kplayer_go.Users.{get_by_username}
use kplayer_go.Users.Hashing.{verify_password}
use Err.{not_found, invalid, invalid_credentials}

abbrev pub session_id : String → Session → Bool
session_id = has_id (λ s. s.id)

-- `sessionExpired`
abbrev pub session_expired : Session → ℕ → Bool
session_expired s now = not (ltb now s.expires_at)

-- The sessions in the order of `evict`.
abbrev pub by_age : List Session → List Session
by_age = sort_by (older (λ s. s.created_at) (λ s. s.id))

-- `evict`; `maxSessions` may be any int.
unfoldable pub evict : ℤ → List Session → List Session
evict (negsuc n) ss = ss
evict (pos cap) ss =
    if cap == 0 || leb (length ss) cap then ss else drop (length ss - cap) (by_age ss)

abbrev pub new_session : String → ℕ → String → String → ℕ → Session
new_session token now user_id username ttl = record {
  id = token;
  user_id = user_id;
  username = username;
  created_at = now;
  expires_at = now + ttl;
}

-- `SessionService.Create`
unfoldable pub create : ℤ → String → ℕ → String → String → ℤ → Data → Txn Data Session
unfolding evict
create cap token now user_id username (negsuc n) d = fail invalid
create cap token now user_id username (pos ttl) d =
    if ttl == 0
    then fail invalid
    else (let s = new_session token now user_id username ttl in
        commit (record d { sessions = evict cap (d.sessions ++ s ∷ []) }) s)

abbrev pub without : String → Data → Data
without token d = record d { sessions = cut_first (session_id token) d.sessions }

-- `Validate`: the document after it, and the session or the error.
unfoldable pub validate : String → ℕ → Data → Data × Result Session
validate token now d =
    if is_blank token then (d, err invalid) else (elim (find (session_id token) d.sessions) [
      | none ↦ (d, err not_found)
      | some s ↦ if session_expired s now then (without token d, err not_found) else (d, ok s)
    ])

-- `SessionService.Delete`
unfoldable pub delete : String → Data → Txn Data (Unit {0})
delete token d =
    if is_blank token then fail invalid else (elim (find (session_id token) d.sessions) [
      | none ↦ fail not_found
      | some s ↦ commit (without token d) tt
    ])

-- `PurgeExpired`
unfoldable pub purge_expired : ℕ → Data → Txn Data ℕ
purge_expired now d =
    let removed = count (λ s. session_expired s now) d.sessions in
    if removed == 0
    then keep 0
    else commit (record d { sessions = select (λ s. not (session_expired s now)) d.sessions })
        removed

-- `AuthService`, of which `Login` reads these
pub record Auth : Type 0 where
  pub sha : List ℕ → List ℕ
  pub max_sessions : ℤ
  pub ttl : ℤ

-- The end of `Login`, of the user that was found
abbrev pub login_as : Auth → String → ℕ → String → Data → User → Txn Data Session
login_as a token now plain d u =
    if not u.enabled
    then fail invalid_credentials
    else if not (verify_password a.sha plain u.password_hash)
    then fail invalid_credentials
    else create a.max_sessions token now u.id u.username a.ttl d

-- `Login`
unfoldable pub login : Auth → String → ℕ → String → String → Data → Txn Data Session
unfolding get_by_username create
login a token now username plain d = elim (get_by_username username d) [
  | err e ↦ fail invalid_credentials
  | ok u ↦ login_as a token now plain d u
]

-- `Logout` and `Authenticate`
unfoldable pub logout : String → Data → Txn Data (Unit {0})
unfolding delete
logout token d = delete token d

unfoldable pub authenticate : String → ℕ → Data → Data × Result Session
unfolding validate
authenticate token now d = validate token now d

pub data Resource : Type 0 where
  media playlist task output scene user audit webhook : Resource
  other : String → Resource

pub data Action : Type 0 where
  read write : Action
  other : String → Action

-- `operatorCanAccess`
abbrev readable : Resource → Bool
readable Resource.user = false
readable (Resource.other s) = false
readable _ = true

abbrev writable : Resource → Bool
writable Resource.user = false
writable Resource.audit = false
writable (Resource.other s) = false
writable _ = true

unfoldable pub operator_can_access : Resource → Action → Bool
operator_can_access r Action.read = readable r
operator_can_access r Action.write = writable r
operator_can_access r (Action.other s) = false

abbrev is_read : Action → Bool
is_read Action.read = true
is_read _ = false

-- `CanAccess`
unfoldable pub can_access : UserRole → Resource → Action → Bool
unfolding operator_can_access
can_access UserRole.admin r a = true
can_access UserRole.operator r a = operator_can_access r a
can_access UserRole.auditor r a = is_read a
can_access (UserRole.other s) r a = false
