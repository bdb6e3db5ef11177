-- ===== src/Sessions/Logins.antt =====
-- Who `AuthService.Login` of management/auth.go lets in.
use kplayer_go.Prelude.{
  ℕ, suc, ◌≡◌, refl, Bool, true, false, String, some, List, [], ◌∷◌, ◌++◌, arith, eq_iff, ◌↔◌,
  Bool-cases, Option-cases, inl, inr, ◌⊎◌, ap, sym, ◌∙◌,
}
use mathlib.Core.Path.{subst}
use kplayer_go.Prelude.Int.{ℤ, pos, negsuc}
use kplayer_go.Prelude.Lists.{any}
use kplayer_go.Prelude.Text.{trim_space}
use kplayer_go.Model.{Data, Session, User, invalid_credentials}
use kplayer_go.Result.{Txn, commit, keep, fail, check-commit}
use kplayer_go.Collection.{find}
use kplayer_go.Collection.Laws.{find-append_new}
use kplayer_go.Users.{
  UserSpec, is_named, get_by_username, or_absent, validate_spec, new_hash, new_user,
}
use kplayer_go.Catalog.{add}
use kplayer_go.Users.Hashing.{hash_password, verify_password, derive, is_nil}
use kplayer_go.Users.Passwords.{AreBytes, verify_password-hash_password}
use kplayer_go.Sessions.{Auth, login, create, evict, new_session}
use kplayer_go.Users as Users

abbrev pub is_commit {ℓ κ} : {D : Type ℓ} {A : Type κ} → Txn D A → Bool
is_commit (commit d a) = true
is_commit (keep a) = false
is_commit (fail x) = false

create-owner :
    (cap ttl : ℤ) (token : String) (now : ℕ) (user name : String) (d e : Data) (s : Session)
    → create cap token now user name ttl d ≡ commit e s
    → (s.user_id ≡ user) × (s.username ≡ name) × (e.users ≡ d.users)
unfolding create
create-owner limit (negsuc n) token now user name d e s h = cc
create-owner limit (pos ttl) token now user name d e s h =
    let t = new_session token now user name ttl in
    let same : t ≡ s = ground (arith, h) in
    let doc : record d { sessions = evict limit (d.sessions ++ t ∷ []) } ≡ e = ground (arith, h) in
    (
      ap (λ (x : Session). x.user_id) (sym same),
      ap (λ (x : Session). x.username) (sym same),
      ap (λ (x : Data). x.users) (sym doc),
    )

-- A login that is refused gives one and the same error, whatever the account, if the sessions are
-- given a positive time to live.
pub login-refused :
    (a : Auth) (ttl : ℕ) (token : String) (now : ℕ) (username plain : String) (d : Data)
    → a.ttl ≡ pos (suc ttl)
    → (is_commit (login a token now username plain d) ≡ true)
      ⊎ (login a token now username plain d ≡ fail invalid_credentials)
unfolding login get_by_username create
login-refused a ttl token now username plain d h =
    elim (Option-cases (find (is_named username) d.users)) [
      | inl n ↦ inr (ground (arith, n))
      | inr (u, f) ↦ elim (Bool-cases u.enabled) [
        | inr off ↦ inr (ground (arith, f, off))
        | inl on ↦ elim (Bool-cases (verify_password a.sha plain u.password_hash)) [
          | inr bad ↦ inr (ground (arith, f, on, bad))
          | inl good ↦ inl (ground (arith, f, on, good, h))
        ]
      ]
    ]

-- A login that opens a session was made with the name and the password of a user that is enabled,
-- the session is that user's, and no account changes.
pub login-grants :
    (a : Auth) (token : String) (now : ℕ) (username plain : String) (d e : Data) (s : Session)
    → login a token now username plain d ≡ commit e s
    → (u : User) × (find (is_named username) d.users ≡ some u)
      × (u.enabled ≡ true)
      × (verify_password a.sha plain u.password_hash ≡ true)
      × (s.user_id ≡ u.id)
      × (s.username ≡ u.username)
      × (e.users ≡ d.users)
unfolding login get_by_username
login-grants a token now username plain d e s h =
    elim (Option-cases (find (is_named username) d.users)) [
      | inl n ↦ absurd (ground (arith, n, h))
      | inr (u, f) ↦
          let made : create a.max_sessions token now u.id u.username a.ttl d ≡ commit e s =
            ground (arith, f, h) in
          let (own, name, kept) =
            create-owner a.max_sessions a.ttl token now u.id u.username d e s made in
          (u, f, ground (arith, f, h), ground (arith, f, h), own, name, kept)
    ]

-- The user that `UserService.Create` adds is found by the name.
create-found :
    (sha : List ℕ → List ℕ) (salt : List ℕ) (id : String) (now : ℕ) (spec : UserSpec) (d e : Data)
    (u : User)
    → Users.create sha (some salt) id now spec d ≡ commit e u
    → (find (is_named u.username) e.users ≡ some u)
      × (u.password_hash ≡ hash_password sha salt spec.password)
      × (u.enabled ≡ spec.enabled)
unfolding Users.create add validate_spec
create-found sha salt id now spec d e u h =
    let (s, valid, h1) = check-commit (validate_spec spec) _ h in
    let v = new_user id now (hash_password sha salt s.password) s in
    let trimmed : record spec { username = trim_space spec.username } ≡ s = ground (arith, valid) in
    elim (Bool-cases (any (is_named v.username) d.users)) [
      | inl taken ↦ absurd (ground (arith, taken, h1))
      | inr free ↦
          let doc : record d { users = d.users ++ v ∷ [] } ≡ e = ground (arith, free, h1) in
          let same : v ≡ u = ground (arith, free, h1) in
          subst
            (λ (x : User).
              (find (is_named x.username) e.users ≡ some x)
              × (x.password_hash ≡ hash_password sha salt spec.password)
              × (x.enabled ≡ spec.enabled))
            same
            (
              ap (λ (x : Data). find (is_named v.username) x.users) (sym doc)
                  ∙ find-append_new (is_named v.username) d.users v free
                      ((eq_iff v.username v.username).1 refl),
              ap (λ (x : UserSpec). hash_password sha salt x.password) (sym trimmed),
              ap (λ (x : UserSpec). x.enabled) (sym trimmed),
            )
    ]

-- A user that was just created and enabled, with a salt of bytes that is not empty, is let in
-- with exactly the passwords that derive the same hash as the one given at the creation, if the
-- sessions have a positive time to live and SHA-256 gives a list of bytes that is not empty.
pub create-login :
    (a : Auth) (ttl : ℕ) (salt : List ℕ) (id : String) (now : ℕ) (spec : UserSpec) (d e : Data)
    (u : User) (token : String) (later : ℕ) (plain : String)
    → ((x : List ℕ) → AreBytes (a.sha x))
    → ((x : List ℕ) → is_nil (a.sha x) ≡ false)
    → AreBytes salt
    → is_nil salt ≡ false
    → a.ttl ≡ pos (suc ttl)
    → spec.enabled ≡ true
    → Users.create a.sha (some salt) id now spec d ≡ commit e u
    → (is_commit (login a token later u.username plain e) ≡ true)
      ↔ (derive a.sha salt plain ≡ derive a.sha salt spec.password)
unfolding login get_by_username create
create-login a ttl salt id now spec d e u token later plain sha_bytes sha_full bytes full positive
      on h =
    let (found, hash, enabled) = create-found a.sha salt id now spec d e u h in
    let verified =
      verify_password-hash_password a.sha sha_bytes sha_full salt plain spec.password bytes full in
    let decided : is_commit (login a token later u.username plain e)
        ≡ verify_password a.sha plain u.password_hash =
      elim (Bool-cases (verify_password a.sha plain u.password_hash)) [
        | inl good ↦ ground (arith, found, enabled, on, good, positive)
        | inr bad ↦ ground (arith, found, enabled, on, bad)
      ] in
    subst (λ b. (b ≡ true) ↔ (derive a.sha salt plain ≡ derive a.sha salt spec.password))
      (sym (decided ∙ ap (verify_password a.sha plain) hash)) verified
