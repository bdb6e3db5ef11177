-- ===== src/Tests/Accounts.antt =====
-- Accounts and sessions on concrete documents, with a small function in place of SHA-256.
use Prim.Native.Nat.{min}
use kplayer_go.Prelude.{
  ℕ, suc, ◌%◌, ◌≡◌, refl, true, String, some, List, [], ◌∷◌, ◌++◌, arith, ◌↔◌, ◌⊎◌,
}
use kplayer_go.Prelude.Int.{pos}
use kplayer_go.Prelude.Lists.{length, All}
use kplayer_go.Model.{Data, User, UserRole, Session, empty_data, invalid_credentials}
use kplayer_go.Result.{ok, commit, fail}
use kplayer_go.Prelude.Text.{trim_space, bytes}
use kplayer_go.Collection.{find}
use kplayer_go.Ordering.{sort_by}
use kplayer_go.Catalog.{add}
use kplayer_go.Users.{UserSpec, is_named, new_user}
use kplayer_go.Users.Hashing.{hash_password, verify_password, derive}
use kplayer_go.Users.Passwords.{verify_password-hash_password}
use kplayer_go.Users.Names.{updating, after_call, WellFormed, after_call-WellFormed}
use kplayer_go.Sessions.{Auth, new_session, create, login, authenticate}
use kplayer_go.Sessions.Survival.{Ranked, create-keeps_newest}
use kplayer_go.Sessions.Endurance.Calls.{
  Call, opening, closing, checking, purging, after_calls, create-authenticate,
}
use kplayer_go.Sessions.Logins.{is_commit, create-login, login-refused, login-grants}
use kplayer_go.Users as Users

abbrev sum : List ℕ → List ℕ
sum x = length x % 256 ∷ []

abbrev auth : Auth
auth = record { sha = sum; max_sessions = pos 2; ttl = pos 60 }

abbrev salt : List ℕ
salt = 7 ∷ 200 ∷ []

abbrev spec : UserSpec
spec = record {
  username = " ann ";
  password = "correct horse";
  role = UserRole.operator;
  enabled = true;
}

abbrev ann : User
ann = new_user "u1" 5 (hash_password sum salt "correct horse") (record spec { username = "ann" })

abbrev office : Data
office = record empty_data { users = ann ∷ [] }

created_test : Users.create sum (some salt) "u1" 5 spec empty_data ≡ commit office ann
unfolding Users.create trim_space bytes add
created_test = refl

create-login_example :
    (is_commit (login auth "t" 9 "ann" "battery staple" office) ≡ true)
    ↔ (derive sum salt "battery staple" ≡ derive sum salt "correct horse")
create-login_example =
    create-login auth 59 salt "u1" 5 spec empty_data office ann "t" 9 "battery staple"
      (λ x. (omega arith, tt)) (λ x. refl) (omega arith, (omega arith, tt)) refl refl refl
      created_test

login-refused_example :
    (is_commit (login auth "t" 9 "bob" "battery staple" office) ≡ true)
    ⊎ (login auth "t" 9 "bob" "battery staple" office ≡ fail invalid_credentials)
login-refused_example = login-refused auth 59 "t" 9 "bob" "battery staple" office refl

after_call-WellFormed_example :
    WellFormed (after_call sum (updating "u1" 9 (record spec { username = "anna" })) office).users
unfolding trim_space
after_call-WellFormed_example =
    after_call-WellFormed sum (updating "u1" 9 (record spec { username = "anna" })) office tt
      (record { ids = (refl, tt); names = (refl, tt); each = ((refl, refl), tt) })

abbrev session : String → ℕ → Session
session id at = new_session id at "u1" "ann" 60

abbrev before : Data
before = record empty_data { sessions = session "a" 3 ∷ session "b" 1 ∷ [] }

abbrev after : Data
after = record empty_data { sessions = session "a" 3 ∷ session "c" 9 ∷ [] }

opened_test : create (pos 2) "c" 9 "u1" "ann" (pos 60) before ≡ commit after (session "c" 9)
unfolding create sort_by
opened_test = refl

create-keeps_newest_example :
    (length after.sessions ≡ min 2 (suc (length before.sessions)))
    × All (Ranked after.sessions) (before.sessions ++ session "c" 9 ∷ [])
create-keeps_newest_example =
    create-keeps_newest 1 (pos 60) "c" 9 "u1" "ann" before after (session "c" 9) opened_test

-- One more login, which evicts an older session, a logout and a purge
abbrev later_calls : List Call
later_calls = opening "d" 12 "u2" "bob" (pos 60) ∷ closing "a" ∷ checking "d" 20 ∷ purging 25 ∷ []

create-authenticate_example :
    authenticate "c" 30 (after_calls (pos 2) later_calls after)
    ≡ (after_calls (pos 2) later_calls after, ok (session "c" 9))
unfolding trim_space
create-authenticate_example =
    create-authenticate 1 (pos 60) "c" 9 "u1" "ann" before after (session "c" 9) later_calls 30 refl
      refl (omega arith, (omega arith, tt)) opened_test
      (refl, (refl, (omega arith, (omega arith, tt)))) (omega arith) (omega arith)

abbrev entered : Data
entered = record office { sessions = session "t" 9 ∷ [] }

verified_test : verify_password sum "correct horse" ann.password_hash ≡ true
verified_test =
    (verify_password-hash_password sum (λ x. (omega arith, tt)) (λ x. refl) salt "correct horse"
        "correct horse" (omega arith, (omega arith, tt)) refl).1
      refl

entered_test : login auth "t" 9 "ann" "correct horse" office ≡ commit entered (session "t" 9)
unfolding login find create
entered_test = ground (arith, verified_test)

login-grants_example :
    (u : User) × (find (is_named "ann") office.users ≡ some u)
    × (u.enabled ≡ true)
    × (verify_password sum "correct horse" u.password_hash ≡ true)
    × ("u1" ≡ u.id)
    × ("ann" ≡ u.username)
    × (entered.users ≡ office.users)
login-grants_example =
    login-grants auth "t" 9 "ann" "correct horse" office entered (session "t" 9) entered_test
