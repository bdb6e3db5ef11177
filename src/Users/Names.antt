-- ===== src/Users/Names.antt =====
-- The accounts of management/user.go stay well-formed under every operation.
use kplayer_go.Prelude.{ℕ, ◌≡◌, refl, Bool, true, false, String, Option, List, arith}
use mathlib.Core.Path.{subst}
use kplayer_go.Prelude.Lists.{any}
use kplayer_go.Prelude.Text.{trim_space, is_blank}
use kplayer_go.Model.{Data, User}
use kplayer_go.Model.Err.{invalid}
use kplayer_go.Result.{ok, refuse, outcome, outcome-check}
use kplayer_go.Catalog.Laws.{Kept, add-Holds, replace-Holds, set-Holds, remove-Holds}
use kplayer_go.Users.{
  UserSpec, known_role, validate_role, validate_profile, validate_spec, too_short, user_id,
  new_hash, new_user, id_of, name_of, stamped, with_profile, create, update, set_password,
  set_enabled, delete,
}

-- What an account must have: a name that is not blank, and a role of the three.
abbrev pub IsAccount : User → Type 0
IsAccount u = (known_role u.role ≡ true) × (is_blank u.username ≡ false)

-- No two users share a name or an id, and each of them is an account.
abbrev pub WellFormed : List User → Type 0
WellFormed = Kept id_of name_of IsAccount

module _ (sha : List ℕ → List ℕ) where
  -- The calls that change accounts.
  pub data Call : Type 0 where
    creating : Option (List ℕ) → String → ℕ → UserSpec → Call
    updating : String → ℕ → UserSpec → Call
    setting_password : Option (List ℕ) → String → ℕ → String → Call
    enabling : String → ℕ → Bool → Call
    deleting : String → Call

  pub after_call : Call → Data → Data
  after_call (creating salt id now spec) d = outcome d (create sha salt id now spec d)
  after_call (updating id now spec) d = outcome d (update id now spec d)
  after_call (setting_password salt id now password) d =
      outcome d (set_password sha salt id now password d)
  after_call (enabling id now enabled) d = outcome d (set_enabled id now enabled d)
  after_call (deleting id) d = outcome d (delete id d)

  -- The id that a creation draws is new.
  abbrev pub HasNewId : Call → Data → Type 0
  HasNewId (creating salt id now spec) d = any (user_id id) d.users ≡ false
  HasNewId _ d = Unit

profile-IsAccount :
    (s : UserSpec) (u : Unit {0})
    → validate_profile s ≡ ok u
    → (known_role s.role ≡ true) × (is_blank s.username ≡ false)
unfolding validate_profile validate_role
profile-IsAccount s u h = (ground (arith, h), ground (arith, h))

pub spec-IsAccount :
    (spec s : UserSpec)
    → validate_spec spec ≡ ok s
    → (known_role s.role ≡ true) × (is_blank s.username ≡ false)
unfolding validate_spec validate_profile validate_role
spec-IsAccount spec s h =
    let t : UserSpec = record spec { username = trim_space spec.username } in
    let same : t ≡ s = ground (arith, h) in
    let known : known_role t.role ≡ true = ground (arith, h) in
    let filled : is_blank t.username ≡ false = ground (arith, h) in
    subst (λ (x : UserSpec). (known_role x.role ≡ true) × (is_blank x.username ≡ false)) same
      (known, filled)

abbrev put : Data → List User → Data
put d us = record d { users = us }

abbrev read : Data → List User
read d = d.users

create-WellFormed :
    (sha : List ℕ → List ℕ) (salt : Option (List ℕ)) (id : String) (now : ℕ) (spec : UserSpec)
    (d : Data)
    → any (user_id id) d.users ≡ false
    → WellFormed d.users
    → WellFormed (outcome d (create sha salt id now spec d)).users
unfolding create
create-WellFormed sha salt id now spec d new good =
    outcome-check (λ (x : Data). WellFormed x.users) d (validate_spec spec) _ good
      λ s e.
        outcome-check (λ (x : Data). WellFormed x.users) d (new_hash sha salt s.password) _ good
          λ hash _.
            add-Holds id_of name_of IsAccount put read (λ d us. refl) (new_user id now hash s) d new
              (spec-IsAccount spec s e) good

update-WellFormed :
    (id : String) (now : ℕ) (spec : UserSpec) (d : Data)
    → WellFormed d.users
    → WellFormed (outcome d (update id now spec d)).users
unfolding update
update-WellFormed id now spec d good =
    let s : UserSpec = record spec { username = trim_space spec.username } in
    outcome-check (λ (x : Data). WellFormed x.users) d (validate_profile s) _ good
      λ v e.
        replace-Holds id_of name_of IsAccount put read (λ d us. refl) id s.username
          (with_profile s now) d (λ u. refl) (λ u. refl) (λ u _. profile-IsAccount s v e) good

set_password-WellFormed :
    (sha : List ℕ → List ℕ) (salt : Option (List ℕ)) (id : String) (now : ℕ) (password : String)
    (d : Data)
    → WellFormed d.users
    → WellFormed (outcome d (set_password sha salt id now password d)).users
unfolding set_password
set_password-WellFormed sha salt id now password d good =
    outcome-check (λ (x : Data). WellFormed x.users) d (refuse (too_short password) invalid) _ good
      λ _ _.
        outcome-check (λ (x : Data). WellFormed x.users) d (new_hash sha salt password) _ good
          λ hash _.
            set-Holds id_of name_of IsAccount put read (λ d us. refl) id (stamped now)
              (λ u. record u { password_hash = hash }) d (λ u. refl) (λ u. refl) (λ u k. k) good

-- Whatever is called, with whichever outcome, no two users share a name or an id afterwards, and
-- every user has a name that is not blank and a known role, if all this was so before and a
-- creation draws a new id.
pub after_call-WellFormed :
    (sha : List ℕ → List ℕ) (k : Call sha) (d : Data)
    → HasNewId sha k d
    → WellFormed d.users
    → WellFormed (after_call sha k d).users
unfolding after_call set_enabled delete
after_call-WellFormed sha (creating salt id now spec) d new good =
    create-WellFormed sha salt id now spec d new good
after_call-WellFormed sha (updating id now spec) d new good = update-WellFormed id now spec d good
after_call-WellFormed sha (setting_password salt id now password) d new good =
    set_password-WellFormed sha salt id now password d good
after_call-WellFormed sha (enabling id now enabled) d new good =
    set-Holds id_of name_of IsAccount put read (λ d us. refl) id (stamped now)
      (λ u. record u { enabled = enabled }) d (λ u. refl) (λ u. refl) (λ u k. k) good
after_call-WellFormed sha (deleting id) d new good =
    remove-Holds id_of name_of IsAccount put read (λ d us. refl) id d good
