-- ===== src/Users.antt =====
-- management/user.go: `UserService`. Each operation is the callback of `Store.Update` that it
-- runs, after its checks; the id, the salt that was drawn (`none` if `rand.Read` failed) and
-- SHA-256 are arguments.
pub mod Hashing
pub mod Passwords
pub mod Names
use kplayer_go.Prelude.{
  ℕ, ◌≡◌, String, Bool, true, false, not, ◌&&◌, Option, none, some, List, [], ◌∷◌, ◌++◌, str_eq,
  if◌then◌else◌, ltb,
}
use kplayer_go.Prelude.Lists.{length, any}
use kplayer_go.Prelude.Text.{trim_space, is_blank, bytes, less_text}
use kplayer_go.Model.{Data, Err, User, UserRole}
use kplayer_go.Result.{Result, ok, err, Txn, commit, keep, fail, refuse, check, ◌>>◌, ◌>>=◌}
use kplayer_go.Collection.{find, has_id}
use kplayer_go.Catalog.{add, replace, change, setting, remove, within}
use kplayer_go.Ordering.{sort_by}
use kplayer_go.Users.Hashing.{hash_password}
use Err.{not_found, invalid, already_exists, plain}

pub record UserSpec : Type 0 where
  pub username : String
  pub password : String
  pub role : UserRole
  pub enabled : Bool

abbrev pub min_password_length : ℕ
min_password_length = 8

-- `validateUserRole`
abbrev pub known_role : UserRole → Bool
known_role UserRole.admin = true
known_role UserRole.operator = true
known_role UserRole.auditor = true
known_role (UserRole.other s) = false

unfoldable pub validate_role : UserRole → Result (Unit {0})
validate_role r = refuse (not (known_role r)) invalid

-- `validateUserProfile`
unfoldable pub validate_profile : UserSpec → Result (Unit {0})
unfolding validate_role
validate_profile s = do refuse (is_blank s.username) invalid; validate_role s.role

abbrev pub too_short : String → Bool
too_short password = ltb (length (bytes password)) min_password_length

-- `validateUserSpec`
unfoldable pub validate_spec : UserSpec → Result UserSpec
unfolding validate_profile
validate_spec spec =
    let s : UserSpec = record spec { username = trim_space spec.username } in
    (do validate_profile s; refuse (too_short s.password) invalid; ok s)

abbrev pub user_id : String → User → Bool
user_id = has_id (λ u. u.id)

abbrev pub is_named : String → User → Bool
is_named name u = str_eq u.username name

abbrev pub or_absent : Option User → Result User
or_absent none = err not_found
or_absent (some u) = ok u

-- `List`, `Get` and `GetByUsername`
unfoldable pub list : Data → List User
list d = sort_by (λ (a b : User). less_text a.username b.username) d.users

unfoldable pub get : String → Data → Result User
get id d = or_absent (find (user_id id) d.users)

unfoldable pub get_by_username : String → Data → Result User
get_by_username name d = or_absent (find (is_named name) d.users)

-- `hashPassword`, which fails without a salt.
abbrev pub new_hash : (List ℕ → List ℕ) → Option (List ℕ) → String → Result (List ℕ)
new_hash sha none password = err plain
new_hash sha (some salt) password = ok (hash_password sha salt password)

abbrev pub new_user : String → ℕ → List ℕ → UserSpec → User
new_user id now hash s = record {
  id = id;
  username = s.username;
  password_hash = hash;
  role = s.role;
  enabled = s.enabled;
  created_at = now;
  updated_at = now;
}

abbrev pub id_of : User → String
id_of u = u.id

abbrev pub name_of : User → String
name_of u = u.username

abbrev pub in_users {ℓ} : {A : Type ℓ} → Data → Txn (List User) A → Txn Data A
in_users d = within (λ us. record d { users = us })

abbrev pub stamped : ℕ → User → User
stamped now u = record u { updated_at = now }

-- `Create`
unfoldable pub create :
    (List ℕ → List ℕ) → Option (List ℕ) → String → ℕ → UserSpec → Data → Txn Data User
unfolding validate_spec
create sha salt id now spec d = check (validate_spec spec) λ s.
    check (new_hash sha salt s.password)
      λ hash. in_users d (add id_of name_of (new_user id now hash s) d.users)

abbrev pub with_profile : UserSpec → ℕ → User → User
with_profile s now u = record u {
  username = s.username;
  role = s.role;
  enabled = s.enabled;
  updated_at = now;
}

-- `Update`
unfoldable pub update : String → ℕ → UserSpec → Data → Txn Data User
unfolding validate_profile
update id now spec d =
    let s : UserSpec = record spec { username = trim_space spec.username } in
    check (validate_profile s)
      λ _. in_users d (replace id_of name_of id s.username (with_profile s now) d.users)

-- `SetPassword`
unfoldable pub set_password :
    (List ℕ → List ℕ) → Option (List ℕ) → String → ℕ → String → Data → Txn Data (Unit {0})
set_password sha salt id now password d = check (refuse (too_short password) invalid) λ _.
    check (new_hash sha salt password) λ hash.
      in_users d
        (change id_of id (stamped now) (setting (λ u. record u { password_hash = hash })) d.users)

-- `SetEnabled`
unfoldable pub set_enabled : String → ℕ → Bool → Data → Txn Data (Unit {0})
set_enabled id now enabled d =
    in_users d
      (change id_of id (stamped now) (setting (λ u. record u { enabled = enabled })) d.users)

-- `Delete`
unfoldable pub delete : String → Data → Txn Data (Unit {0})
delete id d = in_users d (remove id_of id d.users)
