-- ===== src/Users/Hashing.antt =====
-- The password digests of management/user.go: `hashPassword`, `verifyPassword` and their helpers,
-- over lists of bytes and of characters. SHA-256 and the random salt are parameters.
use kplayer_go.Prelude.{
  ℕ, zero, suc, ◌+◌, ◌-◌, ◌*◌, ◌/◌, ◌%◌, Bool, true, false, ◌&&◌, Option, none, some, List, [], ◌∷◌,
  ◌++◌, if◌then◌else◌, leb, ltb, String,
}
use kplayer_go.Prelude.Text.{bytes}
use kplayer_go.Cron.Scan.{cut, same_codes}

-- `hex.EncodeToString`
abbrev pub hex_digit : ℕ → ℕ
hex_digit n = if ltb n 10 then 48 + n else 87 + n

unfoldable pub encode_hex : List ℕ → List ℕ
encode_hex [] = []
encode_hex (b ∷ bs) = hex_digit (b / 16) ∷ hex_digit (b % 16) ∷ encode_hex bs

-- `hex.DecodeString`, of digits in either case; `none` is an error.
abbrev pub hex_value : ℕ → Option ℕ
hex_value c =
    if leb 48 c && leb c 57
    then some (c - 48)
    else if leb 97 c && leb c 102
    then some (c - 87)
    else if leb 65 c && leb c 70
    then some (c - 55)
    else none

abbrev pub byte_of : Option ℕ → Option ℕ → Option (List ℕ) → Option (List ℕ)
byte_of (some a) (some b) (some bs) = some ((a * 16 + b) ∷ bs)
byte_of _ _ _ = none

unfoldable pub decode_hex : List ℕ → Option (List ℕ)
decode_hex [] = some []
decode_hex (c ∷ []) = none
decode_hex (c ∷ d ∷ cs) = byte_of (hex_value c) (hex_value d) (decode_hex cs)

abbrev pub dollar : ℕ
dollar = 36

abbrev pub is_nil : List ℕ → Bool
is_nil [] = true
is_nil (_ ∷ _) = false

abbrev pub both_set : Option (List ℕ × List ℕ) → Option (List ℕ × List ℕ)
both_set none = none
both_set (some (salt, hash)) =
    if is_nil salt then none else if is_nil hash then none else some (salt, hash)

-- `splitPasswordHash`
unfoldable pub split_password_hash : List ℕ → Option (List ℕ × List ℕ)
unfolding cut
split_password_hash stored = both_set (cut dollar stored)

abbrev pub password_hash_iterations : ℕ
password_hash_iterations = 10000

module _ (sha : List ℕ → List ℕ) where
  -- The rounds after the first.
  unfoldable pub rounds : ℕ → List ℕ → List ℕ
  rounds zero h = h
  rounds (suc n) h = rounds n (sha h)

  -- `derivePasswordHash`
  unfoldable pub derive : List ℕ → String → List ℕ
  derive salt plain = rounds (password_hash_iterations - 1) (sha (salt ++ bytes plain))

  -- `hashPassword`, with the salt that was drawn
  unfoldable pub hash_password : List ℕ → String → List ℕ
  hash_password salt plain = encode_hex salt ++ dollar ∷ encode_hex (derive salt plain)

  abbrev pub matches : String → Option (List ℕ) → Option (List ℕ) → Bool
  matches plain (some salt) (some expected) =
      if is_nil salt then false else same_codes (derive salt plain) expected
  matches plain _ _ = false

  abbrev pub verify_halves : String → Option (List ℕ × List ℕ) → Bool
  verify_halves plain none = false
  verify_halves plain (some (salt, hash)) = matches plain (decode_hex salt) (decode_hex hash)

  -- `verifyPassword`
  unfoldable pub verify_password : String → List ℕ → Bool
  verify_password plain stored = verify_halves plain (split_password_hash stored)
