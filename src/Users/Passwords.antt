-- ===== src/Users/Passwords.antt =====
-- A password verifies against the digest of another exactly if both derive the same hash.
use kplayer_go.Prelude.{
  ℕ, zero, suc, ◌+◌, ◌-◌, ◌*◌, ◌/◌, ◌%◌, ◌<◌, ◌≡◌, refl, true, false, some, List, [], ◌∷◌, ◌++◌,
  if◌then◌else◌, ◌==◌, String, ◌↔◌, arith, ap, sym, ◌∙◌,
}
use mathlib.Core.Path.{subst}
use kplayer_go.Prelude.Lists.{All}
use kplayer_go.Cron.Scan.{cut, same_codes}
use kplayer_go.Prelude.Text.{bytes}
use kplayer_go.Users.Hashing.{
  hex_digit, hex_value, encode_hex, decode_hex, byte_of, dollar, split_password_hash, both_set,
  rounds, derive, hash_password, verify_halves, matches, verify_password, is_nil,
  password_hash_iterations,
}

abbrev pub AreBytes : List ℕ → Type 0
AreBytes = All (λ b. b < 256)

hex_value-hex_digit : (n : ℕ) → n < 16 → hex_value (hex_digit n) ≡ some n
hex_value-hex_digit n h = ground (arith, h)

decode_hex-encode_hex : (bs : List ℕ) → AreBytes bs → decode_hex (encode_hex bs) ≡ some bs
unfolding encode_hex decode_hex
decode_hex-encode_hex [] h = refl
decode_hex-encode_hex (b ∷ bs) h =
    let hi = hex_value-hex_digit (b / 16) (omega (arith, h.0)) in
    let lo = hex_value-hex_digit (b % 16) (omega arith) in
    let value : b / 16 * 16 + b % 16 ≡ b = omega arith in
    ap (λ x. byte_of x (hex_value (hex_digit (b % 16))) (decode_hex (encode_hex bs))) hi
    ∙ ap (λ x. byte_of (some (b / 16)) x (decode_hex (encode_hex bs))) lo
    ∙ ap (byte_of (some (b / 16)) (some (b % 16))) (decode_hex-encode_hex bs h.1)
    ∙ ap (λ v. some (v ∷ bs)) value

hex_digit-ne-dollar : (n : ℕ) → (hex_digit n == dollar) ≡ false
hex_digit-ne-dollar n = ground arith

cut-encode_hex :
    (bs rest : List ℕ) → cut dollar (encode_hex bs ++ dollar ∷ rest) ≡ some (encode_hex bs, rest)
unfolding cut encode_hex
cut-encode_hex [] rest = refl
cut-encode_hex (b ∷ bs) rest =
    ground
      (arith, hex_digit-ne-dollar (b / 16), hex_digit-ne-dollar (b % 16), cut-encode_hex bs rest)

same_codes_sound : (xs ys : List ℕ) → same_codes xs ys ≡ true → xs ≡ ys
unfolding same_codes
same_codes_sound [] [] h = refl
same_codes_sound [] (y ∷ ys) h = ground (arith, h)
same_codes_sound (x ∷ xs) [] h = ground (arith, h)
same_codes_sound (x ∷ xs) (y ∷ ys) h =
    let rest = same_codes_sound xs ys (ground (arith, h)) in
    let first : x ≡ y = ground (arith, h) in ap (λ a. a ∷ xs) first ∙ ap (λ t. y ∷ t) rest

same_codes_refl : (xs : List ℕ) → same_codes xs xs ≡ true
unfolding same_codes
same_codes_refl [] = refl
same_codes_refl (x ∷ xs) = ground (arith, same_codes_refl xs)

pub same_codes_iff : (xs ys : List ℕ) → (same_codes xs ys ≡ true) ↔ (xs ≡ ys)
same_codes_iff xs ys =
    (same_codes_sound xs ys, λ e. subst (λ y. same_codes xs y ≡ true) e (same_codes_refl xs))

is_nil-encode_hex : (bs : List ℕ) → is_nil bs ≡ false → is_nil (encode_hex bs) ≡ false
unfolding encode_hex
is_nil-encode_hex [] h = h
is_nil-encode_hex (b ∷ bs) h = refl

both_set-set :
    (a b : List ℕ) → is_nil a ≡ false → is_nil b ≡ false → both_set (some (a, b)) ≡ some (a, b)
both_set-set a b ha hb = ground (arith, ha, hb)

module _ (sha : List ℕ → List ℕ) (sha-AreBytes : (x : List ℕ) → AreBytes (sha x))
    (sha-not_nil : (x : List ℕ) → is_nil (sha x) ≡ false) where
  rounds-kept :
      (n : ℕ) (h : List ℕ)
      → AreBytes h × (is_nil h ≡ false)
      → AreBytes (rounds sha n h) × (is_nil (rounds sha n h) ≡ false)
  unfolding rounds
  rounds-kept zero h p = p
  rounds-kept (suc n) h p = rounds-kept n (sha h) (sha-AreBytes h, sha-not_nil h)

  derive-kept :
      (salt : List ℕ) (plain : String)
      → AreBytes (derive sha salt plain) × (is_nil (derive sha salt plain) ≡ false)
  unfolding derive
  derive-kept salt plain =
      let x = salt ++ bytes plain in
      rounds-kept (password_hash_iterations - 1) (sha x) (sha-AreBytes x, sha-not_nil x)

  verify_halves-hashed :
      (salt expected : List ℕ) (plain : String)
      → AreBytes salt
      → is_nil salt ≡ false
      → AreBytes expected
      → verify_halves sha plain (some (encode_hex salt, encode_hex expected))
        ≡ same_codes (derive sha salt plain) expected
  verify_halves-hashed salt expected plain salt_ok filled expected_ok =
      ap (λ x. matches sha plain x (decode_hex (encode_hex expected)))
        (decode_hex-encode_hex salt salt_ok)
      ∙ ap (matches sha plain (some salt)) (decode_hex-encode_hex expected expected_ok)
      ∙ ap (λ b. if b then false else same_codes (derive sha salt plain) expected) filled

  -- A password verifies against the digest stored for another one exactly if both derive the same
  -- hash under its salt, when the salt is a list of bytes, not empty, and SHA-256 gives one.
  pub verify_password-hash_password :
      (salt : List ℕ) (plain other : String)
      → AreBytes salt
      → is_nil salt ≡ false
      → (verify_password sha plain (hash_password sha salt other) ≡ true)
        ↔ (derive sha salt plain ≡ derive sha salt other)
  unfolding verify_password hash_password split_password_hash
  verify_password-hash_password salt plain other salt_ok filled =
      let h = derive sha salt other in
      let kept = derive-kept salt other in
      let split : split_password_hash (hash_password sha salt other)
          ≡ some (encode_hex salt, encode_hex h) =
        ap both_set (cut-encode_hex salt (encode_hex h))
        ∙ both_set-set (encode_hex salt) (encode_hex h) (is_nil-encode_hex salt filled)
            (is_nil-encode_hex h kept.1) in
      let value : verify_password sha plain (hash_password sha salt other)
          ≡ same_codes (derive sha salt plain) h =
        ap (verify_halves sha plain) split
        ∙ verify_halves-hashed salt h plain salt_ok filled kept.0 in
      subst (λ b. (b ≡ true) ↔ (derive sha salt plain ≡ h)) (sym value)
        (same_codes_iff (derive sha salt plain) h)
