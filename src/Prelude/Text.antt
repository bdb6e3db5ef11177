-- ===== src/Prelude/Text.antt =====
-- `strings.TrimSpace` over the native texts.
use Prim.Native.Nat.{ℕ, ◌+◌, ◌/◌, ◌%◌}
use Prim.Native.Char.{Char, code}
use Prim.Native.String.{String}
use mathlib.Core.Path.{◌≡◌, refl}
use mathlib.Core.Bool.{Bool, true, false, ◌&&◌, ◌||◌}
use mathlib.Core.List.{List, [], ◌∷◌, ◌++◌}
use text.Mathlib.Text.{◌==◌ as str_eq}
use kplayer_go.Prelude.Tests.{leb, ltb, ◌==◌, if◌then◌else◌}

-- `unicode.IsSpace`.
unfoldable pub is_space : ℕ → Bool
is_space c =
    leb 9 c && leb c 13
    || c == 32
    || c == 0x85
    || c == 0xA0
    || c == 0x1680
    || leb 0x2000 c && leb c 0x200a
    || c == 0x2028
    || c == 0x2029
    || c == 0x202f
    || c == 0x205f
    || c == 0x3000

trim_left : String → String
trim_left String.[] = ""
trim_left (String.◌∷◌ c s) =
    let rest = trim_left s in if is_space (code c) then rest else String.◌∷◌ c s

-- A character in front of a text without trailing space.
abbrev cons_trimmed : Char → String → String
cons_trimmed c String.[] = if is_space (code c) then "" else String.◌∷◌ c String.[]
cons_trimmed c (String.◌∷◌ d s) = String.◌∷◌ c (String.◌∷◌ d s)

trim_right : String → String
trim_right String.[] = ""
trim_right (String.◌∷◌ c s) = cons_trimmed c (trim_right s)

unfoldable pub trim_space : String → String
unfolding is_space trim_left trim_right
trim_space s = trim_right (trim_left s)

-- `strings.TrimSpace(s) == ""`
abbrev pub is_blank : String → Bool
is_blank s = str_eq (trim_space s) ""

trim_test : trim_space "  a b\t" ≡ "a b"
unfolding trim_space
trim_test = refl

-- The code points of a text.
abbrev pub codes : String → List ℕ
codes String.[] = []
codes (String.◌∷◌ c s) = code c ∷ codes s

-- The same trim over lists of code points.
trim_codes_left : List ℕ → List ℕ
trim_codes_left [] = []
trim_codes_left (c ∷ s) = let rest = trim_codes_left s in if is_space c then rest else c ∷ s

abbrev cons_codes_trimmed : ℕ → List ℕ → List ℕ
cons_codes_trimmed c [] = if is_space c then [] else c ∷ []
cons_codes_trimmed c (d ∷ s) = c ∷ d ∷ s

trim_codes_right : List ℕ → List ℕ
trim_codes_right [] = []
trim_codes_right (c ∷ s) = cons_codes_trimmed c (trim_codes_right s)

unfoldable pub trim_codes : List ℕ → List ℕ
unfolding is_space trim_codes_left trim_codes_right
trim_codes s = trim_codes_right (trim_codes_left s)

-- `<` on texts: that of their UTF-8 bytes is that of their code points.
less_codes : List ℕ → List ℕ → Bool
less_codes [] [] = false
less_codes [] (d ∷ t) = true
less_codes (c ∷ s) [] = false
less_codes (c ∷ s) (d ∷ t) = let rest = less_codes s t in ltb c d || c == d && rest

unfoldable pub less_text : String → String → Bool
unfolding less_codes
less_text s t = less_codes (codes s) (codes t)

-- The UTF-8 encoding of a character, and of a text.
abbrev utf8 : ℕ → List ℕ
utf8 c =
    if leb c 0x7f
    then c ∷ []
    else if leb c 0x7ff
    then (0xc0 + c / 64) ∷ (0x80 + c % 64) ∷ []
    else if leb c 0xffff
    then (0xe0 + c / 4096) ∷ (0x80 + c / 64 % 64) ∷ (0x80 + c % 64) ∷ []
    else (0xf0 + c / 262144) ∷ (0x80 + c / 4096 % 64) ∷ (0x80 + c / 64 % 64) ∷ (0x80 + c % 64) ∷ []

unfoldable pub bytes : String → List ℕ
bytes String.[] = []
bytes (String.◌∷◌ c s) = utf8 (code c) ++ bytes s
