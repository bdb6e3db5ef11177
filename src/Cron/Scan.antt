-- ===== src/Cron/Scan.antt =====
-- The functions of Go's `strings` and `strconv` that management/cron.go uses, over code points,
-- and its tables of names.
use kplayer_go.Prelude.{
  ℕ, zero, suc, ◌+◌, ◌-◌, ◌*◌, Bool, true, false, ◌&&◌, not, Option, none, some, List, [], ◌∷◌, leb,
  ◌==◌, if◌then◌else◌, ◌≡◌, refl,
}
use kplayer_go.Prelude.Lists.{select}
use kplayer_go.Prelude.Int.{ℤ, pos, negsuc, int64_max}
use kplayer_go.Prelude.Text.{is_space, codes}

abbrev pub Names : Type 0
Names = List (List ℕ × ℕ)

unfoldable pub same_codes : List ℕ → List ℕ → Bool
same_codes [] [] = true
same_codes (a ∷ s) (b ∷ t) = a == b && same_codes s t
same_codes _ _ = false

-- One more code point in the first of the pieces.
abbrev onto_first : ℕ → List (List ℕ) → List (List ℕ)
onto_first c [] = (c ∷ []) ∷ []
onto_first c (s ∷ ss) = (c ∷ s) ∷ ss

-- The pieces between the code points that pass a test.
split_when : (ℕ → Bool) → List ℕ → List (List ℕ)
split_when test [] = [] ∷ []
split_when test (c ∷ s) =
    let rest = split_when test s in if test c then [] ∷ rest else onto_first c rest

abbrev is_empty : List ℕ → Bool
is_empty [] = true
is_empty (_ ∷ _) = false

-- `strings.Split(s, sep)` for a separator of one byte, and `strings.Fields(s)`
unfoldable pub split : ℕ → List ℕ → List (List ℕ)
unfolding split_when
split sep = split_when (λ c. c == sep)

unfoldable pub fields : List ℕ → List (List ℕ)
unfolding split_when is_space
fields s = select (λ f. not (is_empty f)) (split_when is_space s)

abbrev behind_first : ℕ → Option (List ℕ × List ℕ) → Option (List ℕ × List ℕ)
behind_first c none = none
behind_first c (some (before, behind)) = some (c ∷ before, behind)

-- `strings.IndexByte`, with the parts before and behind the first occurrence
unfoldable pub cut : ℕ → List ℕ → Option (List ℕ × List ℕ)
cut sep [] = none
cut sep (c ∷ s) = let rest = cut sep s in if c == sep then some ([], s) else behind_first c rest

-- `strings.ToLower`, as far as letters can become ASCII letters: the two code points outside
-- ASCII that do are U+0130 and U+212A.
abbrev lower_code : ℕ → ℕ
lower_code c =
    if leb b'A' c && leb c b'Z'
    then c + 32
    else if c == 0x130
    then b'i'
    else if c == 0x212A
    then b'k'
    else c

unfoldable pub lower : List ℕ → List ℕ
lower [] = []
lower (c ∷ s) = lower_code c ∷ lower s

-- `strconv.Atoi`: an optional sign, then digits; `none` is its error.
digits_value : ℕ → List ℕ → Option ℕ
digits_value n [] = some n
digits_value n (c ∷ s) =
    let rest = digits_value (n * 10 + (c - b'0')) s in
    if leb b'0' c && leb c b'9' then rest else none

abbrev positive : Option ℕ → Option ℤ
positive none = none
positive (some n) = if leb n int64_max then some (pos n) else none

abbrev negative : Option ℕ → Option ℤ
negative none = none
negative (some zero) = some (pos 0)
negative (some (suc n)) = if leb n int64_max then some (negsuc n) else none

unsigned : List ℕ → Option ℕ
unfolding digits_value
unsigned [] = none
unsigned (c ∷ s) = digits_value 0 (c ∷ s)

unfoldable pub atoi : List ℕ → Option ℤ
unfolding unsigned
atoi [] = none
atoi (c ∷ s) =
    if c == b'-'
    then negative (unsigned s)
    else if c == b'+'
    then positive (unsigned s)
    else positive (unsigned (c ∷ s))

-- `names[s]`
unfoldable pub name_value : List ℕ → Names → Option ℕ
unfolding same_codes
name_value s [] = none
name_value s ((n, v) ∷ names) = if same_codes n s then some v else name_value s names

abbrev pub month_names : Names
month_names =
    (codes "jan", 1)
    ∷ (codes "feb", 2)
    ∷ (codes "mar", 3)
    ∷ (codes "apr", 4)
    ∷ (codes "may", 5)
    ∷ (codes "jun", 6)
    ∷ (codes "jul", 7)
    ∷ (codes "aug", 8)
    ∷ (codes "sep", 9)
    ∷ (codes "oct", 10)
    ∷ (codes "nov", 11)
    ∷ (codes "dec", 12)
    ∷ []

abbrev pub dow_names : Names
dow_names =
    (codes "sun", 0)
    ∷ (codes "mon", 1)
    ∷ (codes "tue", 2)
    ∷ (codes "wed", 3)
    ∷ (codes "thu", 4)
    ∷ (codes "fri", 5)
    ∷ (codes "sat", 6)
    ∷ []

atoi_test : atoi (codes "-12") ≡ some (negsuc 11)
unfolding atoi
atoi_test = refl
