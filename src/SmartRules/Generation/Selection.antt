-- ===== src/SmartRules/Generation/Selection.antt =====
-- Which media `GeneratePlaylist` of management/smart_generate.go selects.
use kplayer_go.Prelude.{
  ℕ, zero, suc, ◌+◌, ◌≡◌, refl, sym, ap, ◌∙◌, String, Bool, true, false, some, List, [], ◌∷◌, ◌++◌,
  map, if◌then◌else◌, arith, Bool-cases, leb, str_eq, eq_iff, inl, inr,
}
use mathlib.Core.Path.{subst}
use kplayer_go.Prelude.Int.{ℤ, pos, negsuc}
use kplayer_go.Prelude.Lists.{
  All, All-select, All-mono, All-both, any, take, length, select, length-append,
}
use kplayer_go.Prelude.Text.{trim_space, is_blank}
use kplayer_go.Collection.Laws.{any-find}
use kplayer_go.Collection.Counts.{All-take}
use kplayer_go.Playlist.{
  media_id, check_items, resolve_media, create, set_playlist_items, validate_fallback_ref,
  new_playlist,
}
use kplayer_go.Model.{Data, Media, SmartRule}
use kplayer_go.Result.{ok, err, commit}
use kplayer_go.SmartRules.Generation.{
  default_max_items, or_default, in_time_slots, qualifies, collect, generate_playlist,
  apply_generated,
}

abbrev pub id_of : Media → String
id_of m = m.id

-- What a rule allows at an hour, with no loop and no early end.
abbrev pub program : (ℕ → ℤ → Bool) → SmartRule → List Media → List String → ℤ → List String
program exceeds r media recent hour =
    if in_time_slots r.time_slots hour
    then take (or_default default_max_items r.max_items)
        (map id_of (select (qualifies exceeds r recent) media))
    else []

append-nil : (out : List String) → out ++ [] ≡ out
append-nil [] = refl
append-nil (x ∷ out) = ap (λ t. x ∷ t) (append-nil out)

append-snoc :
    (out : List String) (x : String) (ys : List String) → (out ++ x ∷ []) ++ ys ≡ out ++ x ∷ ys
append-snoc [] x ys = refl
append-snoc (y ∷ out) x ys = ap (λ t. y ∷ t) (append-snoc out x ys)

length-snoc : (out : List String) (x : String) → length (out ++ x ∷ []) ≡ suc (length out)
length-snoc out x = omega (arith, length-append out (x ∷ []))

-- What stays to be found is the rest of the bound.
collect-take :
    (p : Media → Bool) (k max : ℕ) (out : List String) (media : List Media)
    → max ≡ suc (k + length out)
    → collect p max out media ≡ out ++ take (suc k) (map id_of (select p media))
unfolding collect
collect-take p k max out [] h = sym (append-nil out)
collect-take p zero max out (m ∷ media) h = elim (Bool-cases (p m)) [
  | inr e ↦ rw e (collect-take p zero max out media h)
  | inl e ↦
      let enough : leb max (length (out ++ m.id ∷ [])) ≡ true =
        ground (arith, length-snoc out m.id, h) in
      rw e (rw enough refl)
]
collect-take p (suc k) max out (m ∷ media) h = elim (Bool-cases (p m)) [
  | inr e ↦ rw e (collect-take p (suc k) max out media h)
  | inl e ↦
      let more : leb max (length (out ++ m.id ∷ [])) ≡ false =
        ground (arith, length-snoc out m.id, h) in
      let left : max ≡ suc (k + length (out ++ m.id ∷ [])) =
        omega (arith, length-snoc out m.id, h) in
      rw e (
        rw more (
          collect-take p k max (out ++ m.id ∷ []) media left
          ∙ append-snoc out m.id (take (suc k) (map id_of (select p media)))))
]

collect-program :
    (p : Media → Bool) (n : ℕ) (z : ℤ) (media : List Media)
    → collect p (or_default (suc n) z) [] media
      ≡ take (or_default (suc n) z) (map id_of (select p media))
collect-program p n (pos zero) media = collect-take p n (suc n) [] media (omega arith)
collect-program p n (pos (suc k)) media = collect-take p k (suc k) [] media (omega arith)
collect-program p n (negsuc k) media = collect-take p n (suc n) [] media (omega arith)

-- The ids generated from a rule, whose loop ends early, are at an hour in one of its time slots
-- (or at any hour, when it has none) the ids of the media that pass its filters for tags, duration
-- and repeats, in the order of the library and no more than its positive limit or else 20; at
-- another hour they are none. This holds however a duration compares with a limit.
pub generate_playlist-program :
    (exceeds : ℕ → ℤ → Bool) (r : SmartRule) (media : List Media) (recent : List String) (hour : ℤ)
    → generate_playlist exceeds (some r) media recent hour
      ≡ ok (program exceeds r media recent hour)
unfolding generate_playlist
generate_playlist-program exceeds r media recent hour =
    elim (Bool-cases (in_time_slots r.time_slots hour)) [
      | inr e ↦ rw e refl
      | inl e ↦ rw e (ap ok (collect-program (qualifies exceeds r recent) 19 r.max_items media))
    ]

module _ {ℓ} {B : Type ℓ} (Q : B → Type 0) where
  All-map {κ} : {A : Type κ} (f : A → B) (xs : List A) → All (λ x. Q (f x)) xs → All Q (map f xs)
  All-map f [] h = tt
  All-map f (x ∷ xs) h = (h.0, All-map f xs h.1)

ok-same {ℓ} : {A : Type ℓ} {a b : A} → ok a ≡ ok b → a ≡ b
ok-same {a = a} h = ap (λ t. elim t [ ok x ↦ x | err e ↦ a ]) h

-- An id of the library as `setPlaylistItems` reads it
abbrev pub IsUsable : Data → String → Type 0
IsUsable d i = (trim_space i ≡ i) × (str_eq i "" ≡ false) × (any (media_id i) d.media ≡ true)

str_eq_refl : (i : String) → str_eq i i ≡ true
str_eq_refl i = ground (arith, eq_iff i i)

-- Every medium is found under its own id.
any-own : (media : List Media) → All (λ m. any (media_id m.id) media ≡ true) media
any-own [] = tt
any-own (m ∷ media) = (
  ground (arith, str_eq_refl m.id),
  All-mono (λ (x : Media). any (media_id x.id) media ≡ true)
      (λ (x : Media). any (media_id x.id) (m ∷ media) ≡ true) (λ x h. ground (arith, h)) media
      (any-own media),
)

check_items-same :
    (d : Data) (ids : List String) → All (IsUsable d) ids → check_items d ids ≡ ok ids
unfolding check_items resolve_media
check_items-same d [] h = refl
check_items-same d (i ∷ ids) h =
    let (m, f) = any-find (media_id i) d.media h.0.2 in
    let rest = check_items-same d ids h.1 in rw h.0.0 (rw h.0.1 (rw f (rw rest refl)))

-- A library whose ids survive trimming, as drawn ids do
abbrev pub HasPlainIds : Data → Type 0
HasPlainIds d = All (λ m. (trim_space m.id ≡ m.id) × (str_eq m.id "" ≡ false)) d.media

program-IsUsable :
    (exceeds : ℕ → ℤ → Bool) (r : SmartRule) (recent : List String) (hour : ℤ) (d : Data)
    → HasPlainIds d
    → All (IsUsable d) (program exceeds r d.media recent hour)
program-IsUsable exceeds r recent hour d h =
    let p = qualifies exceeds r recent in
    let Good : Media → Type 0 = λ m. IsUsable d m.id in
    let all : All Good d.media =
      All-both (λ (m : Media). (trim_space m.id ≡ m.id) × (str_eq m.id "" ≡ false))
        (λ (m : Media). any (media_id m.id) d.media ≡ true) Good (λ m a b. (a.0, a.1, b)) d.media h
        (any-own d.media) in
    elim (Bool-cases (in_time_slots r.time_slots hour)) [
      | inr e ↦ rw e tt
      | inl e ↦ rw e (
          All-take (IsUsable d) (or_default default_max_items r.max_items)
            (map id_of (select p d.media))
            (All-map (IsUsable d) id_of (select p d.media) (All-select Good p d.media all)))
    ]

-- What is generated from a rule and the document's own media, and is not empty, is accepted by
-- `ApplyGenerated` under every name that is not blank: the new playlist stands at the end of the
-- playlists and its items are the generated ids, in order. The ids of the media are taken to be
-- not empty and free of spaces around them.
pub generate_playlist-apply_generated :
    (exceeds : ℕ → ℤ → Bool) (r : SmartRule) (recent : List String) (hour : ℤ) (d : Data)
    (x : String) (ids : List String) (id : String) (now : ℕ) (name : String)
    → HasPlainIds d
    → is_blank name ≡ false
    → generate_playlist exceeds (some r) d.media recent hour ≡ ok (x ∷ ids)
    → let p = record (new_playlist id now name "" false) { items = x ∷ ids } in
      apply_generated id now name (x ∷ ids) d
      ≡ commit (record d { playlists = d.playlists ++ p ∷ [] }) p
unfolding apply_generated create set_playlist_items validate_fallback_ref
generate_playlist-apply_generated exceeds r recent hour d x ids id now name plain named h =
    let same : program exceeds r d.media recent hour ≡ x ∷ ids =
      ok-same (sym (generate_playlist-program exceeds r d.media recent hour) ∙ h) in
    let found =
      check_items-same d (x ∷ ids)
        (subst (All (IsUsable d)) same (program-IsUsable exceeds r recent hour d plain)) in
    rw named (rw found refl)
