-- ===== src/OutputGroups/References.antt =====
-- The output references of a group in management/output_group.go: trimmed, set, each once.
use kplayer_go.Prelude.{
  ◌≡◌, Bool, false, not, ◌&&◌, ◌||◌, String, List, [], ◌∷◌, ◌++◌, arith, str_eq, eq_iff, Bool-cases,
  inl, inr,
}
use mathlib.Core.Path.{subst}
use kplayer_go.Prelude.Lists.{any, All, All-append, any-append}
use kplayer_go.Prelude.Text.{trim_space}
use kplayer_go.Collection.Distinct.{Distinct, Distinct-append}
use kplayer_go.OutputGroups.{with_ref, normalize_onto, normalize_refs}

-- References that are set, each of them once.
abbrev pub AreRefs : List String → Type 0
AreRefs rs = Distinct (λ r. r) rs × All (λ r. str_eq r "" ≡ false) rs

abbrev pub has_ref : List String → String → Bool
has_ref rs r = any (λ o. str_eq o r) rs

pub append-AreRefs :
    (rs : List String) (r : String)
    → str_eq r "" ≡ false
    → has_ref rs r ≡ false
    → AreRefs rs
    → AreRefs (rs ++ r ∷ [])
append-AreRefs rs r filled new (d, a) = (
  Distinct-append (λ x. x) rs r new d,
  All-append (λ x. str_eq x "" ≡ false) rs (r ∷ []) a (filled, tt),
)

with_ref-AreRefs : (out : List String) (r : String) → AreRefs out → AreRefs (with_ref out r)
with_ref-AreRefs out r h = elim (Bool-cases (str_eq r "")) [
  | inl e ↦ rw e h
  | inr e ↦ elim (Bool-cases (has_ref out r)) [
    | inl f ↦ rw (e, f) h
    | inr f ↦ rw (e, f) (append-AreRefs out r e f h)
  ]
]

normalize_onto-AreRefs : (out refs : List String) → AreRefs out → AreRefs (normalize_onto out refs)
unfolding normalize_onto
normalize_onto-AreRefs out [] h = h
normalize_onto-AreRefs out (r ∷ refs) h =
    normalize_onto-AreRefs (with_ref out (trim_space r)) refs
      (with_ref-AreRefs out (trim_space r) h)

with_ref-has :
    (out : List String) (r s : String)
    → has_ref (with_ref out r) s ≡ (has_ref out s || not (str_eq s "") && str_eq r s)
with_ref-has out r s = elim (Bool-cases (str_eq r s)) [
  | inl e ↦
      subst (λ x. has_ref (with_ref out r) x ≡ (has_ref out x || not (str_eq x "") && str_eq r x))
        ((eq_iff r s).0 e) (ground (arith, eq_iff r r, any-append (λ o. str_eq o r) out (r ∷ [])))
  | inr e ↦ ground (arith, e, any-append (λ o. str_eq o s) out (r ∷ []))
]

normalize_onto-has :
    (out refs : List String) (s : String)
    → has_ref (normalize_onto out refs) s
      ≡ (has_ref out s || not (str_eq s "") && any (λ r. str_eq (trim_space r) s) refs)
unfolding normalize_onto
normalize_onto-has out [] s = ground arith
normalize_onto-has out (r ∷ refs) s = ground (
  arith,
  normalize_onto-has (with_ref out (trim_space r)) refs s,
  with_ref-has out (trim_space r) s,
)

-- The references that are stored are set, none is there twice, and they are exactly those that
-- are given, trimmed, save the blank ones.
pub normalize_refs_exact :
    (refs : List String)
    → AreRefs (normalize_refs refs)
      × ((s : String)
          → has_ref (normalize_refs refs) s
            ≡ (not (str_eq s "") && any (λ r. str_eq (trim_space r) s) refs))
unfolding normalize_refs
normalize_refs_exact refs =
    (normalize_onto-AreRefs [] refs (tt, tt), λ s. normalize_onto-has [] refs s)
