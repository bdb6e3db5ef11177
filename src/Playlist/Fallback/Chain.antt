-- ===== src/Playlist/Fallback/Chain.antt =====
-- The fallback chain as a relation, and the walk against it.
use kplayer_go.Prelude.{
  ℕ, zero, suc, ◌+◌, ◌≤◌, ◌<◌, ◌≡◌, ◌≢◌, refl, String, Bool, true, false, none, some, List, [], ◌∷◌,
  arith, ltb, str_eq, eq_iff, Bool-cases, inl, inr, ◌||◌, ap, ◌↔◌,
}
use mathlib.Core.Path.{subst}
use kplayer_go.Prelude.Lists.{any, All, All-mono}
use kplayer_go.Model.{Data, Media, Playlist, Err}
use kplayer_go.Result.{ok, err, Result-cases}
use kplayer_go.Playlist.{resolve_playlist, resolve_playlist_items}
use kplayer_go.Playlist.Fallback.{
  Resolved, max_fallback_depth, is_satisfied, follow, resolve_with_fallback,
}

-- `Chain d cur n items`: the n-th playlist along the chain from `cur` is the first that resolves
-- to at least one media, and `items` is what it resolves to.
pub data Chain (d : Data) (items : List Media) : String → ℕ → Type 0 where
  here :
      {cur : String} → resolve_playlist_items d cur ≡ ok items → items ≢ [] → Chain d items cur zero
  hop :
      {cur : String} {n : ℕ} (p : Playlist)
      → is_satisfied (resolve_playlist_items d cur) ≡ false
      → resolve_playlist d cur ≡ ok p
      → p.fallback_playlist_id ≢ ""
      → Chain d items p.fallback_playlist_id n
      → Chain d items cur (suc n)

-- The walk needs no more fuel than the hops that are left and one round.
follow_total :
    (fuel : ℕ) (d : Data) (seen : List String) (cur : String) (hops : ℕ) (used : Bool)
    → hops ≤ max_fallback_depth
    → max_fallback_depth < hops + fuel
    → follow fuel d seen cur hops used ≢ none
unfolding follow
follow_total zero d seen cur hops used k h = absurd (omega arith)
follow_total (suc fuel) d seen cur hops used k h = elim (Result-cases (resolve_playlist d cur)) [
  | inl (p, e) ↦
      ground (arith, e, follow_total fuel d (cur ∷ seen) p.fallback_playlist_id (hops + 1) true)
  | inr (x, e) ↦ ground (arith, e)
]

-- `ResolveWithFallback` always returns, within its six rounds.
pub resolve_with_fallback_total : (d : Data) (id : String) → resolve_with_fallback d id ≢ none
unfolding resolve_with_fallback
resolve_with_fallback_total d id =
    follow_total (suc max_fallback_depth) d [] id 0 false (omega arith) (omega arith)

nonempty_satisfied : (items : List Media) → items ≢ [] → is_satisfied (ok items) ≡ true
nonempty_satisfied [] h = absurd (h refl)
nonempty_satisfied (m ∷ ms) h = refl

-- The length of a chain is determined.
Chain-unique :
    {d : Data} {xs ys : List Media} {cur : String} {n m : ℕ}
    → Chain d xs cur n
    → Chain d ys cur m
    → n ≡ m
Chain-unique (here e k) (here e' k') = refl
Chain-unique {xs = xs} (here e k) (hop p u r f c) = cc (ap is_satisfied e, nonempty_satisfied xs k)
Chain-unique {ys = ys} (hop p u r f c) (here e k) = cc (ap is_satisfied e, nonempty_satisfied ys k)
Chain-unique {d} {xs} {ys} (hop p u r f c) (hop {n = k} p' u' r' f' c') =
    let same : p' ≡ p = cc in
    ap suc (Chain-unique c (subst (λ (q : Playlist). Chain d ys q.fallback_playlist_id k) same c'))

-- The playlists that were seen stand further from the end of the chain than the present one.
abbrev Further : Data → List Media → ℕ → String → Type 0
Further d items n s = (m : ℕ) × Chain d items s m × (n < m)

Chain-fresh :
    {d : Data} {items : List Media} {cur : String} {n : ℕ} (seen : List String)
    → Chain d items cur n
    → All (Further d items n) seen
    → any (λ s. str_eq s cur) seen ≡ false
Chain-fresh [] c h = refl
Chain-fresh {d} {items} {cur} {n} (s ∷ seen) c ((m, c', k), h) = elim (Bool-cases (str_eq s cur)) [
  | inl e ↦
      let here_again : n ≡ m =
        Chain-unique c (subst (λ x. Chain d items x m) ((eq_iff s cur).0 e) c') in
      absurd (omega arith)
  | inr e ↦ rw e (Chain-fresh seen c h)
]

follow-Chain :
    {d : Data} {items : List Media} {cur : String} {n : ℕ} (fuel : ℕ) (seen : List String)
    (hops : ℕ) (used : Bool)
    → (c : Chain d items cur n) → hops + n ≤ max_fallback_depth
    → n < fuel
    → All (Further d items n) seen
    → follow fuel d seen cur hops used ≡ some (ok items, used || ltb 0 n)
unfolding follow
follow-Chain zero seen hops used c h k f = absurd (omega arith)
follow-Chain {items = items} (suc fuel) seen hops used (here e x) h k f =
    ground (arith, Chain-fresh seen (here e x) f, nonempty_satisfied items x, e)
follow-Chain {d} {items} {cur} {n = suc n} (suc fuel) seen hops used (hop p u r x c) h k f =
    ground (
      arith,
      Chain-fresh seen (hop p u r x c) f,
      eq_iff p.fallback_playlist_id "",
      u,
      r,
      x,
      follow-Chain fuel (cur ∷ seen) (hops + 1) true c (omega arith) (omega arith) (
        (suc n, hop p u r x c, omega arith),
        All-mono (Further d items (suc n)) (Further d items n) (λ s w. (w.0, w.1, omega arith)) seen
            f,
      ),
    )

-- A round that finds media beyond an unsatisfied playlist went on to its fallback.
follow_hop :
    (d : Data) {m : Media} {ms : List Media} {u : Bool} (fuel : ℕ) (seen : List String)
    (cur : String) (hops : ℕ) (used : Bool) (p : Playlist)
    → is_satisfied (resolve_playlist_items d cur) ≡ false
    → resolve_playlist d cur ≡ ok p
    → follow (suc fuel) d seen cur hops used ≡ some (ok (m ∷ ms), u)
    → (p.fallback_playlist_id ≢ "")
      × (follow fuel d (cur ∷ seen) p.fallback_playlist_id (hops + 1) true ≡ some (ok (m ∷ ms), u))
      × (hops + 1 ≤ max_fallback_depth)
unfolding follow
follow_hop d fuel seen cur hops used p e r h = (
  λ x. ground (arith, e, h, r, eq_iff p.fallback_playlist_id "", x),
  ground (arith, e, h, r),
  ground (arith, e, h, r),
)

follow_gone :
    (d : Data) {m : Media} {ms : List Media} {u : Bool} (fuel : ℕ) (seen : List String)
    (cur : String) (hops : ℕ) (used : Bool) (x : Err)
    → is_satisfied (resolve_playlist_items d cur) ≡ false
    → resolve_playlist d cur ≡ err x
    → follow (suc fuel) d seen cur hops used ≢ some (ok (m ∷ ms), u)
unfolding follow
follow_gone d fuel seen cur hops used x e r h = ground (arith, e, h, r)

follow_satisfied :
    (d : Data) {m : Media} {ms : List Media} {u : Bool} (fuel : ℕ) (seen : List String)
    (cur : String) (hops : ℕ) (used : Bool)
    → is_satisfied (resolve_playlist_items d cur) ≡ true
    → follow (suc fuel) d seen cur hops used ≡ some (ok (m ∷ ms), u)
    → (resolve_playlist_items d cur ≡ ok (m ∷ ms)) × (u ≡ used)
unfolding follow
follow_satisfied d fuel seen cur hops used e h = (ground (arith, e, h), ground (arith, e, h))

follow_never :
    (d : Data) {r : Resolved} (seen : List String) (cur : String) (hops : ℕ) (used : Bool)
    → follow zero d seen cur hops used ≢ some r
unfolding follow
follow_never d seen cur hops used h = cc

Chain-follow :
    {d : Data} {m : Media} {ms : List Media} {u : Bool} (fuel : ℕ) (seen : List String)
    (cur : String) (hops : ℕ) (used : Bool)
    → hops ≤ max_fallback_depth
    → follow fuel d seen cur hops used ≡ some (ok (m ∷ ms), u)
    → (n : ℕ) × Chain d (m ∷ ms) cur n × (hops + n ≤ max_fallback_depth) × (u ≡ used || ltb 0 n)
Chain-follow {d} zero seen cur hops used k h = absurd (follow_never d seen cur hops used h)
Chain-follow {d} {m} {ms} {u} (suc fuel) seen cur hops used k h =
    elim (Bool-cases (is_satisfied (resolve_playlist_items d cur))) [
      | inl e ↦
          let (found, same) = follow_satisfied d fuel seen cur hops used e h in
          (0, here found (λ x. cc), omega arith, ground arith)
      | inr e ↦ elim (Result-cases (resolve_playlist d cur)) [
        | inr (x, r) ↦ absurd (follow_gone d fuel seen cur hops used x e r h)
        | inl (p, r) ↦
            let (f, next, l) = follow_hop d fuel seen cur hops used p e r h in
            let (n, c, l', w) =
              Chain-follow fuel (cur ∷ seen) p.fallback_playlist_id (hops + 1) true l next in
            (suc n, hop p e r f c, omega arith, ground arith)
      ]
    ]

-- The walk finds media exactly where a playlist that resolves to them is the first such one
-- along the fallback chain, at most five hops away; it reports whether it went beyond the head.
pub resolve_with_fallback_iff :
    (d : Data) (id : String) (m : Media) (ms : List Media) (used : Bool)
    → (resolve_with_fallback d id ≡ some (ok (m ∷ ms), used))
      ↔ ((n : ℕ) × Chain d (m ∷ ms) id n × (n ≤ max_fallback_depth) × (used ≡ ltb 0 n))
unfolding resolve_with_fallback
resolve_with_fallback_iff d id m ms used = (
  λ h.
      let (n, c, l, u) = Chain-follow (suc max_fallback_depth) [] id 0 false (omega arith) h in
      (n, c, omega arith, u),
  λ w.
      let (n, c, l, u) = w in
      rw u (follow-Chain (suc max_fallback_depth) [] 0 false c (omega arith) (omega arith) tt),
)
