-- ===== src/Sessions/Survival.antt =====
-- Which sessions `evict` of management/auth.go keeps.
use Prim.Native.Nat.{min}
use kplayer_go.Prelude.{
  ℕ, zero, suc, ◌-◌, ◌≤◌, ◌≡◌, refl, Bool, true, ◌||◌, String, List, [], ◌∷◌, ◌++◌, arith, eq_iff,
  leb, ◌==◌, Bool-cases, inl, inr, ◌⊎◌, ap, sym,
}
use mathlib.Core.Path.{subst}
use kplayer_go.Prelude.Int.{ℤ, pos, negsuc}
use kplayer_go.Prelude.Lists.{
  length, any, take, drop, All, All-mono, All-drop, length-append, length-drop,
}
use kplayer_go.Model.{Data, Session}
use kplayer_go.Result.{commit}
use kplayer_go.Ordering.{older}
use kplayer_go.Ordering.Laws.{
  All-sort_by, All-unsort_by, length-sort_by, oldest_first, IsSorted-cut, NotNewer,
}
use kplayer_go.Sessions.{session_id, by_age, evict, new_session, create}

abbrev older_session : Session → Session → Bool
older_session = older (λ s. s.created_at) (λ s. s.id)

-- A session is in a list, by its token.
abbrev pub IsIn : List Session → Session → Type 0
IsIn ss s = any (session_id s.id) ss ≡ true

-- A session is in a list, or no newer than any of them.
abbrev pub Ranked : List Session → Session → Type 0
Ranked kept s = IsIn kept s ⊎ All (λ k. s.created_at ≤ k.created_at) kept

All-IsIn : (ss : List Session) → All (IsIn ss) ss
All-IsIn [] = tt
All-IsIn (s ∷ ss) =
    (ground (arith, eq_iff s.id s.id), All-mono _ _ (λ x h. ground (arith, h)) ss (All-IsIn ss))

-- The two parts of a list that is cut.
All-join {κ} :
    (P : Session → Type κ) (k : ℕ) (ss : List Session)
    → All P (take k ss)
    → All P (drop k ss)
    → All P ss
All-join P zero ss h g = g
All-join P (suc k) [] h g = h
All-join P (suc k) (s ∷ ss) h g = (h.0, All-join P k ss h.1 g)

cut-Ranked : (k : ℕ) (ss : List Session) → All (Ranked (drop k (by_age ss))) ss
cut-Ranked k ss =
    let sorted = by_age ss in
    let kept = drop k sorted in
    let above =
      IsSorted-cut (NotNewer (λ (s : Session). s.created_at) (λ s. s.id)) k sorted
        (oldest_first (λ (s : Session). s.created_at) (λ s. s.id) ss) in
    All-unsort_by older_session (Ranked kept) ss (
      All-join (Ranked kept) k sorted (All-mono _ _ (λ s h. inr h) (take k sorted) above)
        (All-mono _ _ (λ s h. inl h) kept (All-IsIn kept)))

-- What `evict` gives is all of the list or what is behind a cut of the sorted one.
data Evicted (ss : List Session) : List Session → Type 0 where
  all_kept : Evicted ss ss
  cut_behind : (k : ℕ) → Evicted ss (drop k (by_age ss))

evict-Evicted : (cap : ℤ) (ss : List Session) → Evicted ss (evict cap ss)
unfolding evict
evict-Evicted (negsuc n) ss = all_kept
evict-Evicted (pos cap) ss = elim (Bool-cases (cap == 0 || leb (length ss) cap)) [
  | inl e ↦ rw e all_kept
  | inr e ↦ rw e (cut_behind (length ss - cap))
]

Evicted-Ranked : (ss kept : List Session) → Evicted ss kept → All (Ranked kept) ss
Evicted-Ranked ss _ all_kept = All-mono _ _ (λ s h. inl h) ss (All-IsIn ss)
Evicted-Ranked ss _ (cut_behind k) = cut-Ranked k ss

Evicted-All {κ} :
    (P : Session → Type κ) (ss kept : List Session) → Evicted ss kept → All P ss → All P kept
Evicted-All P ss _ all_kept h = h
Evicted-All P ss _ (cut_behind k) h = All-drop P k (by_age ss) (All-sort_by older_session P ss h)

-- How many `evict` keeps.
length-evict :
    (cap : ℕ) (ss : List Session) → length (evict (pos (suc cap)) ss) ≡ min (suc cap) (length ss)
unfolding evict
length-evict cap ss = elim (Bool-cases (leb (length ss) (suc cap))) [
  | inl e ↦ ground (arith, e)
  | inr e ↦
      ground
        (arith, e, length-drop (length ss - suc cap) (by_age ss), length-sort_by older_session ss)
]

pub create-evict :
    (cap ttl : ℤ) (token : String) (now : ℕ) (user name : String) (d e : Data) (s : Session)
    → create cap token now user name ttl d ≡ commit e s
    → (s.id ≡ token) × (s.created_at ≡ now) × (e.sessions ≡ evict cap (d.sessions ++ s ∷ []))
unfolding create
create-evict cap (negsuc n) token now user name d e s h = cc
create-evict cap (pos ttl) token now user name d e s h =
    let t = new_session token now user name ttl in
    let same : t ≡ s = ground (arith, h) in
    let doc : record d { sessions = evict cap (d.sessions ++ t ∷ []) } ≡ e = ground (arith, h) in
    subst
      (λ (x : Session).
        (x.id ≡ token) × (x.created_at ≡ now) × (e.sessions ≡ evict cap (d.sessions ++ x ∷ [])))
      same (refl, refl, ap (λ (x : Data). x.sessions) (sym doc))

-- A login that opens a session leaves as many sessions as the cap allows, or one more than before
-- if that is fewer, and the newest: each of the old ones and the new one is in the store, by its
-- token, or is no newer than any that is, if the cap is positive.
pub create-keeps_newest :
    (cap : ℕ) (ttl : ℤ) (token : String) (now : ℕ) (user name : String) (d e : Data) (s : Session)
    → create (pos (suc cap)) token now user name ttl d ≡ commit e s
    → (length e.sessions ≡ min (suc cap) (suc (length d.sessions)))
      × All (Ranked e.sessions) (d.sessions ++ s ∷ [])
create-keeps_newest cap ttl token now user name d e s h =
    let (_, _, eq) = create-evict (pos (suc cap)) ttl token now user name d e s h in
    let ss = d.sessions ++ s ∷ [] in
    subst (λ kept. (length kept ≡ min (suc cap) (suc (length d.sessions))) × All (Ranked kept) ss)
      (sym eq)
      (
        omega (arith, length-evict cap ss, length-append d.sessions (s ∷ [])),
        Evicted-Ranked ss (evict (pos (suc cap)) ss) (evict-Evicted (pos (suc cap)) ss),
      )
