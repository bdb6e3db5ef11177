-- ===== src/Webhooks/Deliveries/Attempts.antt =====
-- How often a webhook of management/webhook.go is attempted, and how many deliveries are kept.
use Prim.Native.Nat.{min}
use kplayer_go.Prelude.{
  ℕ, zero, suc, ◌+◌, ◌-◌, ◌≤◌, ◌≡◌, refl, String, Bool, true, false, List, [], ◌∷◌, ◌++◌, arith,
  ltb, Bool-cases, inl, inr, ap, ◌∙◌,
}
use mathlib.Core.Path.{subst}
use kplayer_go.Prelude.Lists.{length, length-append, length-drop}
use kplayer_go.Prelude.Int.{ℤ, pos, negsuc}
use kplayer_go.Model.{Data, WebhookSubscription, WebhookEvent, WebhookDelivery}
use kplayer_go.Webhooks.Deliveries.{
  Dispatcher, Surroundings, attempts_allowed, try_from, status_of, rolled, record_delivery,
  delivery_of, deliver,
}

-- The attempts of a delivery, from a number on with so many more allowed, and how they ended:
-- every attempt but the last was refused and followed by a wait that completed.
pub data Attempted (posts waits : ℕ → Bool) : ℕ → ℕ → Bool → ℕ → Type 0 where
  won : (more k : ℕ) → posts k ≡ true → Attempted posts waits more k true k
  used_up : (k : ℕ) → posts k ≡ false → Attempted posts waits 0 k false k
  cut_short :
      (more k : ℕ) → posts k ≡ false → waits k ≡ false → Attempted posts waits (suc more) k false k
  again :
      {more k last : ℕ} {b : Bool}
      → posts k ≡ false
      → waits k ≡ true
      → Attempted posts waits more (suc k) b last
      → Attempted posts waits (suc more) k b last

try_from-Attempted :
    (posts waits : ℕ → Bool) (more k : ℕ)
    → Attempted posts waits more k (try_from posts waits more k).0 (try_from posts waits more k).1
unfolding try_from
try_from-Attempted posts waits zero k = elim (Bool-cases (posts k)) [
  | inl e ↦ rw e (won 0 k e)
  | inr e ↦ rw e (used_up k e)
]
try_from-Attempted posts waits (suc more) k = elim (Bool-cases (posts k)) [
  | inl e ↦ rw e (won (suc more) k e)
  | inr e ↦ elim (Bool-cases (waits k)) [
    | inl w ↦ rw (e, w) (again e w (try_from-Attempted posts waits more (suc k)))
    | inr w ↦ rw (e, w) (cut_short more k e w)
  ]
]

Attempted-bounds :
    {posts waits : ℕ → Bool} (more k last : ℕ) (b : Bool)
    → Attempted posts waits more k b last
    → (k ≤ last) × (last ≤ k + more)
Attempted-bounds more k last b (won _ _ e) = (omega arith, omega arith)
Attempted-bounds more k last b (used_up _ e) = (omega arith, omega arith)
Attempted-bounds more k last b (cut_short m _ e w) = (omega arith, omega arith)
Attempted-bounds more k last b (again {more = m} e w rest) =
    let (x, y) = Attempted-bounds m (suc k) last b rest in (omega (arith, x), omega (arith, y))

length-rolled :
    (n : ℕ) (ds : List WebhookDelivery) → length (rolled (pos (suc n)) ds) ≡ min (suc n) (length ds)
unfolding rolled
length-rolled n ds = elim (Bool-cases (ltb (suc n) (length ds))) [
  | inl e ↦ ground (arith, e, length-drop (length ds - suc n) ds)
  | inr e ↦ ground (arith, e)
]

attempts_allowed-positive : (z : ℤ) → 1 + (attempts_allowed z - 1) ≡ attempts_allowed z
attempts_allowed-positive (pos zero) = refl
attempts_allowed-positive (pos (suc n)) = omega arith
attempts_allowed-positive (negsuc n) = refl

-- A payload that can be marshalled, under a live context, is attempted at least once and at most
-- as often as allowed: every attempt but the last failed and was followed by a wait that
-- completed, and the delivery is recorded as a success exactly if the last attempt succeeded.
pub delivery_of-attempts :
    (c : Dispatcher) (w : Surroundings) (id : String) (now later : ℕ) (sub : WebhookSubscription)
    (event : WebhookEvent)
    → w.marshals ≡ true
    → w.live ≡ true
    → (b : Bool) × Attempted w.posts w.waits
        (attempts_allowed c.max_retries - 1)
        1
        b
        (delivery_of c w id now later sub event).attempts
      × ((delivery_of c w id now later sub event).status ≡ status_of b)
      × (1 ≤ (delivery_of c w id now later sub event).attempts)
      × ((delivery_of c w id now later sub event).attempts ≤ attempts_allowed c.max_retries)
unfolding delivery_of
delivery_of-attempts c w id now later sub event m l =
    let more = attempts_allowed c.max_retries - 1 in
    let b = (try_from w.posts w.waits more 1).0 in
    let n = (try_from w.posts w.waits more 1).1 in
    let run = try_from-Attempted w.posts w.waits more 1 in
    let (low, high) = Attempted-bounds more 1 n b run in
    let made : n ≡ (delivery_of c w id now later sub event).attempts = ground (arith, m, l) in
    (
      b,
      subst (Attempted w.posts w.waits more 1 b) made run,
      ground (arith, m, l),
      omega (arith, low, made),
      omega (arith, high, made, attempts_allowed-positive c.max_retries),
    )

-- However often webhooks are delivered, no more deliveries are kept than the positive limit.
pub deliver-bounded :
    (n : ℕ) (c : Dispatcher) (w : Surroundings) (id : String) (now later : ℕ)
    (sub : WebhookSubscription) (event : WebhookEvent) (d : Data)
    → c.max_history ≡ pos (suc n)
    → length (deliver c w id now later sub event d).webhook_deliveries
      ≡ min (suc n) (suc (length d.webhook_deliveries))
unfolding deliver record_delivery
deliver-bounded n c w id now later sub event d h =
    let del = delivery_of c w id now later sub event in
    let all = d.webhook_deliveries ++ del ∷ [] in
    ap (λ z. length (rolled z all)) h
    ∙ length-rolled n all
    ∙ ap (min (suc n)) (omega (arith, length-append d.webhook_deliveries (del ∷ [])))
