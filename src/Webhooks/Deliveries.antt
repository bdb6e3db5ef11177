-- ===== src/Webhooks/Deliveries.antt =====
-- `WebhookDispatcher` of management/webhook.go. A delivery gets what its surroundings do: whether
-- the payload can be marshalled, whether the context is live at first, whether each attempt is
-- answered by a 2xx status and whether each wait between attempts completes.
pub mod Attempts
use kplayer_go.Prelude.{
  ℕ, zero, suc, ◌+◌, ◌-◌, String, Bool, true, false, not, ◌&&◌, ◌||◌, List, [], ◌∷◌, ◌++◌,
  if◌then◌else◌, leb, ltb,
}
use kplayer_go.Prelude.Lists.{any, length, select, drop}
use kplayer_go.Prelude.Int.{ℤ, pos, negsuc}
use kplayer_go.Model.{Data, WebhookSubscription, WebhookEvent, WebhookDelivery, DeliveryStatus}
use kplayer_go.Webhooks.{same_event}

pub record Dispatcher : Type 0 where
  pub max_retries : ℤ
  pub max_history : ℤ

-- The number of attempts, which `NewWebhookDispatcher` clamps to 1.
abbrev pub attempts_allowed : ℤ → ℕ
attempts_allowed (pos (suc n)) = suc n
attempts_allowed _ = 1

pub record Surroundings : Type 0 where
  pub marshals : Bool
  pub live : Bool
  pub posts : ℕ → Bool
  pub waits : ℕ → Bool

-- The loop of `deliver` from an attempt on, with so many more allowed after it: whether the last
-- attempt succeeded, and its number.
unfoldable pub try_from : (ℕ → Bool) → (ℕ → Bool) → ℕ → ℕ → Bool × ℕ
try_from posts waits zero k = (posts k, k)
try_from posts waits (suc more) k =
    let rest = try_from posts waits more (suc k) in
    if posts k then (true, k) else if waits k then rest else (false, k)

abbrev pub status_of : Bool → DeliveryStatus
status_of true = DeliveryStatus.success
status_of false = DeliveryStatus.failed

-- `record`: the deliveries are cut to the newest.
unfoldable pub rolled : ℤ → List WebhookDelivery → List WebhookDelivery
rolled (negsuc n) ds = ds
rolled (pos zero) ds = ds
rolled (pos (suc n)) ds = if ltb (suc n) (length ds) then drop (length ds - suc n) ds else ds

unfoldable pub record_delivery : Dispatcher → WebhookDelivery → Data → Data
unfolding rolled
record_delivery c del d = record d {
  webhook_deliveries = rolled c.max_history (d.webhook_deliveries ++ del ∷ []);
}

-- What `deliver` records.
unfoldable pub delivery_of :
    Dispatcher
    → Surroundings
    → String
    → ℕ
    → ℕ
    → WebhookSubscription
    → WebhookEvent
    → WebhookDelivery
unfolding try_from
delivery_of c w id now later sub event =
    let (won, attempts) = try_from w.posts w.waits (attempts_allowed c.max_retries - 1) 1 in
    let sent = w.marshals && w.live in
    record {
      id = id;
      subscription_id = sub.id;
      event = event;
      status = status_of (sent && won);
      attempts = if sent then attempts else 0;
      has_error = not (sent && won);
      delivered_at = if sent && won then later else 0;
      created_at = now;
    }

-- `deliver`
unfoldable pub deliver :
    Dispatcher → Surroundings → String → ℕ → ℕ → WebhookSubscription → WebhookEvent → Data → Data
unfolding delivery_of record_delivery
deliver c w id now later sub event d = record_delivery c (delivery_of c w id now later sub event) d

-- The subscriptions that `Dispatch` picks.
unfoldable pub targets : WebhookEvent → Data → List WebhookSubscription
targets event d =
    select (λ (s : WebhookSubscription). s.enabled && any (λ e. same_event e event) s.events)
      d.webhook_subscriptions
