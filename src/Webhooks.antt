-- ===== src/Webhooks.antt =====
-- management/webhook.go: `WebhookService`, and the deliveries of `WebhookDispatcher` in
-- Webhooks/Deliveries. Each operation is the callback of `Store.Update` that it runs, after its
-- checks. `url.Parse` is a parameter that gives the scheme and the host.
pub mod Deliveries
pub mod Invariant
use kplayer_go.Prelude.{
  ℕ, String, Bool, true, false, not, ◌||◌, ◌&&◌, Option, none, some, List, [], ◌∷◌, ◌++◌, str_eq,
  if◌then◌else◌,
}
use kplayer_go.Prelude.Lists.{any}
use kplayer_go.Prelude.Text.{trim_space, is_blank, less_text}
use kplayer_go.Model.{Data, WebhookSubscription, WebhookEvent}
use kplayer_go.Model.Err.{not_found, invalid}
use kplayer_go.Result.{Result, ok, err, Txn, refuse, check, ◌>>◌}
use kplayer_go.Collection.{find, has_id}
use kplayer_go.Ordering.{sort_by}
use kplayer_go.Catalog.{add, replace, change, setting, remove, within}

pub record WebhookSubscriptionSpec : Type 0 where
  pub name : String
  pub url : String
  pub events : List WebhookEvent
  pub enabled : Bool

-- `validateWebhookEvent`
abbrev pub known_event : WebhookEvent → Bool
known_event (WebhookEvent.other s) = false
known_event _ = true

-- The comparison of two events.
abbrev pub same_event : WebhookEvent → WebhookEvent → Bool
same_event WebhookEvent.output_disconnected WebhookEvent.output_disconnected = true
same_event WebhookEvent.channel_status_changed WebhookEvent.channel_status_changed = true
same_event WebhookEvent.material_failed WebhookEvent.material_failed = true
same_event WebhookEvent.task_completed WebhookEvent.task_completed = true
same_event WebhookEvent.engine_exited WebhookEvent.engine_exited = true
same_event (WebhookEvent.other s) (WebhookEvent.other t) = str_eq s t
same_event _ _ = false

-- A turn of the loop of `normalizeWebhookEvents`; the keys of `seen` are the elements of `out`.
abbrev pub with_event : List WebhookEvent → WebhookEvent → List WebhookEvent
with_event out e = if any (same_event e) out then out else out ++ e ∷ []

unfoldable pub normalize_onto : List WebhookEvent → List WebhookEvent → List WebhookEvent
normalize_onto out [] = out
normalize_onto out (e ∷ es) = normalize_onto (with_event out e) es

-- `normalizeWebhookEvents`
unfoldable pub normalize_events : List WebhookEvent → List WebhookEvent
unfolding normalize_onto
normalize_events events = normalize_onto [] events

abbrev pub id_of : WebhookSubscription → String
id_of s = s.id

abbrev pub name_of : WebhookSubscription → String
name_of s = s.name

abbrev pub in_subscriptions {ℓ} :
    {A : Type ℓ} → Data → Txn (List WebhookSubscription) A → Txn Data A
in_subscriptions d = within (λ ss. record d { webhook_subscriptions = ss })

-- `List` and `Get`
unfoldable pub list : Data → List WebhookSubscription
list d = sort_by (λ (a b : WebhookSubscription). less_text a.name b.name) d.webhook_subscriptions

unfoldable pub get : String → Data → Result WebhookSubscription
get id d = elim (find (has_id id_of id) d.webhook_subscriptions) [
  | none ↦ err not_found
  | some s ↦ ok s
]

abbrev pub new_subscription : String → ℕ → WebhookSubscriptionSpec → WebhookSubscription
new_subscription id now s = record {
  id = id;
  name = s.name;
  url = s.url;
  events = normalize_events s.events;
  enabled = s.enabled;
  created_at = now;
  updated_at = now;
}

abbrev pub configured : WebhookSubscriptionSpec → ℕ → WebhookSubscription → WebhookSubscription
configured s now x = record x {
  name = s.name;
  url = s.url;
  events = normalize_events s.events;
  enabled = s.enabled;
  updated_at = now;
}

abbrev pub stamped : ℕ → WebhookSubscription → WebhookSubscription
stamped now s = record s { updated_at = now }

abbrev pub trimmed : WebhookSubscriptionSpec → WebhookSubscriptionSpec
trimmed s = record s { name = trim_space s.name; url = trim_space s.url }

abbrev pub is_nil : List WebhookEvent → Bool
is_nil [] = true
is_nil (_ ∷ _) = false

module _ (parse_url : String → Option (String × String)) where
  -- `validateWebhookURL`
  unfoldable pub validate_url : String → Result (Unit {0})
  validate_url raw = elim (parse_url raw) [
    | none ↦ err invalid
    | some (scheme, host) ↦ (do
      refuse (not (str_eq scheme "http" || str_eq scheme "https")) invalid
      refuse (str_eq host "") invalid)
  ]

  -- `validateWebhookSubscriptionSpec`
  unfoldable pub validate_spec : WebhookSubscriptionSpec → Result (Unit {0})
  unfolding validate_url
  validate_spec s = do
    refuse (is_blank s.name) invalid
    validate_url s.url
    refuse (is_nil s.events) invalid
    refuse (any (λ e. not (known_event e)) s.events) invalid

  -- `Create`
  unfoldable pub create : String → ℕ → WebhookSubscriptionSpec → Data → Txn Data WebhookSubscription
  unfolding validate_spec
  create id now spec d = check (validate_spec (trimmed spec)) λ _.
      in_subscriptions d
        (add id_of name_of (new_subscription id now (trimmed spec)) d.webhook_subscriptions)

  -- `Update`
  unfoldable pub update : String → ℕ → WebhookSubscriptionSpec → Data → Txn Data WebhookSubscription
  unfolding validate_spec
  update id now spec d =
      let s = trimmed spec in
      check (validate_spec s) λ _.
        in_subscriptions d
          (replace id_of name_of id s.name (configured s now) d.webhook_subscriptions)

-- `SetEnabled`
unfoldable pub set_enabled : String → ℕ → Bool → Data → Txn Data (Unit {0})
set_enabled id now enabled d = in_subscriptions d (
    change id_of id (stamped now) (setting (λ s. record s { enabled = enabled }))
      d.webhook_subscriptions)

-- `Delete`
unfoldable pub delete : String → Data → Txn Data (Unit {0})
delete id d = in_subscriptions d (remove id_of id d.webhook_subscriptions)
