-- ===== src/Webhooks/Invariant.antt =====
-- The subscriptions of management/webhook.go stay well-formed under every operation.
use kplayer_go.Prelude.{ℕ, ◌≡◌, refl, Bool, false, String, Option, List, arith, inl, inr}
use kplayer_go.Prelude.Lists.{any}
use kplayer_go.Prelude.Text.{is_blank}
use kplayer_go.Model.{Data, WebhookSubscription}
use kplayer_go.Result.{ok, outcome, outcome-check, Result-cases}
use kplayer_go.Collection.{has_id}
use kplayer_go.Catalog.Laws.{Kept, add-Holds, replace-Holds, set-Holds, remove-Holds}
use kplayer_go.Webhooks.{
  WebhookSubscriptionSpec, validate_url, validate_spec, id_of, name_of, new_subscription,
  configured, stamped, trimmed, create, update, set_enabled, delete,
}

module _ (parse_url : String → Option (String × String)) where
  -- A subscription has a name, and a URL that passes.
  abbrev pub IsSubscription : WebhookSubscription → Type 0
  IsSubscription s = (is_blank s.name ≡ false) × (validate_url parse_url s.url ≡ ok tt)

  abbrev pub WellFormed : List WebhookSubscription → Type 0
  WellFormed = Kept id_of name_of IsSubscription

  -- The calls that change subscriptions.
  pub data Call : Type 0 where
    creating updating : String → ℕ → WebhookSubscriptionSpec → Call
    enabling : String → ℕ → Bool → Call
    deleting : String → Call

  pub after_call : Call → Data → Data
  after_call (creating id now spec) d = outcome d (create parse_url id now spec d)
  after_call (updating id now spec) d = outcome d (update parse_url id now spec d)
  after_call (enabling id now enabled) d = outcome d (set_enabled id now enabled d)
  after_call (deleting id) d = outcome d (delete id d)

  -- The id that a creation draws is new.
  abbrev pub HasNewId : Call → Data → Type 0
  HasNewId (creating id now spec) d = any (has_id id_of id) d.webhook_subscriptions ≡ false
  HasNewId _ d = Unit

  valid-parts :
      (s : WebhookSubscriptionSpec) (u : Unit {0})
      → validate_spec parse_url s ≡ ok u
      → (is_blank s.name ≡ false) × (validate_url parse_url s.url ≡ ok tt)
  unfolding validate_spec
  valid-parts s u h = elim (Result-cases (validate_url parse_url s.url)) [
    | inl (v, e) ↦ (ground (arith, h), e)
    | inr (x, e) ↦ absurd (ground (arith, e, h))
  ]

abbrev put : Data → List WebhookSubscription → Data
put d ss = record d { webhook_subscriptions = ss }

abbrev read : Data → List WebhookSubscription
read d = d.webhook_subscriptions

-- Whatever is called, with whichever outcome, no two subscriptions share a name or an id
-- afterwards, and every subscription has a name that is not blank and a URL that passes the check,
-- if all this was so before and a creation draws a new id.
pub after_webhook_call-WellFormed :
    (parse_url : String → Option (String × String)) (k : Call parse_url) (d : Data)
    → HasNewId parse_url k d
    → WellFormed parse_url d.webhook_subscriptions
    → WellFormed parse_url (after_call parse_url k d).webhook_subscriptions
unfolding after_call create update set_enabled delete
after_webhook_call-WellFormed parse_url (creating id now spec) d new good =
    let s = trimmed spec in
    outcome-check (λ (x : Data). WellFormed parse_url x.webhook_subscriptions) d
      (validate_spec parse_url s) _ good
      λ u e.
        add-Holds id_of name_of (IsSubscription parse_url) put read (λ d ss. refl)
          (new_subscription id now s) d new (valid-parts parse_url s u e) good
after_webhook_call-WellFormed parse_url (updating id now spec) d new good =
    let s = trimmed spec in
    outcome-check (λ (x : Data). WellFormed parse_url x.webhook_subscriptions) d
      (validate_spec parse_url s) _ good
      λ u e.
        replace-Holds id_of name_of (IsSubscription parse_url) put read (λ d ss. refl) id s.name
          (configured s now) d (λ x. refl) (λ x. refl) (λ x _. valid-parts parse_url s u e) good
after_webhook_call-WellFormed parse_url (enabling id now enabled) d new good =
    set-Holds id_of name_of (IsSubscription parse_url) put read (λ d ss. refl) id (stamped now)
      (λ s. record s { enabled = enabled }) d (λ s. refl) (λ s. refl) (λ s k. k) good
after_webhook_call-WellFormed parse_url (deleting id) d new good =
    remove-Holds id_of name_of (IsSubscription parse_url) put read (λ d ss. refl) id d good
