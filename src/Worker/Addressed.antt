-- ===== src/Worker/Addressed.antt =====
-- Whom the worker writes to: the state of the recipient is read again just before a message is sent
-- (backend/app/services/notification_outbox_worker.py, `_render_event`).
use kans_shop.Prelude.{
  ℕ, ◌≡◌, ◌≢◌, refl, or_else, Bool, true, false, Option, none, some, Text, arith, find, find_key,
  Option-cases, Bool-cases, inl, inr, ==_iff,
}
use kans_shop.Models.{
  Database, User, Admin, Order, OrderStatusHistory, EventType, created, status_changed,
  card_status_updated, gateway_confirmed, card_gateway_updated, manual_accepted,
  card_manual_updated, settings_updated, message_queued, team_changed, source_created,
  source_updated, deploy, unlisted,
}
use kans_shop.Repositories.{user_key, admin_key, order_key}
use kans_shop.Worker.{OutboxClaim}
use kans_shop.Worker.Content.{
  Rendered, ready, skip, ◌>>=◌, need, Delivery, Notice, outbox_team_changed, data_missing,
  outbox_settings_updated, outbox_source_created, outbox_source_updated,
}
use kans_shop.Worker.Render.{
  fresh_admin, render_event, render_order_status, render_admin_order_card, render_order_message,
  render_order_created, render_card_status, render_payment, render_card_manual, render_card_gateway,
  render_admin_notice, render_source, render_deploy, render_type, history_key, audit_key,
  check_gateway,
}

-- The customer whose order the event is about, who has not blocked the bot, or an administrator who
-- is active and wants notifications.
pub data Addressed (d : Database) (c : OutboxClaim) (v : Delivery) : Type 0 where
  to_customer :
      (k : ℕ) (u : User) (o : Order)
      → c.recipient_user_id ≡ some k
      → find user_key k d.users.rows ≡ some u
      → u.is_blocked ≡ false
      → find order_key c.aggregate_id d.orders.rows ≡ some o
      → o.user_id ≡ u.id
      → v.chat_id ≡ u.telegram_id
      → Addressed d c v
  to_admin :
      (k : ℕ) (a : Admin)
      → c.recipient_admin_id ≡ some k
      → find admin_key k d.admins.rows ≡ some a
      → a.is_active ≡ true
      → a.notifications_enabled ≡ true
      → v.chat_id ≡ a.telegram_id
      → Addressed d c v

-- A chain of checks that ends well has passed the first.
bind-ready :
    {A B : Type 0} (m : Rendered A) (f : A → Rendered B) (b : B)
    → (m >>= f) ≡ ready b
    → (a : A) × (m ≡ ready a) × (f a ≡ ready b)
bind-ready (ready a) f b h = (a, refl, h)
bind-ready (skip t) f b h = cc

need-ready : {A : Type 0} (o : Option A) (code : Text) (a : A) → need o code ≡ ready a → o ≡ some a
need-ready none code a h = cc
need-ready (some x) code a h = ground arith

record Fresh (d : Database) (k : ℕ) (a : Admin) : Type 0 where
  found : find admin_key k d.admins.rows ≡ some a
  active : a.is_active ≡ true
  enabled : a.notifications_enabled ≡ true

admin_inv : (d : Database) (k : ℕ) (a : Admin) → fresh_admin d k ≡ ready a → Fresh d k a
unfolding fresh_admin
admin_inv d k a h = elim (Option-cases (find admin_key k d.admins.rows)) [
  | inl gone ↦ absurd (ground (arith, gone, h))
  | inr (b, at) ↦ elim (Bool-cases b.is_active) [
    | inr off ↦ absurd (ground (arith, at, off, h))
    | inl on ↦ elim (Bool-cases b.notifications_enabled) [
      | inr muted ↦ absurd (ground (arith, at, on, muted, h))
      | inl wanted ↦ record {
        found = ground (arith, at, on, wanted, h);
        active = ground (arith, at, on, wanted, h);
        enabled = ground (arith, at, on, wanted, h);
      }
    ]
  ]
]

-- The renderers of messages to administrators start alike.
notified-Addressed :
    (d : Database) (c : OutboxClaim) (v : Delivery) (code : Text) (f : Admin → Rendered Delivery)
    → ((a : Admin) → f a ≡ ready v → v.chat_id ≡ a.telegram_id)
    → (do k ← need c.recipient_admin_id code; a ← fresh_admin d k; f a) ≡ ready v
    → Addressed d c v
notified-Addressed d c v code f chat h =
    let (k, named, rest) = bind-ready (need c.recipient_admin_id code) _ v h in
    let (a, live, last) = bind-ready (fresh_admin d k) f v rest in
    let fresh = admin_inv d k a live in
    to_admin k a (need-ready c.recipient_admin_id code k named) fresh.found fresh.active
      fresh.enabled (chat a last)

-- All that a renderer may return.
abbrev Returns : {A : Type 0} → (A → Type 0) → Rendered A → Type 0
Returns {A} P r = (v : A) → r ≡ ready v → P v

bind-Returns :
    {A B : Type 0} (P : B → Type 0) (m : Rendered A) (f : A → Rendered B)
    → ((a : A) → Returns P (f a))
    → Returns P (m >>= f)
bind-Returns P (ready a) f h v q = h a v q
bind-Returns P (skip t) f h v q = cc

-- The last checks of a message to a customer.
customer-Addressed :
    (d : Database) (c : OutboxClaim) (k : ℕ) (u : User) (o : Order) (v : Delivery)
    → c.recipient_user_id ≡ some k
    → find user_key k d.users.rows ≡ some u
    → u.is_blocked ≡ false
    → find order_key c.aggregate_id d.orders.rows ≡ some o
    → o.user_id ≡ k
    → v.chat_id ≡ u.telegram_id
    → Addressed d c v
customer-Addressed d c k u o v named known free order own chat =
    to_customer k u o named known free order
      (ground (arith, own, find_key user_key k d.users.rows u known)) chat

-- An event about an order that its customer is told of.
record Told (d : Database) (c : OutboxClaim) (k : ℕ) (u : User) (o : Order) : Type 0 where
  named : c.recipient_user_id ≡ some k
  known : find user_key k d.users.rows ≡ some u
  order : find order_key c.aggregate_id d.orders.rows ≡ some o

-- A renderer that needs the recipient, the customer and the order.
known-Addressed :
    (d : Database) (c : OutboxClaim) (r : Rendered Delivery) (v : Delivery)
    → (c.recipient_user_id ≡ none → r ≢ ready v)
    → ((k : ℕ) → c.recipient_user_id ≡ some k → find user_key k d.users.rows ≡ none → r ≢ ready v)
    → (find order_key c.aggregate_id d.orders.rows ≡ none → r ≢ ready v)
    → ((k : ℕ) (u : User) (o : Order)
        → Told d c k u o
        → r ≡ ready v
        → (u.is_blocked ≡ false) × (o.user_id ≡ k) × (v.chat_id ≡ u.telegram_id))
    → r ≡ ready v
    → Addressed d c v
known-Addressed d c r v no_name no_user no_order last h = elim (Option-cases c.recipient_user_id) [
  | inl gone ↦ absurd (no_name gone h)
  | inr (k, named) ↦ elim (Option-cases (find user_key k d.users.rows)) [
    | inl gone ↦ absurd (no_user k named gone h)
    | inr (u, known) ↦ elim (Option-cases (find order_key c.aggregate_id d.orders.rows)) [
      | inl gone ↦ absurd (no_order gone h)
      | inr (o, order) ↦
          let (free, own, chat) =
            last k u o (record { named = named; known = known; order = order }) h in
          customer-Addressed d c k u o v named known free order own chat
    ]
  ]
]

order_status-Addressed :
    (d : Database) (c : OutboxClaim) → Returns (Addressed d c) (render_order_status d c)
unfolding render_order_status
order_status-Addressed d c v =
    known-Addressed d c (render_order_status d c) v (λ n q. ground (arith, n, q))
      (λ k n g q. ground (arith, n, g, q)) (λ g q. ground (arith, g, q))
      (λ k u o t q. ground (arith, t.named, t.known, t.order, q, ==_iff k o.user_id))

module _ (default_language : Text) where
  order_message-Addressed :
      (d : Database) (c : OutboxClaim)
      → Returns (Addressed d c) (render_order_message default_language d c)
  unfolding render_order_message
  order_message-Addressed d c v =
      known-Addressed d c (render_order_message default_language d c) v
        (λ n q. ground (arith, n, q)) (λ k n g q. ground (arith, n, g, q))
        (λ g q. ground (arith, g, q))
        (λ k u o t q. ground (arith, t.named, t.known, t.order, q, ==_iff o.user_id k))

  payment-Addressed :
      (d : Database) (c : OutboxClaim) (manual : Bool)
      → Returns (Addressed d c) (render_payment default_language d c manual)
  unfolding render_payment
  payment-Addressed d c manual v =
      known-Addressed d c (render_payment default_language d c manual) v
        (λ n q. ground (arith, n, q)) (λ k n g q. ground (arith, n, g, q))
        (λ g q. ground (arith, g, q))
        (λ k u o t q. ground (
          arith,
          t.named,
          t.known,
          t.order,
          q,
          ==_iff o.user_id u.id,
          find_key user_key k d.users.rows u t.known,
        ))

  card-Addressed :
      (d : Database) (now : ℕ) (c : OutboxClaim) (actor : Option ℕ) (review : Bool)
      (history : Option OrderStatusHistory)
      → Returns
          (Addressed d c)
          (render_admin_order_card default_language d now c actor review history)
  unfolding render_admin_order_card
  card-Addressed d now c actor review history v h =
      notified-Addressed d c v _ _ (λ a q. ground (arith, q)) h

  order_created-Addressed :
      (d : Database) (c : OutboxClaim)
      → Returns (Addressed d c) (render_order_created default_language d c)
  unfolding render_order_created
  order_created-Addressed d c v h = notified-Addressed d c v _ _ (λ a q. ground (arith, q)) h

  card_status-Addressed :
      (d : Database) (now : ℕ) (c : OutboxClaim)
      → Returns (Addressed d c) (render_card_status default_language d now c)
  unfolding render_card_status
  card_status-Addressed d now c =
      bind-Returns (Addressed d c) (need c.payload_id data_missing) _ (λ payload.
        bind-Returns (Addressed d c)
          (need (find history_key payload d.status_history.rows) data_missing) _
          (λ row. card-Addressed d now c row.changed_by_admin_id false (some row)))

  card_manual-Addressed :
      (d : Database) (now : ℕ) (c : OutboxClaim)
      → Returns (Addressed d c) (render_card_manual default_language d now c)
  unfolding render_card_manual
  card_manual-Addressed d now c =
      bind-Returns (Addressed d c)
        (need (find audit_key (or_else c.payload_id 0) d.audit_events.rows) data_missing) _
        (λ audit. card-Addressed d now c audit.actor_admin_id true none)

  card_gateway-Addressed :
      (d : Database) (now : ℕ) (c : OutboxClaim)
      → Returns (Addressed d c) (render_card_gateway default_language d now c)
  unfolding render_card_gateway
  card_gateway-Addressed d now c =
      bind-Returns (Addressed d c)
        (check_gateway default_language d c.aggregate_id (or_else c.payload_id 0)) _
        (λ t. card-Addressed d now c none false none)

  admin_notice-Addressed :
      (d : Database) (c : OutboxClaim) (notice : Notice)
      → Returns (Addressed d c) (render_admin_notice default_language d c notice)
  unfolding render_admin_notice
  admin_notice-Addressed d c notice =
      bind-Returns (Addressed d c) (need c.payload_id data_missing) _
        (λ payload v h. notified-Addressed d c v _ _ (λ a q. ground (arith, q)) h)

  source-Addressed :
      (d : Database) (c : OutboxClaim) (notice : ℕ → Notice)
      → Returns (Addressed d c) (render_source default_language d c notice)
  unfolding render_source
  source-Addressed d c notice =
      bind-Returns (Addressed d c) (need c.payload_id data_missing) _
        (λ payload v h. notified-Addressed d c v _ _ (λ a q. ground (arith, q)) h)

  deploy-Addressed :
      (d : Database) (c : OutboxClaim)
      → Returns (Addressed d c) (render_deploy default_language d c)
  unfolding render_deploy
  deploy-Addressed d c v h = notified-Addressed d c v _ _ (λ a q. ground (arith, q)) h

  type-Addressed :
      (d : Database) (now : ℕ) (c : OutboxClaim) (type : EventType)
      → Returns (Addressed d c) (render_type default_language d now c type)
  type-Addressed d now c message_queued v h = order_message-Addressed d c v h
  type-Addressed d now c created v h = order_created-Addressed d c v h
  type-Addressed d now c status_changed v h = order_status-Addressed d c v h
  type-Addressed d now c card_status_updated v h = card_status-Addressed d now c v h
  type-Addressed d now c gateway_confirmed v h = payment-Addressed d c false v h
  type-Addressed d now c manual_accepted v h = payment-Addressed d c true v h
  type-Addressed d now c card_gateway_updated v h = card_gateway-Addressed d now c v h
  type-Addressed d now c card_manual_updated v h = card_manual-Addressed d now c v h
  type-Addressed d now c team_changed v h = admin_notice-Addressed d c outbox_team_changed v h
  type-Addressed d now c settings_updated v h =
      admin_notice-Addressed d c outbox_settings_updated v h
  type-Addressed d now c source_created v h = source-Addressed d c outbox_source_created v h
  type-Addressed d now c source_updated v h = source-Addressed d c outbox_source_updated v h
  type-Addressed d now c deploy v h = deploy-Addressed d c v h
  type-Addressed d now c (unlisted t) v h = cc

  -- What the worker sends goes to the customer that the event names, whose order it is about and
  -- who has not blocked the bot, or to the administrator that it names, who is active and has
  -- notifications on, as the database says at that moment.
  pub render_event-Addressed :
      (d : Database) (now : ℕ) (c : OutboxClaim) (v : Delivery)
      → render_event default_language d now c ≡ ready v
      → Addressed d c v
  unfolding render_event
  render_event-Addressed d now c v h = type-Addressed d now c c.event_type v h
