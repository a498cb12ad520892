-- ===== src/Worker/Process.antt =====
-- Delivery in backend/app/services/notification_outbox_worker.py: `_send_delivery`, `_process_claim`
-- and the rounds of `run_outbox_worker`. Telegram with its pacing is a parameter that answers each
-- call. Each `session_maker()` block is a transaction of its own, so what is written before a failed
-- call stays.
use kans_shop.Prelude.{
  ℕ, ◌+◌, ◌*◌, ◌^◌, min, Bool, true, Option, none, some, List, [], ◌∷◌, Text, codes, find, update,
  if◌then◌else◌,
}
use kans_shop.Models.{Database, User, Order}
use kans_shop.Exec.{committed, ok, err}
use kans_shop.Repositories.{user_key, order_key}
use kans_shop.Order.{put_message}
use kans_shop.Worker.{
  OutboxClaim, ack_outbox, retry_outbox, fail_outbox, claim_outbox_batch, lease_limit, batch_size,
}
use kans_shop.Worker.Content.{Delivery, send_order, edit_order, Rendered, ready, skip}
use kans_shop.Worker.Render.{render_event}

-- How a call of Telegram ends: with the id of the message, or in one of the exceptions that the
-- worker tells apart.
pub data Outcome : Type 0 where
  done : ℕ → Outcome
  retry_after : ℕ → Outcome
  forbidden bad_request broken : Outcome

pub record Telegram : Type 0 where
  pub edit : Delivery → Outcome
  pub send : Delivery → Outcome
  pub send_receipt : Delivery → Text → ℕ → Outcome

-- `_save_admin_message_id`
abbrev with_card : ℕ → ℕ → Order → Order
with_card t m o = record o { admin_message_ids = put_message t m o.admin_message_ids }

abbrev save_card : ℕ → ℕ → Option Order → Database → Database
save_card t m none d = d
save_card t m (some o) d = record d { orders = update order_key (with_card t m o) d.orders }

unfoldable pub save_admin_message_id : ℕ → ℕ → ℕ → Database → Database
save_admin_message_id order t m d = save_card t m (find order_key order d.orders.rows) d

abbrev send_receipt_of : Telegram → Delivery → ℕ → Option Text → Outcome
send_receipt_of bot v m none = done m
send_receipt_of bot v m (some []) = done m
send_receipt_of bot v m (some (c ∷ file)) = bot.send_receipt v (c ∷ file) m

abbrev save_sent : Delivery → ℕ → Option ℕ → Database → Database
save_sent v m none d = d
save_sent v m (some order) d = save_admin_message_id order v.chat_id m d

abbrev after_send : Telegram → Delivery → Outcome → Database → Outcome × Database
after_send bot v (done m) d = elim v.operation [
  | send_order ↦ (send_receipt_of bot v m v.receipt_file_id, save_sent v m v.order_id d)
  | other ↦ (done m, d)
]
after_send bot v x d = (x, d)

unfoldable pub send_delivery : Telegram → Delivery → Database → Outcome × Database
send_delivery bot v d = elim v.operation [
  | edit_order ↦ (bot.edit v, d)
  | other ↦ after_send bot v (bot.send v) d
]

-- `min(300, 2 ** min(attempts, 8))`, in seconds
unfoldable pub retry_delay : ℕ → ℕ
retry_delay attempts = min 300 (2 ^ min attempts 8)

-- `update(User).where(User.id == claim.recipient_user_id).values(is_blocked=True)`
abbrev block_found : Option User → Database → Database
block_found none d = d
block_found (some u) d = record d {
  users = update user_key (record u { is_blocked = true }) d.users;
}

abbrev pub block_recipient : Option ℕ → Database → Database
block_recipient none d = d
block_recipient (some k) d = block_found (find user_key k d.users.rows) d

unfoldable pub settle_claim : ℕ → OutboxClaim → Outcome → Database → Database
settle_claim now c (done m) d = committed (ack_outbox c.event_id c.lease_token now) d
settle_claim now c (retry_after delay) d =
    committed (retry_outbox c.event_id c.lease_token (now + delay) (codes "telegram_retry_after")) d
settle_claim now c forbidden d =
    committed (fail_outbox c.event_id c.lease_token (codes "telegram_forbidden"))
      (block_recipient c.recipient_user_id d)
settle_claim now c bad_request d =
    committed (fail_outbox c.event_id c.lease_token (codes "telegram_bad_request")) d
settle_claim now c broken d =
    committed
      (retry_outbox c.event_id c.lease_token (now + 1000 * retry_delay c.attempts)
        (codes "delivery_error"))
      d

module _ (default_language : Text) (bot : Telegram) where
  abbrev pub process_rendered : ℕ → OutboxClaim → Rendered Delivery → Database → Database
  process_rendered now c (skip code) d = committed (fail_outbox c.event_id c.lease_token code) d
  process_rendered now c (ready v) d =
      let sent = send_delivery bot v d in settle_claim now c sent.0 sent.1

  unfoldable pub process_claim : ℕ → OutboxClaim → Database → Database
  process_claim now c d = process_rendered now c (render_event default_language d now c) d

  -- The claims of a round, each with the time at which it is handled, until the worker is told to
  -- stop.
  unfoldable pub process_claims : (ℕ → ℕ) → (ℕ → Bool) → List OutboxClaim → Database → Database
  process_claims time stopped [] d = d
  process_claims time stopped (c ∷ cs) d =
      let rest = process_claims time stopped cs (process_claim (time c.event_id) c d) in
      if stopped c.event_id then d else rest

  -- A round of the loop; one that raises is logged and leaves the database as it was.
  unfoldable pub run_round : (ℕ → ℕ) → Text → ℕ → (ℕ → ℕ) → (ℕ → Bool) → Database → Database
  run_round uuid worker_id now time stopped d =
      elim (claim_outbox_batch uuid worker_id now batch_size lease_limit d) [
        | ok r ↦ process_claims time stopped r.0 r.1
        | err e ↦ d
      ]
