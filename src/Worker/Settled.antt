-- ===== src/Worker/Settled.antt =====
-- A claim that is handled under its lease is over afterwards, however Telegram answers
-- (backend/app/services/notification_outbox_worker.py, `_process_claim`).
use kans_shop.Prelude.{
  ℕ, ◌+◌, ◌*◌, ◌^◌, ◌≤◌, ◌≡◌, refl, sym, ◌∙◌, ◌⊎◌, true, some, Text, arith, codes, find, inl, inr,
  IsKeyed, update, find-replace_self, find_key, min,
}
use mathlib.Core.Path.{subst}
use native.Mathlib.Nat.{pow-le-pow_right}
use kans_shop.Enums.{NotificationOutboxStatus, sent}
use kans_shop.Models.{Database, NotificationOutbox}
use kans_shop.Exec.{committed, ok}
use kans_shop.Worker.{
  OutboxClaim, outbox_key, holds_lease, update_leased, ack_outbox, retry_outbox, fail_outbox,
  delivered, postponed, given_up, safe_code,
}
use kans_shop.Worker.Lease.{event_of}
use kans_shop.Worker.Exclusive.{holder_lem}
use kans_shop.Worker.Content.{Delivery, Rendered, ready, skip}
use kans_shop.Worker.Render.{render_event}
use kans_shop.Worker.Process.{
  Telegram, Outcome, done, retry_after, forbidden, bad_request, broken, send_delivery, settle_claim,
  process_claim, block_recipient, process_rendered, retry_delay,
}
use kans_shop.Worker.History.{send-outbox, block-outbox}

-- The event is sent, has failed, or waits for another try.
abbrev pub IsSettled : ℕ → NotificationOutbox → Type 0
IsSettled now v =
    (v.status ≡ sent)
    ⊎ ((v.status ≡ NotificationOutboxStatus.failed)
        ⊎ ((v.status ≡ NotificationOutboxStatus.pending) × (now ≤ v.next_available_at)))

-- The event as a handled claim leaves it.
abbrev pub Settles : ℕ → ℕ → NotificationOutbox → Database → Type 0
Settles now k e d =
    (v : NotificationOutbox) × (event_of d k ≡ some v) × (v.attempts ≡ e.attempts) × IsSettled now v

-- The claim's lease is on the event.
record Holds (c : OutboxClaim) (d : Database) (e : NotificationOutbox) : Type 0 where
  keyed : IsKeyed outbox_key d.outbox
  found : event_of d c.event_id ≡ some e
  held : holds_lease c.event_id c.lease_token e ≡ true

same-Holds :
    (c : OutboxClaim) (d d' : Database) (e : NotificationOutbox)
    → d'.outbox ≡ d.outbox
    → Holds c d e
    → Holds c d' e
same-Holds c d d' e same h = record {
  keyed = subst (IsKeyed outbox_key) (sym same) h.keyed;
  found = subst (λ t. find outbox_key c.event_id t.rows ≡ some e) (sym same) h.found;
  held = h.held;
}

update_held :
    (c : OutboxClaim) (f : NotificationOutbox → NotificationOutbox) (d : Database)
    (e : NotificationOutbox)
    → Holds c d e
    → update_leased c.event_id c.lease_token f d
      ≡ ok (true, record d { outbox = update outbox_key (f e) d.outbox })
unfolding update_leased
update_held c f d e h =
    ground
      (arith, holder_lem c.event_id c.lease_token d.outbox.rows e h.keyed.unique h.found, h.held)

event-update :
    (c : OutboxClaim) (v : NotificationOutbox) (d : Database) (e : NotificationOutbox)
    → Holds c d e
    → v.id ≡ e.id
    → event_of (record d { outbox = update outbox_key v d.outbox }) c.event_id ≡ some v
event-update c v d e h same =
    find-replace_self outbox_key c.event_id v d.outbox.rows e h.found
      (same ∙ find_key outbox_key c.event_id d.outbox.rows e h.found)

ack-Settles :
    (now : ℕ) (c : OutboxClaim) (d : Database) (e : NotificationOutbox)
    → Holds c d e
    → Settles now c.event_id e (committed (ack_outbox c.event_id c.lease_token now) d)
unfolding ack_outbox
ack-Settles now c d e h =
    rw (update_held c (delivered now) d e h, committed)
      (delivered now e, event-update c (delivered now e) d e h refl, refl, inl refl)

retry-Settles :
    (now time : ℕ) (error : Text) (c : OutboxClaim) (d : Database) (e : NotificationOutbox)
    → now ≤ time
    → Holds c d e
    → Settles now c.event_id e (committed (retry_outbox c.event_id c.lease_token time error) d)
unfolding retry_outbox
retry-Settles now time error c d e later h =
    let v = postponed time (safe_code error) e in
    rw (update_held c (postponed time (safe_code error)) d e h, committed)
      (v, event-update c v d e h refl, refl, inr (inr (refl, later)))

fail-Settles :
    (now : ℕ) (error : Text) (c : OutboxClaim) (d : Database) (e : NotificationOutbox)
    → Holds c d e
    → Settles now c.event_id e (committed (fail_outbox c.event_id c.lease_token error) d)
unfolding fail_outbox
fail-Settles now error c d e h =
    let v = given_up (safe_code error) e in
    rw (update_held c (given_up (safe_code error)) d e h, committed)
      (v, event-update c v d e h refl, refl, inr (inl refl))

settle-Settles :
    (now : ℕ) (c : OutboxClaim) (x : Outcome) (d : Database) (e : NotificationOutbox)
    → Holds c d e
    → Settles now c.event_id e (settle_claim now c x d)
unfolding settle_claim
settle-Settles now c (done m) d e h = ack-Settles now c d e h
settle-Settles now c (retry_after delay) d e h =
    retry-Settles now (now + delay) (codes "telegram_retry_after") c d e (omega arith) h
settle-Settles now c forbidden d e h =
    fail-Settles now (codes "telegram_forbidden") c (block_recipient c.recipient_user_id d) e
      (same-Holds c d _ e (block-outbox c.recipient_user_id d) h)
settle-Settles now c bad_request d e h = fail-Settles now (codes "telegram_bad_request") c d e h
settle-Settles now c broken d e h =
    retry-Settles now (now + 1000 * retry_delay c.attempts) (codes "delivery_error") c d e
      (omega arith) h

rendered-Settles :
    (default_language : Text) (bot : Telegram) (now : ℕ) (c : OutboxClaim) (r : Rendered Delivery)
    (d : Database) (e : NotificationOutbox)
    → Holds c d e
    → Settles now c.event_id e (process_rendered default_language bot now c r d)
rendered-Settles default_language bot now c (skip code) d e h = fail-Settles now code c d e h
rendered-Settles default_language bot now c (ready v) d e h =
    let sent = send_delivery bot v d in
    settle-Settles now c sent.0 sent.1 e (same-Holds c d sent.1 e (send-outbox bot v d) h)

-- A claim that is handled while its lease is on the event leaves the event sent, failed, or pending
-- for this time or later, with the same number of tries, whatever the renderer and Telegram answer.
pub process_claim-Settles :
    (default_language : Text) (bot : Telegram) (now : ℕ) (c : OutboxClaim) (d : Database)
    (e : NotificationOutbox)
    → IsKeyed outbox_key d.outbox
    → event_of d c.event_id ≡ some e
    → holds_lease c.event_id c.lease_token e ≡ true
    → Settles now c.event_id e (process_claim default_language bot now c d)
unfolding process_claim
process_claim-Settles default_language bot now c d e keyed found held =
    rendered-Settles default_language bot now c (render_event default_language d now c) d e
      (record { keyed = keyed; found = found; held = held })

-- The wait after a failed try, in seconds.
two_pow-le : (m n : ℕ) → m ≤ n → 2 ^ m ≤ 2 ^ n
two_pow-le m n h = pow-le-pow_right (omega arith) h

pub retry_delay_bounds :
    (a b : ℕ)
    → 1 ≤ a
    → a ≤ b
    → (2 ≤ retry_delay a) × (retry_delay a ≤ retry_delay b) × (retry_delay b ≤ 256)
unfolding retry_delay
retry_delay_bounds a b pos le =
    let low : 2 ≤ 2 ^ min a 8 = two_pow-le 1 (min a 8) (omega arith) in
    let mid = two_pow-le (min a 8) (min b 8) (omega arith) in
    let high : 2 ^ min b 8 ≤ 256 = two_pow-le (min b 8) 8 (omega arith) in
    (omega arith, omega arith, omega arith)
