-- ===== src/Outbox/Once.antt =====
-- A notification is queued once (backend/app/services/notification_outbox_service.py).
use kans_shop.Prelude.{
  ℕ, ◌≡◌, true, Option, arith, find_by, Option-cases, inl, inr, text_eq_refl, find_by-append_none,
}
use kans_shop.Models.{Database, NotificationOutbox, EventType, DedupeKey}
use kans_shop.Exec.{ok}
use kans_shop.Outbox.{enqueue_outbox_event, has_key, Recipient, event_row, same_key, dedupe_text}

same_key_refl : (k : DedupeKey) → same_key k k ≡ true
unfolding same_key
same_key_refl k = text_eq_refl (dedupe_text k)

-- Queueing again under the key of an event that was queued, with any type, payload and recipient,
-- returns that event and changes nothing.
pub enqueue_twice :
    (type type' : EventType) (aggregate aggregate' : ℕ) (payload payload' : Option ℕ)
    (to_ to' : Recipient) (key : DedupeKey) (d e : Database) (v : NotificationOutbox)
    → enqueue_outbox_event type aggregate payload to_ key d ≡ ok (v, e)
    → enqueue_outbox_event type' aggregate' payload' to' key e ≡ ok (v, e)
unfolding enqueue_outbox_event
enqueue_twice type type' aggregate aggregate' payload payload' to_ to' key d e v h =
    elim (Option-cases (find_by (has_key key) d.outbox.rows)) [
      | inr (old, taken) ↦ ground arith
      | inl free ↦
          let row = event_row d.clock type aggregate payload to_ key d.outbox.next in
          ground
            (arith, find_by-append_none (has_key key) d.outbox.rows row free, same_key_refl key)
    ]
