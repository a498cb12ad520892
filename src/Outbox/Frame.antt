-- ===== src/Outbox/Frame.antt =====
-- Queueing a notification writes the outbox table and nothing else.
use kans_shop.Prelude.{ℕ, ◌≡◌, Option, arith, find_by, Option-cases, inl, inr}
use kans_shop.Models.{Database, NotificationOutbox, EventType, DedupeKey}
use kans_shop.Exec.{ok}
use kans_shop.Outbox.{enqueue_outbox_event, has_key, Recipient}

abbrev pub OnlyOutbox : Database → Database → Type 0
OnlyOutbox d e = e ≡ record d { outbox = e.outbox }

pub only_trans : (a b c : Database) → OnlyOutbox a b → OnlyOutbox b c → OnlyOutbox a c
only_trans a b c p q = ground arith

pub enqueue_only :
    (type : EventType) (aggregate : ℕ) (payload : Option ℕ) (to_ : Recipient) (key : DedupeKey)
    (d d' : Database) (e : NotificationOutbox)
    → enqueue_outbox_event type aggregate payload to_ key d ≡ ok (e, d')
    → OnlyOutbox d d'
unfolding enqueue_outbox_event
enqueue_only type aggregate payload to_ key d d' e h =
    elim (Option-cases (find_by (has_key key) d.outbox.rows)) [
      | inl free ↦ ground arith
      | inr (old, taken) ↦ ground arith
    ]
