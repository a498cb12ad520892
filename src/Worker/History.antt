-- ===== src/Worker/History.antt =====
-- The events of the outbox through any interleaving of producers and workers
-- (backend/app/services/notification_outbox_worker.py, notification_outbox_service.py).
use kans_shop.Prelude.{
  ℕ, ◌+◌, ◌*◌, ◌≡◌, refl, ap, sym, ◌∙◌, ◌⊎◌, Option, none, some, List, [], ◌∷◌, Text, arith, codes,
  find, find_by, insert, Option-cases, Bool-cases, inl, inr, IsKeyed, insert-IsKeyed,
  find-append_some, find-append_self, find-append_fresh, ◌==◌,
}
use mathlib.Core.Path.{subst}
use kans_shop.Enums.{NotificationOutboxStatus, sent}
use kans_shop.Models.{Database, NotificationOutbox, EventType, DedupeKey}
use kans_shop.Exec.{committed, Exec, ok, Result-cases}
use kans_shop.Outbox.{Recipient, event_row, enqueue_outbox_event, has_key}
use kans_shop.Worker.{
  OutboxClaim, outbox_key, due_batch, claim_outbox_batch, ack_outbox, retry_outbox, fail_outbox,
  is_due,
}
use kans_shop.Worker.Lease.{
  event_of, claim_inv, claimed_this, claimed_other, find-due_batch, lease_all-IsKeyed,
}
use kans_shop.Worker.Content.{Delivery, Rendered, ready, skip}
use kans_shop.Worker.Render.{render_event}
use kans_shop.Worker.Process.{
  Telegram, Outcome, done, retry_after, forbidden, bad_request, broken, send_delivery,
  save_admin_message_id, settle_claim, process_claim, retry_delay, block_recipient,
  process_rendered,
}
use kans_shop.Worker.Run.{Action, enqueue, claim, handle, tick, perform, perform_all}
use kans_shop.Worker.Life.{
  Step, claimed, acked, retried, Steps, here, next, IsNew, Moved, Moved-refl, Follows, Follows-refl,
  Follows-trans, same_outbox-Follows, ack-Follows, retry-Follows, fail-Follows,
}

committed-Follows :
    {A : Type 0} (m : Exec A) (d : Database)
    → IsKeyed outbox_key d.outbox
    → ((a : A) (e : Database) → m d ≡ ok (a, e) → Follows d e)
    → Follows d (committed m d)
committed-Follows m d keyed step = elim (Result-cases (m d)) [
  | inl (a, e, q) ↦ subst (Follows d) (ground (arith, q)) (step a e q)
  | inr (x, q) ↦ subst (Follows d) (ground (arith, q)) (Follows-refl d keyed)
]

claim-Follows :
    (uuid : ℕ → ℕ) (worker : Text) (now limit seconds : ℕ) (d e : Database) (cs : List OutboxClaim)
    → IsKeyed outbox_key d.outbox
    → claim_outbox_batch uuid worker now limit seconds d ≡ ok (cs, e)
    → Follows d e
claim-Follows uuid worker now limit seconds d e cs keyed h =
    let c = claim_inv uuid worker now limit seconds d e cs h in
    record {
      keyed = rw c.written (
          lease_all-IsKeyed uuid (now + 1000 * seconds) (due_batch now limit d.outbox.rows) d.outbox
            keyed);
      moved = λ k. elim (Option-cases (find outbox_key k (due_batch now limit d.outbox.rows))) [
        | inl left ↦
            rw (claimed_other uuid now limit seconds d e cs keyed.unique c k left)
              (Moved-refl (event_of d k))
        | inr (v, taken) ↦
            let (at, due) = find-due_batch now limit k d.outbox.rows v keyed.unique taken in
            rw at (
              rw (claimed_this uuid now limit seconds d e cs keyed.unique c k v taken)
                (next here (claimed now (uuid v.id) (now + 1000 * seconds) due refl)))
      ];
    }

-- A new row under the next id.
insert-Follows :
    (row : ℕ → NotificationOutbox) (d : Database)
    → (row d.outbox.next).id ≡ d.outbox.next
    → IsNew (row d.outbox.next)
    → IsKeyed outbox_key d.outbox
    → Follows d (record d { outbox = insert row d.outbox })
insert-Follows row d own new keyed = record {
  keyed = insert-IsKeyed outbox_key row d.outbox own keyed;
  moved = λ k. elim (Option-cases (event_of d k)) [
    | inr (w, at) ↦
        rw at (rw (find-append_some outbox_key k (row d.outbox.next) d.outbox.rows w at) here)
    | inl gone ↦ elim (Bool-cases (d.outbox.next == k)) [
      | inl this ↦
          let at =
            find-append_self outbox_key k (row d.outbox.next) d.outbox.rows gone
              (ground (arith, own, this)) in
          rw gone (rw at (row d.outbox.next, new, here))
      | inr other ↦
          let kept =
            find-append_fresh outbox_key k (row d.outbox.next) d.outbox.rows
              (λ q. ground (arith, other, own, q)) in
          rw kept (Moved-refl (event_of d k))
    ]
  ];
}

enqueue-Follows :
    (type : EventType) (aggregate : ℕ) (payload : Option ℕ) (to_ : Recipient) (key : DedupeKey)
    (d e : Database) (v : NotificationOutbox)
    → IsKeyed outbox_key d.outbox
    → enqueue_outbox_event type aggregate payload to_ key d ≡ ok (v, e)
    → Follows d e
unfolding enqueue_outbox_event
enqueue-Follows type aggregate payload to_ key d e v keyed h =
    let row = event_row d.clock type aggregate payload to_ key in
    let new : IsNew (row d.outbox.next) = record {
      status = refl;
      attempts = refl;
      lease_token = refl;
      lease_expires_at = refl;
      sent_at = refl;
      last_error = refl;
    } in
    elim (Option-cases (find_by (has_key key) d.outbox.rows)) [
      | inr (old, taken) ↦ same_outbox-Follows d e keyed (ground (arith, taken, h))
      | inl free ↦ subst (Follows d) (ground (arith, free, h)) (insert-Follows row d refl new keyed)
    ]

-- Sending a message writes no outbox row.
pub send-outbox :
    (bot : Telegram) (v : Delivery) (d : Database) → (send_delivery bot v d).1.outbox ≡ d.outbox
unfolding send_delivery save_admin_message_id
send-outbox bot v d = ground arith

pub block-outbox : (k : Option ℕ) (d : Database) → (block_recipient k d).outbox ≡ d.outbox
block-outbox none d = refl
block-outbox (some k) d = ground arith

committed_ack :
    (k token time : ℕ) (d : Database)
    → IsKeyed outbox_key d.outbox
    → Follows d (committed (ack_outbox k token time) d)
committed_ack k token time d keyed =
    committed-Follows (ack_outbox k token time) d keyed
      (λ b e. ack-Follows k token time d e b keyed)

committed_retry :
    (k token time : ℕ) (error : Text) (d : Database)
    → IsKeyed outbox_key d.outbox
    → Follows d (committed (retry_outbox k token time error) d)
committed_retry k token time error d keyed =
    committed-Follows (retry_outbox k token time error) d keyed
      (λ b e. retry-Follows k token time error d e b keyed)

committed_fail :
    (k token : ℕ) (error : Text) (d : Database)
    → IsKeyed outbox_key d.outbox
    → Follows d (committed (fail_outbox k token error) d)
committed_fail k token error d keyed =
    committed-Follows (fail_outbox k token error) d keyed
      (λ b e. fail-Follows k token error d e b keyed)

settle-Follows :
    (now : ℕ) (c : OutboxClaim) (x : Outcome) (d : Database)
    → IsKeyed outbox_key d.outbox
    → Follows d (settle_claim now c x d)
unfolding settle_claim
settle-Follows now c (done m) d keyed = committed_ack c.event_id c.lease_token now d keyed
settle-Follows now c (retry_after delay) d keyed =
    committed_retry c.event_id c.lease_token (now + delay) (codes "telegram_retry_after") d keyed
settle-Follows now c forbidden d keyed =
    let blocked = block_recipient c.recipient_user_id d in
    let same = block-outbox c.recipient_user_id d in
    Follows-trans d blocked _ (same_outbox-Follows d blocked keyed same) (
      committed_fail c.event_id c.lease_token (codes "telegram_forbidden") blocked
        (subst (IsKeyed outbox_key) (sym same) keyed))
settle-Follows now c bad_request d keyed =
    committed_fail c.event_id c.lease_token (codes "telegram_bad_request") d keyed
settle-Follows now c broken d keyed =
    committed_retry c.event_id c.lease_token (now + 1000 * retry_delay c.attempts)
      (codes "delivery_error") d keyed

module _ (default_language : Text) where
  rendered-Follows :
      (bot : Telegram) (now : ℕ) (c : OutboxClaim) (r : Rendered Delivery) (d : Database)
      → IsKeyed outbox_key d.outbox
      → Follows d (process_rendered default_language bot now c r d)
  rendered-Follows bot now c (skip code) d keyed =
      committed_fail c.event_id c.lease_token code d keyed
  rendered-Follows bot now c (ready v) d keyed =
      let same = send-outbox bot v d in
      let keyed' = subst (IsKeyed outbox_key) (sym same) keyed in
      Follows-trans d (send_delivery bot v d).1 _
        (same_outbox-Follows d (send_delivery bot v d).1 keyed same)
        (settle-Follows now c (send_delivery bot v d).0 (send_delivery bot v d).1 keyed')

  perform-Follows :
      (a : Action) (d : Database)
      → IsKeyed outbox_key d.outbox
      → Follows d (perform default_language a d)
  unfolding perform process_claim
  perform-Follows (enqueue type aggregate payload to_ key) d keyed =
      committed-Follows (enqueue_outbox_event type aggregate payload to_ key) d keyed
        (λ v e. enqueue-Follows type aggregate payload to_ key d e v keyed)
  perform-Follows (claim uuid worker now limit seconds) d keyed =
      committed-Follows (claim_outbox_batch uuid worker now limit seconds) d keyed
        (λ cs e. claim-Follows uuid worker now limit seconds d e cs keyed)
  perform-Follows (handle bot now c) d keyed =
      rendered-Follows bot now c (render_event default_language d now c) d keyed
  perform-Follows (tick time) d keyed = same_outbox-Follows d (record d { clock = time }) keyed refl

  pub perform_all-Follows :
      (actions : List Action) (d : Database)
      → IsKeyed outbox_key d.outbox
      → Follows d (perform_all default_language actions d)
  unfolding perform_all
  perform_all-Follows [] d keyed = Follows-refl d keyed
  perform_all-Follows (a ∷ rest) d keyed =
      let first = perform-Follows a d keyed in
      Follows-trans d (perform default_language a d) _ first
        (perform_all-Follows rest (perform default_language a d) first.keyed)

-- Once an event is sent or has failed it stays as it is.
abbrev pub IsFinal : NotificationOutbox → Type 0
IsFinal e = (e.status ≡ sent) ⊎ (e.status ≡ NotificationOutboxStatus.failed)

Step-final : {e v : NotificationOutbox} → Step e v → IsFinal e → ⊥
unfolding is_due
Step-final (claimed now token expires due q) f = ground arith
Step-final (acked time s q) f = ground arith
Step-final (retried time code s m q) f = ground arith
Step-final (Step.failed code s m q) f = ground arith

Steps-final : {e v : NotificationOutbox} → Steps e v → IsFinal e → v ≡ e
Steps-final here f = refl
Steps-final (next {u} p s) f =
    let same = Steps-final p f in absurd (Step-final s (subst IsFinal (sym same) f))

pub perform_all-final :
    (default_language : Text) (actions : List Action) (d : Database) (k : ℕ)
    (e : NotificationOutbox)
    → IsKeyed outbox_key d.outbox
    → event_of d k ≡ some e
    → IsFinal e
    → event_of (perform_all default_language actions d) k ≡ some e
perform_all-final default_language actions d k e keyed at f =
    let after = perform_all default_language actions d in
    moved_lem (event_of d k) (event_of after k)
      ((perform_all-Follows default_language actions d keyed).moved k) at
  where
    moved_lem : (o p : Option NotificationOutbox) → Moved o p → o ≡ some e → p ≡ some e
    moved_lem none p m q = cc
    moved_lem (some a) none m q = absurd m
    moved_lem (some a) (some v) m q =
        let same : a ≡ e = ground (arith, q) in
        ap some (Steps-final m (subst IsFinal (sym same) f) ∙ same)
