-- ===== src/Tests/Workers.antt =====
-- The theorems on the outbox worker and its pacing, at an event that tells a customer of a new
-- status.
use kans_shop.Prelude.{
  ℕ, ◌+◌, ◌≤◌, ◌≡◌, ◌≢◌, refl, none, some, List, [], ◌∷◌, Text, codes, arith, find, find_by, select,
  sort_by, take, text_eq, All, IsKeyed, Bool-cases, inl, inr, ◌==◌, count, replace, length,
}
use kans_shop.Prelude.Parse.{strip}
use kans_shop.Enums.{OrderStatus, PaymentMethod, sending}
use kans_shop.Models.{Database, NotificationOutbox, OrderStatusHistory, EventType, status_user}
use kans_shop.Outbox.{event_row, to_user}
use kans_shop.Exec.{committed}
use kans_shop.Tests.{shop_with, answer_of}
use kans_shop.Worker.{
  OutboxClaim, outbox_key, is_due, due_batch, claim_rows, claim_outbox_batch, update_leased,
  ack_outbox,
}
use kans_shop.Worker.Exclusive.{claims_disjoint, claimed_again-IsLate, IsLate}
use kans_shop.Worker.Content.{Delivery, message, translated, status_changed_notification}
use kans_shop.Worker.Render.{render_event, render_order_status, actor_is_live}
use kans_shop.Worker.Process.{Telegram, done, process_claim}
use kans_shop.Worker.Run.{Action, claim, handle, perform_all}
use kans_shop.Worker.Consistent.{AllConsistent, perform_all-AllConsistent, new-IsConsistent}
use kans_shop.Worker.Settled.{Settles, process_claim-Settles}
use kans_shop.Worker.Addressed.{Addressed, render_event-Addressed}
use kans_shop.Pacing.{slots, grants, acquire_telegram_slot}
use kans_shop.Pacing.Window.{grants_bound, is_within, acquire_lem}

abbrev event : NotificationOutbox
event = event_row 0 EventType.status_changed 1 (some 4) (to_user 7) (status_user 4 7) 1

abbrev history : OrderStatusHistory
history = record {
  id = 4;
  order_id = 1;
  from_status = none;
  to_status = OrderStatus.preparing;
  changed_by_admin_id = some 2;
  comment = none;
}

abbrev waiting_shop : Database
waiting_shop = record (shop_with PaymentMethod.cash []) {
  outbox = record { rows = event ∷ []; next = 2 };
  status_history = record { rows = history ∷ []; next = 5 };
}

waiting-IsKeyed : IsKeyed outbox_key waiting_shop.outbox
unfolding find
waiting-IsKeyed = record { unique = (refl, tt); fresh = λ k le. ground (arith, le) }

abbrev worker : Text
worker = codes "outbox"

abbrev uuid : ℕ → ℕ
uuid k = k + 100

abbrev uuid' : ℕ → ℕ
uuid' k = k + 200

abbrev claims : List OutboxClaim
claims = answer_of [] (claim_outbox_batch uuid worker 10 20 90 waiting_shop)

abbrev claimed_shop : Database
claimed_shop = committed (claim_outbox_batch uuid worker 10 20 90) waiting_shop

-- What a run of the worker computes with.
unfoldable works : Unit {0}
unfolding claim_outbox_batch claim_rows due_batch is_due take sort_by select strip find find_by
    replace text_eq update_leased ack_outbox
works = tt

abbrev early_shop : Database
early_shop = committed (claim_outbox_batch uuid' worker 50 20 90) claimed_shop

claims_disjoint_example :
    All
      (λ (c : OutboxClaim).
        All
          (λ (c' : OutboxClaim). c.event_id ≢ c'.event_id)
          (answer_of [] (claim_outbox_batch uuid' worker 50 20 90 claimed_shop)))
      claims
unfolding works
claims_disjoint_example =
    claims_disjoint uuid uuid' worker worker 10 50 20 20 90 90 waiting_shop claimed_shop early_shop
      claims (answer_of [] (claim_outbox_batch uuid' worker 50 20 90 claimed_shop)) waiting-IsKeyed
      refl refl (omega arith)

-- The same event, claimed again when its lease is over.
abbrev claims' : List OutboxClaim
claims' = answer_of [] (claim_outbox_batch uuid' worker 99999 20 90 claimed_shop)

abbrev late_shop : Database
late_shop = committed (claim_outbox_batch uuid' worker 99999 20 90) claimed_shop

claimed_again-IsLate_example :
    All
      (λ (c : OutboxClaim).
        All (λ (c' : OutboxClaim). c.event_id ≡ c'.event_id → IsLate c late_shop) claims')
      claims
unfolding works
claimed_again-IsLate_example =
    claimed_again-IsLate uuid uuid' worker worker 10 99999 20 20 90 90 waiting_shop claimed_shop
      late_shop claims claims' waiting-IsKeyed refl refl (λ k q. omega arith)

abbrev telegram : Telegram
telegram = record { edit = λ v. done 1; send = λ v. done 1; send_receipt = λ v file m. done 1 }

abbrev first_claim : OutboxClaim
first_claim = record {
  event_id = 1;
  event_type = EventType.status_changed;
  aggregate_id = 1;
  payload_id = some 4;
  recipient_user_id = some 7;
  recipient_admin_id = none;
  lease_token = 101;
  attempts = 1;
}

abbrev actions : List Action
actions =
    claim uuid worker 10 20 90
    ∷ handle telegram 20 first_claim
    ∷ handle telegram 30 first_claim
    ∷ []

event-AllConsistent : AllConsistent waiting_shop
unfolding find
event-AllConsistent k e at = elim (Bool-cases (1 == k)) [
  | inl this ↦
      let same : event ≡ e = ground (arith, this, at) in
      rw (← same) (
        new-IsConsistent event (record {
          status = refl;
          attempts = refl;
          lease_token = refl;
          lease_expires_at = refl;
          sent_at = refl;
          last_error = refl;
        }))
  | inr other ↦ absurd (ground (arith, other, at))
]

perform_all-AllConsistent_example : AllConsistent (perform_all (codes "uz") actions waiting_shop)
perform_all-AllConsistent_example =
    perform_all-AllConsistent (codes "uz") actions waiting_shop waiting-IsKeyed event-AllConsistent

abbrev leased_event : NotificationOutbox
leased_event = record event {
  status = sending;
  attempts = 1;
  lease_token = some 101;
  lease_expires_at = some 90010;
}

claimed-IsKeyed : IsKeyed outbox_key claimed_shop.outbox
unfolding works
claimed-IsKeyed = record { unique = (refl, tt); fresh = λ k le. ground (arith, le) }

process_claim-Settles_example :
    Settles 20 1 leased_event (process_claim (codes "uz") telegram 20 first_claim claimed_shop)
unfolding works
process_claim-Settles_example =
    process_claim-Settles (codes "uz") telegram 20 first_claim claimed_shop leased_event
      claimed-IsKeyed refl refl

abbrev notice : Delivery
notice =
    message 70
      (translated (codes "uz") (status_changed_notification (49 ∷ []) OrderStatus.preparing))

render_event-Addressed_example : Addressed claimed_shop first_claim notice
unfolding works render_event render_order_status actor_is_live
render_event-Addressed_example =
    render_event-Addressed (codes "uz") claimed_shop 20 first_claim notice refl

abbrev times : List ℕ
times = 1 ∷ 5 ∷ 900 ∷ 1500 ∷ []

grants_bound_example : count (is_within 1) (grants times []) ≤ slots
grants_bound_example = grants_bound times 0 1 (omega arith)

abbrev full : List ℕ
full = 1 ∷ 2 ∷ 3 ∷ 4 ∷ 5 ∷ 6 ∷ 7 ∷ 8 ∷ 9 ∷ 10 ∷ 11 ∷ 12 ∷ 13 ∷ 14 ∷ 15 ∷ 16 ∷ 17 ∷ 18 ∷ 19 ∷ 20 ∷ []

acquire_lem_example :
    (r : ℕ × List ℕ) × (acquire_telegram_slot 2 100 full ≡ some r)
    × (100 ≤ r.0)
    × (length r.1 ≤ slots)
acquire_lem_example = acquire_lem 100 full (omega arith)
