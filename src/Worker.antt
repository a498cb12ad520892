-- ===== src/Worker.antt =====
-- backend/app/services/notification_outbox_worker.py: the claims of the outbox and the updates that a
-- lease guards. A claim locks the rows that it reads and no transaction is open between two steps of
-- the model, so `skip_locked` skips none. A lease token is drawn by `uuid4`, which is a parameter: the
-- token for a row's id.
pub mod Addressed
pub mod Consistent
pub mod Exclusive
pub mod History
pub mod Lease
pub mod Life
pub mod Process
pub mod Content
pub mod Render
pub mod Run
pub mod Settled
use kans_shop.Prelude.{
  ℕ, ◌+◌, ◌*◌, Bool, true, false, ◌&&◌, ◌||◌, Option, none, some, List, [], ◌∷◌, Text, codes,
  text_eq, is_empty, find_by, select, sort_by, take, update, leb, ltb, ◌==◌, is_number,
  if◌then◌else◌,
}
use kans_shop.Prelude.Parse.{strip}
use kans_shop.Enums.{NotificationOutboxStatus, sending, sent, outbox_eq}
use kans_shop.Models.{Database, NotificationOutbox, EventType}
use kans_shop.Exec.{Exec, ok, value_error, pure, modify, gets, raise_if, ◌>>=◌, ◌>>◌}

abbrev pub lease_limit : ℕ
lease_limit = 90

abbrev pub batch_size : ℕ
batch_size = 20

unfoldable pub safe_error_codes : List Text
safe_error_codes =
    codes "actor_inactive"
    ∷ codes "admin_inactive"
    ∷ codes "admin_notifications_disabled"
    ∷ codes "event_data_missing"
    ∷ codes "event_superseded"
    ∷ codes "recipient_blocked"
    ∷ codes "recipient_missing"
    ∷ codes "telegram_bad_request"
    ∷ codes "telegram_forbidden"
    ∷ codes "telegram_retry_after"
    ∷ codes "delivery_error"
    ∷ codes "unknown_event_type"
    ∷ []

unfoldable pub mem_text : Text → List Text → Bool
mem_text t [] = false
mem_text t (u ∷ us) = text_eq u t || mem_text t us

-- `safe_error if safe_error in _SAFE_ERROR_CODES else "delivery_error"`
unfoldable pub safe_code : Text → Text
safe_code t = if mem_text t safe_error_codes then t else codes "delivery_error"

pub record OutboxClaim : Type 0 where
  pub event_id : ℕ
  pub event_type : EventType
  pub aggregate_id : ℕ
  pub payload_id : Option ℕ
  pub recipient_user_id : Option ℕ
  pub recipient_admin_id : Option ℕ
  pub lease_token : ℕ
  pub attempts : ℕ

abbrev pub outbox_key : NotificationOutbox → ℕ
outbox_key e = e.id

-- `lease_expires_at <= now`, which is not true of NULL
abbrev pub is_over : ℕ → Option ℕ → Bool
is_over now none = false
is_over now (some t) = leb t now

unfoldable pub is_due : ℕ → NotificationOutbox → Bool
is_due now e =
    (outbox_eq e.status NotificationOutboxStatus.pending && leb e.next_available_at now)
    || (outbox_eq e.status sending && is_over now e.lease_expires_at)

-- `order_by(next_available_at, id).limit(limit)`: the sort by time keeps the order by id.
unfoldable pub due_batch : ℕ → ℕ → List NotificationOutbox → List NotificationOutbox
due_batch now limit rows =
    take limit (sort_by (λ e. e.next_available_at) (sort_by outbox_key (select (is_due now) rows)))

abbrev pub leased : ℕ → ℕ → NotificationOutbox → NotificationOutbox
leased token expires e = record e {
  status = sending;
  attempts = e.attempts + 1;
  lease_token = some token;
  lease_expires_at = some expires;
}

abbrev pub claim_of : ℕ → NotificationOutbox → OutboxClaim
claim_of token e = record {
  event_id = e.id;
  event_type = e.event_type;
  aggregate_id = e.aggregate_id;
  payload_id = e.payload_id;
  recipient_user_id = e.recipient_user_id;
  recipient_admin_id = e.recipient_admin_id;
  lease_token = token;
  attempts = e.attempts + 1;
}

abbrev pub save_event : NotificationOutbox → Exec (Unit {0})
save_event e = modify (λ d. record d { outbox = update outbox_key e d.outbox })

-- The loop of `claim_outbox_batch`.
unfoldable pub claim_rows : (ℕ → ℕ) → ℕ → List NotificationOutbox → Exec (List OutboxClaim)
claim_rows uuid expires [] = pure []
claim_rows uuid expires (e ∷ es) = do
  save_event (leased (uuid e.id) expires e)
  claims ← claim_rows uuid expires es
  pure (claim_of (uuid e.id) e ∷ claims)

unfoldable pub claim_outbox_batch : (ℕ → ℕ) → Text → ℕ → ℕ → ℕ → Exec (List OutboxClaim)
claim_outbox_batch uuid worker_id now limit lease_seconds = do
  raise_if (is_empty (strip worker_id)) value_error
  raise_if (ltb limit 1 || ltb lease_seconds 1) value_error
  rows ← gets (λ d. due_batch now limit d.outbox.rows)
  claim_rows uuid (now + 1000 * lease_seconds) rows

-- The `where` of the updates below: the event is being sent under this token.
abbrev pub holds_lease : ℕ → ℕ → NotificationOutbox → Bool
holds_lease k token e = e.id == k && (outbox_eq e.status sending && is_number token e.lease_token)

abbrev write_event :
    (NotificationOutbox → NotificationOutbox) → Option NotificationOutbox → Exec Bool
write_event f none d = ok (false, d)
write_event f (some e) d = ok (true, record d { outbox = update outbox_key (f e) d.outbox })

-- An update with that `where` and `returning`: whether a row was written.
unfoldable pub update_leased : ℕ → ℕ → (NotificationOutbox → NotificationOutbox) → Exec Bool
update_leased k token f d = write_event f (find_by (holds_lease k token) d.outbox.rows) d

abbrev pub delivered : ℕ → NotificationOutbox → NotificationOutbox
delivered sent_at e = record e {
  status = sent;
  sent_at = some sent_at;
  lease_token = none;
  lease_expires_at = none;
  last_error = none;
}

abbrev pub postponed : ℕ → Text → NotificationOutbox → NotificationOutbox
postponed available_at code e = record e {
  status = NotificationOutboxStatus.pending;
  next_available_at = available_at;
  lease_token = none;
  lease_expires_at = none;
  last_error = some code;
}

abbrev pub given_up : Text → NotificationOutbox → NotificationOutbox
given_up code e = record e {
  status = NotificationOutboxStatus.failed;
  lease_token = none;
  lease_expires_at = none;
  last_error = some code;
}

unfoldable pub ack_outbox : ℕ → ℕ → ℕ → Exec Bool
ack_outbox k token sent_at = update_leased k token (delivered sent_at)

unfoldable pub retry_outbox : ℕ → ℕ → ℕ → Text → Exec Bool
retry_outbox k token available_at error =
    update_leased k token (postponed available_at (safe_code error))

unfoldable pub fail_outbox : ℕ → ℕ → Text → Exec Bool
fail_outbox k token error = update_leased k token (given_up (safe_code error))
