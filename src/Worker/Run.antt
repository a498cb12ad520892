-- ===== src/Worker/Run.antt =====
-- Workers and producers together: the transactions of any number of `run_outbox_worker` loops of
-- backend/app/services/notification_outbox_worker.py, in any order, with the services that queue
-- events. A claim may be handled at any time, more than once or never, as after a crash.
use kans_shop.Exec.{committed}
use kans_shop.Prelude.{ℕ, Option, List, [], ◌∷◌, Text}
use kans_shop.Models.{Database, EventType, DedupeKey}
use kans_shop.Outbox.{Recipient, enqueue_outbox_event}
use kans_shop.Worker.{OutboxClaim, claim_outbox_batch}
use kans_shop.Worker.Process.{Telegram, process_claim}

pub data Action : Type 0 where
  enqueue : EventType → ℕ → Option ℕ → Recipient → DedupeKey → Action
  claim : (ℕ → ℕ) → Text → ℕ → ℕ → ℕ → Action
  handle : Telegram → ℕ → OutboxClaim → Action
  tick : ℕ → Action

module _ (default_language : Text) where
  unfoldable pub perform : Action → Database → Database
  perform (enqueue type aggregate payload to_ key) d =
      committed (enqueue_outbox_event type aggregate payload to_ key) d
  perform (claim uuid worker now limit seconds) d =
      committed (claim_outbox_batch uuid worker now limit seconds) d
  perform (handle bot now c) d = process_claim default_language bot now c d
  perform (tick time) d = record d { clock = time }

  unfoldable pub perform_all : List Action → Database → Database
  perform_all [] d = d
  perform_all (a ∷ rest) d = perform_all rest (perform a d)
