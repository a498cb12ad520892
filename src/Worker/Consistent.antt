-- ===== src/Worker/Consistent.antt =====
-- The columns of an event agree (backend/app/db/models/notification_outbox.py), whatever the workers of
-- backend/app/services/notification_outbox_worker.py do.
use kans_shop.Prelude.{
  ℕ, ◌≡◌, refl, ◌↔◌, true, Option, none, some, List, Text, arith, is_some, IsKeyed,
}
use mathlib.Core.Path.{subst}
use kans_shop.Enums.{NotificationOutboxStatus, sending, sent}
use kans_shop.Models.{Database, NotificationOutbox}
use kans_shop.Worker.{outbox_key, is_due, mem_text, safe_error_codes}
use kans_shop.Worker.Lease.{event_of}
use kans_shop.Worker.Run.{Action, perform_all}
use kans_shop.Worker.Life.{Step, claimed, acked, retried, failed, Steps, here, next, IsNew, Moved}
use kans_shop.Worker.History.{perform_all-Follows}

-- What holds of every event: it is leased just while it is being sent, a sent one has its time, and
-- the error that is kept is one of the safe codes.
pub record IsConsistent (e : NotificationOutbox) : Type 0 where
  pub leased_iff : (is_some e.lease_token ≡ true) ↔ (e.status ≡ sending)
  pub paired : is_some e.lease_expires_at ≡ is_some e.lease_token
  pub has_time : (e.status ≡ sent) ↔ (is_some e.sent_at ≡ true)
  pub tried : e.attempts ≡ 0 → e.status ≡ NotificationOutboxStatus.pending
  pub is_safe : (t : Text) → e.last_error ≡ some t → mem_text t safe_error_codes ≡ true

pub new-IsConsistent : (e : NotificationOutbox) → IsNew e → IsConsistent e
new-IsConsistent e n = record {
  leased_iff = ground (arith, n.lease_token, n.status);
  paired = ground (arith, n.lease_token, n.lease_expires_at);
  has_time = ground (arith, n.sent_at, n.status);
  tried = λ q. n.status;
  is_safe = λ t q. ground (arith, n.last_error, q);
}

Step-IsConsistent : {e v : NotificationOutbox} → Step e v → IsConsistent e → IsConsistent v
unfolding is_due
Step-IsConsistent (claimed now token expires due q) c = record {
  leased_iff = ground (arith, q);
  paired = ground (arith, q);
  has_time = ground (arith, q, due, c.has_time);
  tried = λ z. ground (arith, q, z);
  is_safe = λ t z. ground (arith, q, z, c.is_safe t);
}
Step-IsConsistent (acked time s q) c = record {
  leased_iff = ground (arith, q);
  paired = ground (arith, q);
  has_time = ground (arith, q);
  tried = λ z. ground (arith, q, z, s, c.tried);
  is_safe = λ t z. ground (arith, q, z);
}
Step-IsConsistent (retried time code s m q) c = record {
  leased_iff = ground (arith, q);
  paired = ground (arith, q);
  has_time = ground (arith, q, s, c.has_time);
  tried = λ z. ground (arith, q, z);
  is_safe = λ t z. ground (arith, q, z, m);
}
Step-IsConsistent (failed code s m q) c = record {
  leased_iff = ground (arith, q);
  paired = ground (arith, q);
  has_time = ground (arith, q, s, c.has_time);
  tried = λ z. ground (arith, q, z, s, c.tried);
  is_safe = λ t z. ground (arith, q, z, m);
}

Steps-IsConsistent : {e v : NotificationOutbox} → Steps e v → IsConsistent e → IsConsistent v
Steps-IsConsistent here c = c
Steps-IsConsistent (next p s) c = Step-IsConsistent s (Steps-IsConsistent p c)

abbrev pub AllConsistent : Database → Type 0
AllConsistent d = (k : ℕ) (e : NotificationOutbox) → event_of d k ≡ some e → IsConsistent e

-- If it holds of every event that it has a token just while it is being sent, a lease end just with
-- a token, a sending time just when it is sent, another status than pending only after a try, and
-- no error but a safe code, then it does so after any interleaving of queueing, claims and handled
-- claims.
pub perform_all-AllConsistent :
    (default_language : Text) (actions : List Action) (d : Database)
    → IsKeyed outbox_key d.outbox
    → AllConsistent d
    → AllConsistent (perform_all default_language actions d)
perform_all-AllConsistent default_language actions d keyed all k e at =
    let after = perform_all default_language actions d in
    moved_lem (event_of d k) (event_of after k)
      ((perform_all-Follows default_language actions d keyed).moved k) (all k) at
  where
    moved_lem :
        (o p : Option NotificationOutbox)
        → Moved o p
        → ((a : NotificationOutbox) → o ≡ some a → IsConsistent a)
        → p ≡ some e
        → IsConsistent e
    moved_lem none none m c q = cc
    moved_lem none (some v) (b, new, s) c q =
        subst IsConsistent (ground (arith, q)) (Steps-IsConsistent s (new-IsConsistent b new))
    moved_lem (some a) none m c q = absurd m
    moved_lem (some a) (some v) m c q =
        subst IsConsistent (ground (arith, q)) (Steps-IsConsistent m (c a refl))
