-- ===== src/Worker/Life.antt =====
-- The life of an event under backend/app/services/notification_outbox_worker.py as a state machine,
-- and that the workers follow it.
use kans_shop.Prelude.{
  ℕ, ◌≡◌, refl, sym, Bool, true, Option, none, some, Text, arith, codes, find, find_by, update,
  Option-cases, Bool-cases, inl, inr, IsKeyed, update-IsKeyed, find-of-find_by, find_by_holds,
  if◌then◌else◌, text_eq, find-replace_self, find-replace_ne, ◌==◌, ==_iff,
}
use mathlib.Core.Path.{subst}
use kans_shop.Enums.{NotificationOutboxStatus, sending}
use kans_shop.Models.{Database, NotificationOutbox}
use kans_shop.Exec.{ok}
use kans_shop.Worker.{
  outbox_key, is_due, leased, holds_lease, update_leased, ack_outbox, retry_outbox, fail_outbox,
  delivered, postponed, given_up, mem_text, safe_code, safe_error_codes,
}
use kans_shop.Worker.Lease.{event_of}

pub data Step (e v : NotificationOutbox) : Type 0 where
  claimed : (now token expires : ℕ) → is_due now e ≡ true → v ≡ leased token expires e → Step e v
  acked : (time : ℕ) → e.status ≡ sending → v ≡ delivered time e → Step e v
  retried :
      (time : ℕ) (code : Text)
      → e.status ≡ sending
      → mem_text code safe_error_codes ≡ true
      → v ≡ postponed time code e
      → Step e v
  failed :
      (code : Text)
      → e.status ≡ sending
      → mem_text code safe_error_codes ≡ true
      → v ≡ given_up code e
      → Step e v

pub data Steps (e : NotificationOutbox) : NotificationOutbox → Type 0 where
  here : Steps e e
  next : {u v : NotificationOutbox} → Steps e u → Step u v → Steps e v

Steps-trans : {e u v : NotificationOutbox} → Steps e u → Steps u v → Steps e v
Steps-trans p here = p
Steps-trans p (next q s) = next (Steps-trans p q) s

-- A row as `enqueue_outbox_event` writes it.
pub record IsNew (e : NotificationOutbox) : Type 0 where
  pub status : e.status ≡ NotificationOutboxStatus.pending
  pub attempts : e.attempts ≡ 0
  pub lease_token : e.lease_token ≡ none
  pub lease_expires_at : e.lease_expires_at ≡ none
  pub sent_at : e.sent_at ≡ none
  pub last_error : e.last_error ≡ none

-- What became of an event: nothing, or the steps that it took, from its birth where it is new.
abbrev pub Moved : Option NotificationOutbox → Option NotificationOutbox → Type 0
Moved none none = Unit
Moved none (some v) = (b : NotificationOutbox) × IsNew b × Steps b v
Moved (some e) none = ⊥
Moved (some e) (some v) = Steps e v

pub Moved-refl : (o : Option NotificationOutbox) → Moved o o
Moved-refl none = tt
Moved-refl (some e) = here

Moved-trans : (o p q : Option NotificationOutbox) → Moved o p → Moved p q → Moved o q
Moved-trans none none q m n = n
Moved-trans none (some u) none m n = absurd n
Moved-trans none (some u) (some v) (b, new, s) n = (b, new, Steps-trans s n)
Moved-trans (some e) none q m n = absurd m
Moved-trans (some e) (some u) none m n = absurd n
Moved-trans (some e) (some u) (some v) m n = Steps-trans m n

pub record Follows (d e : Database) : Type 0 where
  pub keyed : IsKeyed outbox_key e.outbox
  pub moved : (k : ℕ) → Moved (event_of d k) (event_of e k)

pub Follows-refl : (d : Database) → IsKeyed outbox_key d.outbox → Follows d d
Follows-refl d keyed = record { keyed = keyed; moved = λ k. Moved-refl (event_of d k) }

pub Follows-trans : (d e f : Database) → Follows d e → Follows e f → Follows d f
Follows-trans d e f a b = record {
  keyed = b.keyed;
  moved = λ k. Moved-trans (event_of d k) (event_of e k) (event_of f k) (a.moved k) (b.moved k);
}

-- Only the outbox counts.
pub same_outbox-Follows :
    (d e : Database) → IsKeyed outbox_key d.outbox → e.outbox ≡ d.outbox → Follows d e
same_outbox-Follows d e keyed same = record {
  keyed = subst (IsKeyed outbox_key) (sym same) keyed;
  moved = λ k.
      subst (λ t. Moved (event_of d k) (find outbox_key k t.rows)) (sym same)
        (Moved-refl (event_of d k));
}

-- One event takes a step.
write-Follows :
    (d : Database) (e v : NotificationOutbox)
    → IsKeyed outbox_key d.outbox
    → event_of d e.id ≡ some e
    → v.id ≡ e.id
    → Step e v
    → Follows d (record d { outbox = update outbox_key v d.outbox })
write-Follows d e v keyed at same s = record {
  keyed = update-IsKeyed outbox_key v d.outbox keyed;
  moved = λ k. elim (Bool-cases (v.id == k)) [
    | inl this ↦
        let old : event_of d k ≡ some e = ground (arith, at, same, this) in
        let new = find-replace_self outbox_key k v d.outbox.rows e old (ground (arith, this)) in
        rw old (rw new (next here s))
    | inr other ↦
        let kept =
          find-replace_ne outbox_key k v d.outbox.rows (λ q. cc (other, (==_iff v.id k).1 q)) in
        rw kept (Moved-refl (event_of d k))
  ];
}

-- A guarded update writes the event that it finds, which is being sent.
update-Follows :
    (k token : ℕ) (f : NotificationOutbox → NotificationOutbox) (d e : Database) (b : Bool)
    → ((v : NotificationOutbox) → v.status ≡ sending → ((f v).id ≡ v.id) × Step v (f v))
    → IsKeyed outbox_key d.outbox
    → update_leased k token f d ≡ ok (b, e)
    → Follows d e
unfolding update_leased
update-Follows k token f d e b step keyed h =
    elim (Option-cases (find_by (holds_lease k token) d.outbox.rows)) [
      | inl gone ↦ same_outbox-Follows d e keyed (ground (arith, gone, h))
      | inr (v, found) ↦
          let held = find_by_holds (holds_lease k token) d.outbox.rows v found in
          let at =
            find-of-find_by outbox_key (holds_lease k token) d.outbox.rows v keyed.unique found in
          let (same, s) = step v (ground (arith, held)) in
          subst (Follows d) (ground (arith, found, h)) (write-Follows d v (f v) keyed at same s)
    ]

mem-default : mem_text (codes "delivery_error") safe_error_codes ≡ true
unfolding mem_text text_eq safe_error_codes
mem-default = refl

mem-safe_code : (t : Text) → mem_text (safe_code t) safe_error_codes ≡ true
unfolding safe_code
mem-safe_code t = elim (Bool-cases (mem_text t safe_error_codes)) [
  | inl known ↦ rw (known, if◌then◌else◌) known
  | inr unknown ↦ rw (unknown, if◌then◌else◌) mem-default
]

pub ack-Follows :
    (k token time : ℕ) (d e : Database) (b : Bool)
    → IsKeyed outbox_key d.outbox
    → ack_outbox k token time d ≡ ok (b, e)
    → Follows d e
unfolding ack_outbox
ack-Follows k token time d e b =
    update-Follows k token (delivered time) d e b (λ v s. (refl, acked time s refl))

pub retry-Follows :
    (k token time : ℕ) (error : Text) (d e : Database) (b : Bool)
    → IsKeyed outbox_key d.outbox
    → retry_outbox k token time error d ≡ ok (b, e)
    → Follows d e
unfolding retry_outbox
retry-Follows k token time error d e b =
    update-Follows k token (postponed time (safe_code error)) d e b
      (λ v s. (refl, retried time (safe_code error) s (mem-safe_code error) refl))

pub fail-Follows :
    (k token : ℕ) (error : Text) (d e : Database) (b : Bool)
    → IsKeyed outbox_key d.outbox
    → fail_outbox k token error d ≡ ok (b, e)
    → Follows d e
unfolding fail_outbox
fail-Follows k token error d e b =
    update-Follows k token (given_up (safe_code error)) d e b
      (λ v s. (refl, failed (safe_code error) s (mem-safe_code error) refl))
