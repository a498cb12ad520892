-- ===== src/Worker/Exclusive.antt =====
-- An event is delivered under one lease at a time, and a lease that is over reports nothing
-- (backend/app/services/notification_outbox_worker.py).
use kans_shop.Prelude.{
  ℕ, ◌+◌, ◌*◌, ◌<◌, ◌≡◌, ◌≢◌, true, false, none, some, List, [], ◌∷◌, Text, arith, find, find_by,
  All, Option-cases, inl, inr, if◌then◌else◌, IsUnique, IsKeyed, find_key, find-of-find_by,
  find_by-none, find_by_holds, ==_iff,
}
use kans_shop.Models.{Database, NotificationOutbox}
use kans_shop.Exec.{ok}
use kans_shop.Worker.{
  OutboxClaim, outbox_key, is_due, due_batch, leased, claim_of, claim_outbox_batch, holds_lease,
  update_leased, ack_outbox, retry_outbox, fail_outbox,
}
use kans_shop.Worker.Lease.{
  event_of, claims_of, claim_inv, Claimed, claimed_this, find-due_batch, due_batch-IsUnique,
  lease_all-IsKeyed,
}

-- Every row of a keyed list is the one that its id finds.
All-found :
    (es : List NotificationOutbox)
    → IsUnique outbox_key es
    → (P : NotificationOutbox → Type 0)
    → ((e : NotificationOutbox) → find outbox_key e.id es ≡ some e → P e)
    → All P es
unfolding find
All-found [] u P step = tt
All-found (e ∷ es) (fresh, u) P step = (
  step e (ground arith),
  All-found es u P (λ v h. step v (ground (arith, h, fresh, find_key outbox_key v.id es v))),
)

All-claims_of :
    (uuid : ℕ → ℕ) (expires : ℕ) (P : OutboxClaim → Type 0) (es : List NotificationOutbox)
    → All (λ e. P (claim_of (uuid e.id) e)) es
    → All P (claims_of uuid expires es)
All-claims_of uuid expires P [] h = tt
All-claims_of uuid expires P (e ∷ es) (h, t) = (h, All-claims_of uuid expires P es t)

module _ (uuid : ℕ → ℕ) (now limit seconds : ℕ) (d e : Database) (cs : List OutboxClaim)
    (u : IsUnique outbox_key d.outbox.rows) (c : Claimed uuid now limit seconds d cs e) where
  -- A property of the claims, from one of the events that are leased.
  pub All-claims :
      (P : OutboxClaim → Type 0)
      → ((v : NotificationOutbox)
          → find outbox_key v.id (due_batch now limit d.outbox.rows) ≡ some v
          → P (claim_of (uuid v.id) v))
      → All P cs
  All-claims P step = rw c.claims (
      All-claims_of uuid (now + 1000 * seconds) P (due_batch now limit d.outbox.rows) (
        All-found (due_batch now limit d.outbox.rows) (due_batch-IsUnique now limit d.outbox.rows u)
          _ step))

-- An event that has just been leased is not due before the lease is over.
leased-is_due :
    (token expires now : ℕ) (v : NotificationOutbox)
    → now < expires
    → is_due now (leased token expires v) ≡ false
unfolding is_due
leased-is_due token expires now v h = ground arith

-- In a table whose ids differ, a claim of the outbox and a claim of any worker that follows it
-- before the lease is over have no event in common.
pub claims_disjoint :
    (uuid uuid' : ℕ → ℕ) (worker worker' : Text) (now now' limit limit' seconds seconds' : ℕ)
    (d e f : Database) (cs cs' : List OutboxClaim)
    → IsKeyed outbox_key d.outbox
    → claim_outbox_batch uuid worker now limit seconds d ≡ ok (cs, e)
    → claim_outbox_batch uuid' worker' now' limit' seconds' e ≡ ok (cs', f)
    → now' < now + 1000 * seconds
    → All (λ (c : OutboxClaim). All (λ (c' : OutboxClaim). c.event_id ≢ c'.event_id) cs') cs
claims_disjoint uuid uuid' worker worker' now now' limit limit' seconds seconds' d e f cs cs' keyed
      h h' early =
    let c = claim_inv uuid worker now limit seconds d e cs h in
    let c' = claim_inv uuid' worker' now' limit' seconds' e f cs' h' in
    let keyed' : IsKeyed outbox_key e.outbox = rw c.written (
      lease_all-IsKeyed uuid (now + 1000 * seconds) (due_batch now limit d.outbox.rows) d.outbox
        keyed) in
    All-claims uuid now limit seconds d e cs keyed.unique c _ (λ v at.
      All-claims uuid' now' limit' seconds' e f cs' keyed'.unique c' _ (λ w at' same.
        apart v w at (find-due_batch now' limit' w.id e.outbox.rows w keyed'.unique at') same c))
  where
    apart :
        (v w : NotificationOutbox)
        → find outbox_key v.id (due_batch now limit d.outbox.rows) ≡ some v
        → (event_of e w.id ≡ some w) × (is_due now' w ≡ true)
        → v.id ≡ w.id
        → Claimed uuid now limit seconds d cs e
        → ⊥
    apart v w at (there, due) same c =
        let mine = claimed_this uuid now limit seconds d e cs keyed.unique c v.id v at in
        let late = leased-is_due (uuid v.id) (now + 1000 * seconds) now' v early in
        ground (arith, mine, there, same, late, due)

-- What the guard of an update finds: the event, if it is held under this token.
pub holder_lem :
    (k token : ℕ) (rows : List NotificationOutbox) (e : NotificationOutbox)
    → IsUnique outbox_key rows
    → find outbox_key k rows ≡ some e
    → find_by (holds_lease k token) rows ≡ (if holds_lease k token e then some e else none)
holder_lem k token rows e u h = elim (Option-cases (find_by (holds_lease k token) rows)) [
  | inr (v, found) ↦
      let holds = find_by_holds (holds_lease k token) rows v found in
      let at = find-of-find_by outbox_key (holds_lease k token) rows v u found in
      ground (arith, found, holds, at, h, ==_iff v.id k)
  | inl gone ↦ ground (arith, gone, find_by-none outbox_key (holds_lease k token) k rows e gone h)
]

-- Under a token that an event is not held under, no update writes.
update_foreign :
    (k token : ℕ) (f : NotificationOutbox → NotificationOutbox) (d : Database)
    (e : NotificationOutbox)
    → IsUnique outbox_key d.outbox.rows
    → event_of d k ≡ some e
    → holds_lease k token e ≡ false
    → update_leased k token f d ≡ ok (false, d)
unfolding update_leased
update_foreign k token f d e u h free = ground (arith, holder_lem k token d.outbox.rows e u h, free)

-- What the three reports of a claim do to a database: they are refused.
abbrev pub IsLate : OutboxClaim → Database → Type 0
IsLate c d =
    (now later : ℕ) (error : Text)
    → (ack_outbox c.event_id c.lease_token now d ≡ ok (false, d))
      × (retry_outbox c.event_id c.lease_token later error d ≡ ok (false, d))
      × (fail_outbox c.event_id c.lease_token error d ≡ ok (false, d))

foreign-IsLate :
    (c : OutboxClaim) (d : Database) (e : NotificationOutbox)
    → IsUnique outbox_key d.outbox.rows
    → event_of d c.event_id ≡ some e
    → holds_lease c.event_id c.lease_token e ≡ false
    → IsLate c d
unfolding ack_outbox retry_outbox fail_outbox
foreign-IsLate c d e u h free now later error = (
  update_foreign c.event_id c.lease_token _ d e u h free,
  update_foreign c.event_id c.lease_token _ d e u h free,
  update_foreign c.event_id c.lease_token _ d e u h free,
)

-- When an event is claimed a second time under another token, every report of the first claim
-- (sent, retry or failed) is refused and changes nothing.
pub claimed_again-IsLate :
    (uuid uuid' : ℕ → ℕ) (worker worker' : Text) (now now' limit limit' seconds seconds' : ℕ)
    (d e f : Database) (cs cs' : List OutboxClaim)
    → IsKeyed outbox_key d.outbox
    → claim_outbox_batch uuid worker now limit seconds d ≡ ok (cs, e)
    → claim_outbox_batch uuid' worker' now' limit' seconds' e ≡ ok (cs', f)
    → ((k : ℕ) → uuid k ≢ uuid' k)
    → All
        (λ (c : OutboxClaim). All (λ (c' : OutboxClaim). c.event_id ≡ c'.event_id → IsLate c f) cs')
        cs
claimed_again-IsLate uuid uuid' worker worker' now now' limit limit' seconds seconds' d e f cs cs'
      keyed h h' fresh =
    let c = claim_inv uuid worker now limit seconds d e cs h in
    let c' = claim_inv uuid' worker' now' limit' seconds' e f cs' h' in
    let keyed' : IsKeyed outbox_key e.outbox = rw c.written (
      lease_all-IsKeyed uuid (now + 1000 * seconds) (due_batch now limit d.outbox.rows) d.outbox
        keyed) in
    let keyed'' : IsKeyed outbox_key f.outbox = rw c'.written (
      lease_all-IsKeyed uuid' (now' + 1000 * seconds') (due_batch now' limit' e.outbox.rows)
        e.outbox keyed') in
    All-claims uuid now limit seconds d e cs keyed.unique c _ (λ v at.
      All-claims uuid' now' limit' seconds' e f cs' keyed'.unique c' _ (λ w at' same.
        let row = leased (uuid' w.id) (now' + 1000 * seconds') w in
        let mine = claimed_this uuid' now' limit' seconds' e f cs' keyed'.unique c' w.id w at' in
        foreign-IsLate (claim_of (uuid v.id) v) f row keyed''.unique (ground (arith, mine, same))
          (other_token v w same)))
  where
    other_token :
        (v w : NotificationOutbox)
        → v.id ≡ w.id
        → holds_lease v.id (uuid v.id) (leased (uuid' w.id) (now' + 1000 * seconds') w) ≡ false
    other_token v w same =
        let differ : uuid v.id ≢ uuid' w.id = rw same (fresh w.id) in
        ground (arith, differ, ==_iff (uuid v.id) (uuid' w.id))
