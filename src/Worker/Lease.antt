-- ===== src/Worker/Lease.antt =====
-- What a claim of backend/app/services/notification_outbox_worker.py writes, and that a lease is held
-- by one claim at a time.
use kans_shop.Prelude.{
  ℕ, ◌+◌, ◌*◌, ◌<◌, ◌≡◌, refl, sym, ◌∙◌, true, Option, none, some, List, [], ◌∷◌, Text, arith, find,
  replace, select, sort_by, map, ltb, is_empty, ◌==◌, Bool-cases, inl, inr, IsUnique, IsKeyed,
  update-IsKeyed, find-replace_self, find-replace_ne, find-select, select-IsUnique, find-sort_by,
  sort_by-IsUnique, find-take, take-IsUnique, Table,
}
use kans_shop.Prelude.Parse.{strip}
use kans_shop.Models.{Database, NotificationOutbox}
use kans_shop.Exec.{ok}
use kans_shop.Worker.{
  OutboxClaim, outbox_key, is_due, due_batch, leased, claim_of, claim_rows, claim_outbox_batch,
}

abbrev pub event_of : Database → ℕ → Option NotificationOutbox
event_of d k = find outbox_key k d.outbox.rows

abbrev by_id : List NotificationOutbox → List NotificationOutbox
by_id = sort_by outbox_key

abbrev by_time : List NotificationOutbox → List NotificationOutbox
by_time = sort_by (λ e. e.next_available_at)

pub due_batch-IsUnique :
    (now limit : ℕ) (rows : List NotificationOutbox)
    → IsUnique outbox_key rows
    → IsUnique outbox_key (due_batch now limit rows)
unfolding due_batch
due_batch-IsUnique now limit rows u = take-IsUnique outbox_key limit _ (
    sort_by-IsUnique outbox_key _ _
      (sort_by-IsUnique outbox_key _ _ (select-IsUnique outbox_key (is_due now) rows u)))

-- An event of a batch is a row of the table, and due.
pub find-due_batch :
    (now limit k : ℕ) (rows : List NotificationOutbox) (e : NotificationOutbox)
    → IsUnique outbox_key rows
    → find outbox_key k (due_batch now limit rows) ≡ some e
    → (find outbox_key k rows ≡ some e) × (is_due now e ≡ true)
unfolding due_batch
find-due_batch now limit k rows e u h =
    let due = select (is_due now) rows in
    let du = select-IsUnique outbox_key (is_due now) rows u in
    let su = sort_by-IsUnique outbox_key outbox_key due du in
    let at = find-take outbox_key limit k (by_time (by_id due)) e h in
    find-select outbox_key (is_due now) k rows e u (
      sym (find-sort_by outbox_key outbox_key k due du)
      ∙ (sym (find-sort_by outbox_key (λ e. e.next_available_at) k (by_id due) su) ∙ at))

module _ (uuid : ℕ → ℕ) (expires : ℕ) where
  abbrev lease : NotificationOutbox → NotificationOutbox
  lease e = leased (uuid e.id) expires e

  abbrev pub lease_all :
      List NotificationOutbox → Table NotificationOutbox → Table NotificationOutbox
  lease_all [] t = t
  lease_all (e ∷ es) t = lease_all es (record t { rows = replace outbox_key (lease e) t.rows })

  abbrev pub claims_of : List NotificationOutbox → List OutboxClaim
  claims_of es = map (λ e. claim_of (uuid e.id) e) es

  pub claim_rows_lem :
      (es : List NotificationOutbox) (d : Database)
      → claim_rows uuid expires es d
        ≡ ok (claims_of es, record d { outbox = lease_all es d.outbox })
  unfolding claim_rows
  claim_rows_lem [] d = ground arith
  claim_rows_lem (e ∷ es) d = ground (
    arith,
    claim_rows_lem es (record d {
      outbox = record d.outbox { rows = replace outbox_key (lease e) d.outbox.rows };
    }),
  )

  pub lease_all-IsKeyed :
      (es : List NotificationOutbox) (t : Table NotificationOutbox)
      → IsKeyed outbox_key t
      → IsKeyed outbox_key (lease_all es t)
  lease_all-IsKeyed [] t h = h
  lease_all-IsKeyed (e ∷ es) t h = lease_all-IsKeyed es _ (update-IsKeyed outbox_key (lease e) t h)

  pub lease_all_other :
      (k : ℕ) (es : List NotificationOutbox) (t : Table NotificationOutbox)
      → find outbox_key k es ≡ none
      → find outbox_key k (lease_all es t).rows ≡ find outbox_key k t.rows
  unfolding find
  lease_all_other k [] t h = refl
  lease_all_other k (e ∷ es) t h = ground (
    arith,
    lease_all_other k es (record t { rows = replace outbox_key (lease e) t.rows }),
    find-replace_ne outbox_key k (lease e) t.rows,
  )

  pub lease_all_this :
      (k : ℕ) (es : List NotificationOutbox) (t : Table NotificationOutbox)
      (e w : NotificationOutbox)
      → IsUnique outbox_key es
      → find outbox_key k es ≡ some e
      → find outbox_key k t.rows ≡ some w
      → find outbox_key k (lease_all es t).rows ≡ some (lease e)
  unfolding find
  lease_all_this k [] t e w u h at = cc
  lease_all_this k (v ∷ es) t e w (fresh, u) h at =
      let t' = record t { rows = replace outbox_key (lease v) t.rows } in
      elim (Bool-cases (v.id == k)) [
        | inl here ↦ ground (
          arith,
          here,
          lease_all_other k es t',
          find-replace_self outbox_key k (lease v) t.rows w at,
          fresh,
        )
        | inr later ↦
            lease_all_this k es t' e w u (ground (arith, later))
              (ground (arith, later, find-replace_ne outbox_key k (lease v) t.rows, at))
      ]

-- A claim that succeeds leases the batch, and nothing else.
pub record Claimed (uuid : ℕ → ℕ) (now limit seconds : ℕ) (d : Database) (cs : List OutboxClaim)
    (e : Database) : Type 0 where
  pub lasting : 0 < seconds
  pub claims : cs ≡ claims_of uuid (now + 1000 * seconds) (due_batch now limit d.outbox.rows)
  pub written : e ≡ record d {
    outbox = lease_all uuid (now + 1000 * seconds) (due_batch now limit d.outbox.rows) d.outbox;
  }

pub claim_inv :
    (uuid : ℕ → ℕ) (worker : Text) (now limit seconds : ℕ) (d e : Database) (cs : List OutboxClaim)
    → claim_outbox_batch uuid worker now limit seconds d ≡ ok (cs, e)
    → Claimed uuid now limit seconds d cs e
unfolding claim_outbox_batch
claim_inv uuid worker now limit seconds d e cs h =
    let rows = claim_rows_lem uuid (now + 1000 * seconds) (due_batch now limit d.outbox.rows) d in
    elim (Bool-cases (is_empty (strip worker))) [
      | inl blank ↦ absurd (ground (arith, blank, h))
      | inr named ↦ elim (Bool-cases (ltb seconds 1)) [
        | inl short ↦ absurd (ground (arith, named, short, h))
        | inr long ↦ record {
          lasting = ground (arith, long);
          claims = ground (arith, named, rows, long, h);
          written = ground (arith, named, rows, long, h);
        }
      ]
    ]

module _ (uuid : ℕ → ℕ) (now limit seconds : ℕ) (d e : Database) (cs : List OutboxClaim)
    (u : IsUnique outbox_key d.outbox.rows) (c : Claimed uuid now limit seconds d cs e) where
  abbrev batch : List NotificationOutbox
  batch = due_batch now limit d.outbox.rows

  pub claimed_this :
      (k : ℕ) (v : NotificationOutbox)
      → find outbox_key k batch ≡ some v
      → event_of e k ≡ some (leased (uuid v.id) (now + 1000 * seconds) v)
  claimed_this k v h =
      let at = find-due_batch now limit k d.outbox.rows v u h in
      ground (
        arith,
        c.written,
        lease_all_this uuid (now + 1000 * seconds) k batch d.outbox v v
            (due_batch-IsUnique now limit d.outbox.rows u) h at.0,
      )

  pub claimed_other : (k : ℕ) → find outbox_key k batch ≡ none → event_of e k ≡ event_of d k
  claimed_other k h =
      ground (arith, c.written, lease_all_other uuid (now + 1000 * seconds) k batch d.outbox h)
