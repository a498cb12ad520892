-- ===== src/Exec.antt =====
-- A service call inside one transaction. An exception rolls the session back (`get_db` of
-- backend/app/api/deps.py and the bot's DbSessionMiddleware), so it carries no state.
use mathlib.Core.Path.{subst}
use kans_shop.Prelude.{ℕ, ◌≡◌, refl, arith, ◌⊎◌, inl, inr, Bool, true, false, Option, none, some}
use kans_shop.Prelude.Int.{ℤ}
use kans_shop.Models.{Database}

-- `PaymeRpcError` of backend/app/services/payment_service.py, by its code.
pub data PaymeError : Type 0 where
  invalid_amount transaction_not_found unable_to_perform : PaymeError
  unknown_order order_already_paid insufficient_privileges : PaymeError

-- backend/app/core/exceptions.py, with the details that a handler reads.
pub data Error : Type 0 where
  product_not_found : ℕ → Error
  order_not_found : ℕ → Error
  cart_empty : Error
  out_of_stock : ℕ → ℤ → Error
  minimum_order_quantity : ℕ → ℕ → Error
  min_order_amount : ℕ → Error
  checkout_unavailable checkout_validation client_update_required quote_changed : Error
  idempotency_conflict : Error
  admin_session_required forbidden : Error
  admin_role_required admin_already_exists last_superadmin_required csrf_failed : Error
  unique_violation : Error
  not_found : ℕ → Error
  category_not_found : ℕ → Error
  category_in_use sku_already_exists catalog_edit_conflict : Error
  order_already_processed : Error
  receipt_version_conflict : ℕ → ℕ → Error
  payment_acceptance_unavailable : Error
  payment_not_configured payment_already_processed : Error
  invalid_file : Error
  admin_order_message_validation : Error
  store_settings_conflict : Error
  payme_rpc : PaymeError → Error
  value_error runtime_error : Error

pub data Result {ℓ} (A : Type ℓ) : Type ℓ where
  ok : A → Result A
  err : Error → Result A

abbrev pub Exec : Type 0 → Type 0
Exec A = Database → Result (A × Database)

infixl 5 ◌>>=◌ ◌>>◌
abbrev pub ◌>>=◌ : {A B : Type 0} → Exec A → (A → Exec B) → Exec B
◌>>=◌ m f d = elim (m d) [ ok r ↦ f r.0 r.1 | err e ↦ err e ]

abbrev pub ◌>>◌ : {A B : Type 0} → Exec A → Exec B → Exec B
m >> k = m >>= λ _. k

module _ {A : Type 0} where
  abbrev pub pure : A → Exec A
  pure a d = ok (a, d)

  abbrev pub raise : Error → Exec A
  raise e d = err e

  abbrev pub gets : (Database → A) → Exec A
  gets f d = ok (f d, d)

  -- `if x is None: raise e`
  abbrev pub or_raise : Option A → Error → Exec A
  or_raise none e d = err e
  or_raise (some a) e d = ok (a, d)

abbrev pub modify : (Database → Database) → Exec (Unit {0})
modify f d = ok (tt, f d)

-- `if c: raise e`
abbrev pub raise_if : Bool → Error → Exec (Unit {0})
raise_if true e d = err e
raise_if false e d = ok (tt, d)

-- How a call ended.
pub Result-cases :
    {A : Type 0} (r : Result (A × Database))
    → ((a : A) × (d : Database) × (r ≡ ok (a, d))) ⊎ ((e : Error) × (r ≡ err e))
Result-cases (ok (a, d)) = inl (a, d, refl)
Result-cases (err e) = inr (e, refl)

-- A bind that succeeds has succeeded in both parts.
pub >>=-eq-ok :
    {A B : Type 0} (m : Exec A) (f : A → Exec B) (d : Database) {b : B} {d' : Database}
    → (m >>= f) d ≡ ok (b, d')
    → (a : A) × (e : Database) × (m d ≡ ok (a, e)) × (f a e ≡ ok (b, d'))
>>=-eq-ok m f d h = elim (Result-cases (m d)) [
  | inl (a, e, q) ↦ (a, e, q, (rw (q, ◌>>=◌) at h))
  | inr (x, q) ↦ cc (rw (q, ◌>>=◌) at h)
]

-- A guard that lets a call go on was false.
pub raise_if-eq-ok :
    {B : Type 0} (c : Bool) (x : Error) (k : Exec B) (d : Database) {b : B} {d' : Database}
    → (raise_if c x >> k) d ≡ ok (b, d')
    → (c ≡ false) × (k d ≡ ok (b, d'))
raise_if-eq-ok true x k d h = cc
raise_if-eq-ok false x k d h = (refl, h)

-- The session after a call: committed, or rolled back.
abbrev pub committed : {A : Type 0} → Exec A → Database → Database
committed m d = elim (m d) [ ok r ↦ r.1 | err e ↦ d ]

-- What a call keeps when it succeeds, its commit or its rollback keeps.
pub committed_lem :
    {A : Type 0} (P : Database → Type 0) (m : Exec A) (d : Database)
    → P d
    → ((a : A) (e : Database) → m d ≡ ok (a, e) → P e)
    → P (committed m d)
committed_lem P m d same step = elim (Result-cases (m d)) [
  | inl (a, e, q) ↦ subst P (ground (arith, q)) (step a e q)
  | inr (x, q) ↦ subst P (ground (arith, q)) same
]
