-- ===== src/Payment/Kept.antt =====
-- A part of a call whose exceptions are caught inside the transaction, as `payme_handle_rpc` of
-- backend/app/services/payment_service.py catches those of its handlers: nothing is rolled back
-- there, so a raise keeps the database as it stands.
use kans_shop.Prelude.{◌≡◌, refl, ◌⊎◌, inl, inr, Bool, true, false, Option, none, some}
use kans_shop.Models.{Database}
use kans_shop.Exec.{Exec, Error, ok, err}

pub data Kept (A : Type 0) : Type 0 where
  done : A × Database → Kept A
  failed : Error → Database → Kept A

abbrev pub Attempt : Type 0 → Type 0
Attempt A = Database → Kept A

infixl 5 ◌>>=◌ ◌>>◌
abbrev pub ◌>>=◌ : {A B : Type 0} → Attempt A → (A → Attempt B) → Attempt B
◌>>=◌ m f d = elim (m d) [ done r ↦ f r.0 r.1 | failed x e ↦ failed x e ]

abbrev pub ◌>>◌ : {A B : Type 0} → Attempt A → Attempt B → Attempt B
m >> k = m >>= λ _. k

module _ {A : Type 0} where
  abbrev pub pure : A → Attempt A
  pure a d = done (a, d)

  abbrev pub raise : Error → Attempt A
  raise x d = failed x d

  -- `if x is None: raise e`
  abbrev pub or_raise : Option A → Error → Attempt A
  or_raise none x d = failed x d
  or_raise (some a) x d = done (a, d)

  -- A call of a repository or of another service, with the database before it where it raises.
  abbrev pub lift : Exec A → Attempt A
  lift m d = elim (m d) [ ok r ↦ done r | err x ↦ failed x d ]

-- `if c: raise e`
abbrev pub raise_if : Bool → Error → Attempt (Unit {0})
raise_if true x d = failed x d
raise_if false x d = done (tt, d)

-- How an attempt ended.
pub Kept-cases :
    {A : Type 0} (r : Kept A)
    → ((a : A) × (d : Database) × (r ≡ done (a, d)))
      ⊎ ((x : Error) × (d : Database) × (r ≡ failed x d))
Kept-cases (done (a, d)) = inl (a, d, refl)
Kept-cases (failed x d) = inr (x, d, refl)
