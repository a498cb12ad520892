-- ===== src/Payment/Payme/Outcome.antt =====
-- What a Payme call has found when it returns (backend/app/services/payment_service.py).
use kans_shop.Prelude.{◌≡◌, true, Option, some, Text, arith, find_by, Option-cases, inl, inr}
use kans_shop.Enums.{PaymentProvider}
use kans_shop.Models.{PaymeParams, Database, Order, PaymentTransaction}
use kans_shop.Repositories.{is_provider_tx}
use kans_shop.Order.Status.{order_of}
use kans_shop.Payment.Kept.{done}
use kans_shop.Payment.{Settings}
use kans_shop.Payment.PaymeRequest.{payme_assert_association, payme_id, is_payme}
use kans_shop.Payment.Payme.{lock_associated, verify_payme_auth}

abbrev pub named_tx : PaymeParams → Database → Option PaymentTransaction
named_tx p d = find_by (is_provider_tx PaymentProvider.payme (payme_id p)) d.transactions.rows

module _ (settings : Settings) (b64decode : Text → Option Text) where
  -- A transaction and its order, locked and checked against one another.
  pub record Associated (header : Option Text) (p : PaymeParams) (d e : Database)
      (t : PaymentTransaction) (o : Order) : Type 0 where
    pub same : e ≡ d
    pub found : named_tx p d ≡ some t
    pub order : order_of d t.order_id ≡ some o
    pub same_order : t.order_id ≡ o.id
    pub authentic : verify_payme_auth settings b64decode header ≡ true
    pub method : is_payme o.payment_method ≡ true
    pub amount : t.amount ≡ o.total

  pub lock_inv :
      (header : Option Text) (p : PaymeParams) (d e : Database) (r : PaymentTransaction × Order)
      → lock_associated settings b64decode header p d ≡ done (r, e)
      → Associated header p d e r.0 r.1
  unfolding lock_associated payme_assert_association
  lock_inv header p d e r h = elim (Option-cases (named_tx p d)) [
    | inl unknown ↦ absurd (ground arith)
    | inr (t, ft) ↦ elim (Option-cases (order_of d t.order_id)) [
      | inl gone ↦ absurd (ground arith)
      | inr (o, fo) ↦ record {
        same = ground arith;
        found = ground arith;
        order = ground arith;
        same_order = ground arith;
        authentic = ground arith;
        method = ground arith;
        amount = ground arith;
      }
    ]
  ]
