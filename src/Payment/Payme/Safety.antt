-- ===== src/Payment/Payme/Safety.antt =====
-- What the Payme handlers of backend/app/services/payment_service.py promise.
use kans_shop.Prelude.{
  ℕ, ◌≡◌, refl, Bool, true, false, ◌&&◌, not, Option, none, some, Text, arith, is_some,
  Option-cases, Bool-cases, inl, inr,
}
use kans_shop.Models.{PaymeParams, Database, PaymentTransaction}
use kans_shop.Exec.{ok, payme_rpc, order_not_found}
use kans_shop.Order.Status.{order_of}
use kans_shop.Payment.Kept.{done, Kept-cases}
use kans_shop.Payment.{Settings}
use kans_shop.Payment.PaymeRequest.{
  PaymeResult, PaymeMethod, RpcResponse, answered, method_named, payme_get_order,
}
use kans_shop.Payment.Payme.{
  payme_handle_rpc, dispatch, answer, handle_method, verify_payme_auth, check_perform_transaction,
  create_transaction, create_new, create_again, perform_transaction, cancel_transaction,
  check_transaction, lock_associated,
}
use kans_shop.Payment.Payme.Clean.{dispatch_clean}
use kans_shop.Payment.Payme.Outcome.{named_tx, lock_inv}

abbrev pub is_answered : RpcResponse → Bool
is_answered (answered r) = true
is_answered _ = false

module _ (settings : Settings) (b64decode : Text → Option Text) (header : Option Text) where
  abbrev pub IsKnown : Type 0
  IsKnown = verify_payme_auth settings b64decode header ≡ true

  allow-authentic :
      (p : PaymeParams) (d e : Database) (r : PaymeResult)
      → check_perform_transaction settings b64decode header p d ≡ done (r, e)
      → IsKnown
  unfolding check_perform_transaction
  allow-authentic p d e r h = elim (Bool-cases (verify_payme_auth settings b64decode header)) [
    | inl known ↦ known
    | inr forged ↦ elim (Kept-cases (payme_get_order p d)) [
      | inr (x, g, q) ↦ absurd (ground (arith, q, h))
      | inl (o, f, q) ↦ absurd (ground (arith, q, forged, h))
    ]
  ]

  new-authentic :
      (now : ℕ) (p : PaymeParams) (d e : Database) (r : PaymeResult)
      → create_new settings b64decode header now p d ≡ done (r, e)
      → IsKnown
  unfolding create_new
  new-authentic now p d e r h = elim (Bool-cases (verify_payme_auth settings b64decode header)) [
    | inl known ↦ known
    | inr forged ↦ elim (Kept-cases (payme_get_order p d)) [
      | inr (x, g, q) ↦ absurd (ground (arith, q, h))
      | inl (o, f, q) ↦ elim (Option-cases (order_of f o.id)) [
        | inl gone ↦ absurd (ground (arith, q, gone, h))
        | inr (u, found) ↦ absurd (ground (arith, q, found, forged, h))
      ]
    ]
  ]

  again-authentic :
      (p : PaymeParams) (t : PaymentTransaction) (d e : Database) (r : PaymeResult)
      → create_again settings b64decode header p t d ≡ done (r, e)
      → IsKnown
  unfolding create_again
  again-authentic p t d e r h = elim (Bool-cases (verify_payme_auth settings b64decode header)) [
    | inl known ↦ known
    | inr forged ↦ elim (Option-cases (order_of d t.order_id)) [
      | inl gone ↦ absurd (ground (arith, gone, h))
      | inr (o, found) ↦ absurd (ground (arith, found, forged, h))
    ]
  ]

  dispatch-authentic :
      (now : ℕ) (m : PaymeMethod) (p : PaymeParams) (d e : Database) (r : PaymeResult)
      → dispatch settings b64decode m header now p d ≡ done (r, e)
      → IsKnown
  unfolding dispatch create_transaction perform_transaction cancel_transaction check_transaction
  dispatch-authentic now PaymeMethod.check_perform p d e r h = allow-authentic p d e r h
  dispatch-authentic now PaymeMethod.create p d e r h = elim (Option-cases (named_tx p d)) [
    | inl unknown ↦ new-authentic now p d e r (ground (arith, unknown, h))
    | inr (t, found) ↦ again-authentic p t d e r (ground (arith, found, h))
  ]
  dispatch-authentic now PaymeMethod.perform p d e r h =
      elim (Kept-cases (lock_associated settings b64decode header p d)) [
        | inr (x, g, q) ↦ absurd (ground (arith, q, h))
        | inl (l, f, q) ↦ (lock_inv settings b64decode header p d f l q).authentic
      ]
  dispatch-authentic now PaymeMethod.cancel p d e r h =
      elim (Kept-cases (lock_associated settings b64decode header p d)) [
        | inr (x, g, q) ↦ absurd (ground (arith, q, h))
        | inl (l, f, q) ↦ (lock_inv settings b64decode header p d f l q).authentic
      ]
  dispatch-authentic now PaymeMethod.check p d e r h =
      elim (Bool-cases (verify_payme_auth settings b64decode header)) [
        | inl known ↦ known
        | inr forged ↦ absurd (ground (arith, forged, h))
      ]

  -- How a call ends: answered to the merchant's gateway, or without effect.
  pub data Reply (d e : Database) (r : RpcResponse) : Type 0 where
    served : is_answered r ≡ true → IsKnown → Reply d e r
    unserved : is_answered r ≡ false → e ≡ d → Reply d e r

  method-Reply :
      (now : ℕ) (m : PaymeMethod) (p : PaymeParams) (d e : Database) (r : RpcResponse)
      → answer settings b64decode (dispatch settings b64decode m header now p d) ≡ ok (r, e)
      → Reply d e r
  method-Reply now m p d e r h = elim (Kept-cases (dispatch settings b64decode m header now p d)) [
    | inl (x, f, q) ↦ served (ground (arith, q, h)) (dispatch-authentic now m p d f x q)
    | inr (payme_rpc x, g, q) ↦
        let same = dispatch_clean settings b64decode header p now m d g (payme_rpc x) q refl in
        unserved (ground (arith, q, h)) (ground (arith, q, h, same))
    | inr (order_not_found k, g, q) ↦
        let same =
          dispatch_clean settings b64decode header p now m d g (order_not_found k) q refl in
        unserved (ground (arith, q, h)) (ground (arith, q, h, same))
    | inr (x, g, q) ↦ absurd (ground (arith, q, h))
  ]

  handle-Reply :
      (now : ℕ) (m : Option PaymeMethod) (p : PaymeParams) (d e : Database) (r : RpcResponse)
      → handle_method settings b64decode m header now p d ≡ ok (r, e)
      → Reply d e r
  handle-Reply now none p d e r h = unserved (ground (arith, h)) (ground (arith, h))
  handle-Reply now (some m) p d e r h =
      elim (Bool-cases (is_some header && not (verify_payme_auth settings b64decode header))) [
        | inl forged ↦ unserved (ground (arith, forged, h)) (ground (arith, forged, h))
        | inr well ↦ method-Reply now m p d e r (ground (arith, well, h))
      ]

  -- A call of Payme that returns is answered with a result only if it carried the merchant's
  -- credentials; with any other answer the database is as it was.
  pub rpc-Reply :
      (now : ℕ) (method : Option Text) (p : PaymeParams) (d e : Database) (r : RpcResponse)
      → payme_handle_rpc settings b64decode header now method p d ≡ ok (r, e)
      → Reply d e r
  unfolding payme_handle_rpc
  rpc-Reply now none p d e r h = handle-Reply now none p d e r h
  rpc-Reply now (some m) p d e r h = handle-Reply now (method_named m) p d e r h
