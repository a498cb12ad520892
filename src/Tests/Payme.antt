-- ===== src/Tests/Payme.antt =====
-- The theorems on Payme, at a call that performs a pending transaction and one that creates one.
use kans_shop.Prelude.{◌≡◌, refl, Option, none, some, [], ◌∷◌, Text}
use kans_shop.Enums.{PaymentMethod, PaymentProvider}
use kans_shop.Models.{Database, PaymeParams, Value}
use kans_shop.Exec.{committed}
use kans_shop.Prelude.{codes}
use kans_shop.Prelude.Int.{pos}
use kans_shop.Tests.{gateway, runs, pending, shop_with, answer_of}
use kans_shop.Payment.Kept.{Kept, done, failed}
use kans_shop.Payment.PaymeRequest.{PaymeResult, RpcResponse, allow, method_not_found}
use kans_shop.Payment.Payme.{payme_handle_rpc, create_transaction, perform_transaction}
use kans_shop.Payment.Payme.Create.{create_twice}
use kans_shop.Payment.Payme.Safety.{rpc-Reply, Reply}
use kans_shop.Payment.Payme.Again.{perform_twice}
use kans_shop.Prelude.{◌++◌}

abbrev payme_shop : Database
payme_shop = shop_with PaymentMethod.payme (pending PaymentProvider.payme ∷ [])

abbrev credentials : Text → Option Text
credentials t = some (codes "Paycom:" ++ (65 ∷ []))

abbrev header : Option Text
header = some (codes "Basic x")

abbrev payment : PaymeParams
payment = record {
  id = some (57 ∷ []);
  order_id = none;
  amount = none;
  reason = none;
  own_perform_time = none;
  own_cancel_time = none;
  own_cancel_reason = none;
  rest = [];
}

abbrev state_of : {A : Type 0} → Kept A → Database
state_of r = elim r [ done x ↦ x.1 | failed x e ↦ e ]

abbrev result_of : PaymeResult → Kept PaymeResult → PaymeResult
result_of r kept = elim kept [ done x ↦ x.0 | failed x e ↦ r ]

abbrev performed_shop : Database
performed_shop = state_of (perform_transaction gateway credentials header 9 payment payme_shop)

abbrev performed_answer : PaymeResult
performed_answer =
    result_of allow (perform_transaction gateway credentials header 9 payment payme_shop)

performed_ok :
    perform_transaction gateway credentials header 9 payment payme_shop
    ≡ done (performed_answer, performed_shop)
unfolding runs
performed_ok = refl

perform_twice_example :
    perform_transaction gateway credentials header 20 payment performed_shop
    ≡ done (performed_answer, performed_shop)
unfolding runs
perform_twice_example =
    perform_twice gateway credentials header payment 9 20 payme_shop performed_shop
      (pending PaymentProvider.payme) performed_answer (refl, tt) refl refl refl performed_ok

abbrev asked : Option Text
asked = some (codes "PerformTransaction")

abbrev rpc_shop : Database
rpc_shop = committed (payme_handle_rpc gateway credentials header 9 asked payment) payme_shop

abbrev rpc_answer : RpcResponse
rpc_answer =
    answer_of method_not_found
      (payme_handle_rpc gateway credentials header 9 asked payment payme_shop)

rpc-Reply_example : Reply gateway credentials header payme_shop rpc_shop rpc_answer
unfolding runs
rpc-Reply_example =
    rpc-Reply gateway credentials header 9 asked payment payme_shop rpc_shop rpc_answer refl

-- The order's total is 10 soum, which is 1000 tiyin.
abbrev request : PaymeParams
request = record payment {
  order_id = some (Value.integer (pos 1));
  amount = some (Value.integer (pos 1000));
}

abbrev open_shop : Database
open_shop = shop_with PaymentMethod.payme []

abbrev opened_shop : Database
opened_shop = state_of (create_transaction gateway credentials header 9 request open_shop)

abbrev opened_answer : PaymeResult
opened_answer = result_of allow (create_transaction gateway credentials header 9 request open_shop)

create_twice_example :
    create_transaction gateway credentials header 20 request opened_shop
    ≡ done (opened_answer, opened_shop)
unfolding runs create_transaction kans_shop.Payment.Payme.create_new
    kans_shop.Payment.PaymeRequest.payme_get_order kans_shop.Values.int_of
    kans_shop.Values.decimal_of kans_shop.Prelude.Decimal.eq_units
create_twice_example =
    create_twice gateway credentials header request 9 20 open_shop opened_shop opened_answer refl
      refl
