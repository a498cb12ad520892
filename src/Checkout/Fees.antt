-- ===== src/Checkout/Fees.antt =====
-- backend/app/services/checkout_quote.py: the settings that an order needs, the delivery fee and
-- the total.
use kans_shop.Prelude.{
  ℕ, ◌+◌, Bool, true, false, ◌&&◌, not, Option, none, some, List, [], ◌∷◌, ◌++◌, if◌then◌else◌,
}
use kans_shop.Prelude.Decimal.{Decimal, nan, infinite, finite, cents_ge, round_cents}
use kans_shop.Enums.{OrderType, delivery, pickup, preorder}
use kans_shop.Models.{SettingKey, is_shop_open}
use kans_shop.Checkout.Settings.{CheckoutSettings, FieldState, is_valid}
use kans_shop.Checkout.Tally.{Reason, setting, shop_closed, reason_if}

-- The settings that an order type needs, with their states.
unfoldable pub required_fields : CheckoutSettings → OrderType → List (SettingKey × FieldState)
required_fields s delivery =
    (SettingKey.delivery_fee, s.fee.state)
    ∷ (SettingKey.free_delivery_from, s.free_from.state)
    ∷ (SettingKey.min_order_amount, s.min_order.state)
    ∷ []
required_fields s pickup = (SettingKey.min_order_amount, s.min_order.state) ∷ []
required_fields s preorder = []

unfoldable pub all_valid : List (SettingKey × FieldState) → Bool
all_valid [] = true
all_valid ((k, s) ∷ rest) = is_valid s && all_valid rest

unfoldable pub field_reasons : List (SettingKey × FieldState) → List Reason
field_reasons [] = []
field_reasons ((k, s) ∷ rest) = reason_if (not (is_valid s)) (setting k s) ++ field_reasons rest

abbrev pub open_reasons : CheckoutSettings → List Reason
open_reasons s = elim s.shop_open.value [
  | none ↦ setting is_shop_open s.shop_open.state ∷ []
  | some b ↦ if b then [] else shop_closed ∷ []
]

abbrev pub is_preorder : OrderType → Bool
is_preorder preorder = true
is_preorder _ = false

-- The minimum that applies; a preorder has none.
abbrev pub min_order_of : CheckoutSettings → OrderType → Option Decimal
min_order_of s type = if is_preorder type then none else s.min_order.value

abbrev pub meets : ℕ → Option Decimal → Bool
meets subtotal none = true
meets subtotal (some m) = cents_ge subtotal m

abbrev pub is_delivery : OrderType → Bool
is_delivery delivery = true
is_delivery _ = false

-- `_round_money`, of an amount that is not negative
unfoldable pub round_money : Decimal → ℕ
round_money nan = 0
round_money (infinite s) = 0
round_money (finite s c p) = round_cents c p

abbrev pub fee_of : ℕ → Option Decimal → Option Decimal → Option ℕ
fee_of subtotal (some fee) (some free) =
    some (if cents_ge subtotal free then 0 else round_money fee)
fee_of subtotal _ _ = none

unfoldable pub delivery_fee_of : CheckoutSettings → OrderType → ℕ → Option ℕ
delivery_fee_of s type subtotal =
    if not (is_delivery type)
    then some 0
    else if is_valid s.fee.state && is_valid s.free_from.state
    then fee_of subtotal s.fee.value s.free_from.value
    else none

abbrev pub total_of : Bool → ℕ → Option ℕ → Option ℕ
total_of true subtotal fee = none
total_of false subtotal none = none
total_of false subtotal (some fee) = some (subtotal + fee)
