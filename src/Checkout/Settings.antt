-- ===== src/Checkout/Settings.antt =====
-- backend/app/services/checkout_settings.py: the strict parse of the stored settings.
use kans_shop.Prelude.{Bool, true, false, Option, none, some, Text, is_empty, if◌then◌else◌}
use kans_shop.Prelude.Decimal.{Decimal, is_finite, is_negative}
use kans_shop.Prelude.Parse.{strip}
use kans_shop.Values.{decimal_of}
use kans_shop.Models.{
  Value, SettingKey, Database, delivery_fee, free_delivery_from, min_order_amount, is_shop_open,
  card_number, card_holder,
}

-- An entry of `field_states`.
pub data FieldState : Type 0 where
  missing null malformed negative valid : FieldState

abbrev pub is_valid : FieldState → Bool
is_valid valid = true
is_valid _ = false

pub record Field (A : Type 0) : Type 0 where
  pub state : FieldState
  pub value : Option A

abbrev bad : {A : Type 0} → FieldState → Field A
bad s = record { state = s; value = none }

abbrev finite_field : Decimal → Field Decimal
finite_field d =
    if is_finite d
    then record { state = if is_negative d then negative else valid; value = some d }
    else bad malformed

abbrev parsed_field : Option Decimal → Field Decimal
parsed_field none = bad malformed
parsed_field (some d) = finite_field d

-- `_decimal_value`: a Boolean, a list and an object have no decimal.
unfoldable pub decimal_value : Option Value → Field Decimal
decimal_value none = bad missing
decimal_value (some Value.null) = bad null
decimal_value (some v) = parsed_field (decimal_of v)

-- `_boolean_value`
unfoldable pub boolean_value : Option Value → Field Bool
boolean_value none = bad missing
boolean_value (some Value.null) = bad null
boolean_value (some (Value.boolean b)) = record { state = valid; value = some b }
boolean_value (some _) = bad malformed

abbrev text_field : Text → Field Text
text_field t = if is_empty t then bad malformed else record { state = valid; value = some t }

-- `_optional_string`
unfoldable pub optional_string : Option Value → Field Text
optional_string none = bad missing
optional_string (some Value.null) = bad null
optional_string (some (Value.text t)) = text_field (strip t)
optional_string (some _) = bad malformed

pub record CheckoutSettings : Type 0 where
  pub fee : Field Decimal
  pub free_from : Field Decimal
  pub min_order : Field Decimal
  pub shop_open : Field Bool
  pub number : Field Text
  pub holder : Field Text

-- `checkout_settings_from_values`
unfoldable pub checkout_settings_from_values : (SettingKey → Option Value) → CheckoutSettings
checkout_settings_from_values values = record {
  fee = decimal_value (values delivery_fee);
  free_from = decimal_value (values free_delivery_from);
  min_order = decimal_value (values min_order_amount);
  shop_open = boolean_value (values is_shop_open);
  number = optional_string (values card_number);
  holder = optional_string (values card_holder);
}

-- `load_checkout_settings`
unfoldable pub load_checkout_settings : Database → CheckoutSettings
load_checkout_settings d = checkout_settings_from_values d.settings
