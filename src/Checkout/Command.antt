-- ===== src/Checkout/Command.antt =====
-- backend/app/bot/utils/helpers.py and `normalize_checkout_command` of
-- backend/app/services/purchase_service.py. The phone's digits are the ASCII ones.
use kans_shop.Prelude.{
  ℕ, ◌*◌, ◌^◌, Bool, true, false, ◌&&◌, ◌||◌, not, Option, none, some, [], ◌∷◌, Text, length,
  select, is_empty, leb, ltb, ◌==◌, is_some, if◌then◌else◌,
}
use kans_shop.Prelude.Decimal.{Decimal, nan, infinite, finite, is_finite}
use kans_shop.Prelude.Parse.{strip}
use kans_shop.Enums.{OrderType, PaymentMethod, delivery}
use kans_shop.Models.{Contact}
use kans_shop.Exec.{Result, ok, err, checkout_validation}

pub record CheckoutCommand : Type 0 where
  pub order_type : OrderType
  pub payment_method : PaymentMethod
  pub contact : Contact

pub is_phone_char : ℕ → Bool
is_phone_char c = (leb b'0' c && leb c b'9') || c == b'+'

pub starts_with_plus : Text → Bool
starts_with_plus [] = false
starts_with_plus (c ∷ s) = c == b'+'

-- The country code is put before a local number of nine digits.
pub with_country : Text → Text
with_country digits = b'+' ∷ (if length digits == 9 then b'9' ∷ b'9' ∷ b'8' ∷ digits else digits)

unfoldable pub normalize_uz_phone : Text → Text
unfolding with_country starts_with_plus is_phone_char
normalize_uz_phone raw =
    let digits = select is_phone_char (strip raw) in
    if starts_with_plus digits then digits else with_country digits

-- `(90|91|93|94|95|97|98|99|33|88|77|71)`
is_operator : ℕ → ℕ → Bool
is_operator a b =
    (a == b'9'
      && (b == b'0'
          || (b == b'1'
              || (b == b'3'
                  || (b == b'4' || (b == b'5' || (b == b'7' || (b == b'8' || b == b'9'))))))))
    || ((a == b'3' && b == b'3')
        || ((a == b'8' && b == b'8') || (a == b'7' && (b == b'7' || b == b'1'))))

all_digits : Text → Bool
all_digits [] = true
all_digits (c ∷ s) = (leb b'0' c && leb c b'9') && all_digits s

unfoldable pub matches_uz_phone : Text → Bool
unfolding is_operator all_digits
matches_uz_phone (p ∷ a ∷ b ∷ c ∷ x ∷ y ∷ rest) =
    (p == b'+' && (a == b'9' && (b == b'9' && c == b'8')))
    && (is_operator x y && (length rest == 7 && all_digits rest))
matches_uz_phone _ = false

unfoldable pub is_valid_uz_phone : Text → Bool
is_valid_uz_phone raw = matches_uz_phone (normalize_uz_phone raw)

-- `s.strip() or None`, where `s` may be `None`
abbrev non_empty : Text → Option Text
non_empty [] = none
non_empty (c ∷ s) = some (c ∷ s)

unfoldable pub stripped : Option Text → Option Text
stripped none = none
stripped (some s) = non_empty (strip s)

-- `Decimal("-n") <= d <= Decimal("n")`
abbrev within : ℕ → Decimal → Bool
within n nan = false
within n (infinite s) = false
within n (finite s c p) = leb c (n * 10 ^ p)

-- Both coordinates or none; finite and on the globe.
unfoldable pub check_coordinates : Option Decimal → Option Decimal → Bool
check_coordinates none none = true
check_coordinates (some a) (some b) = (is_finite a && is_finite b) && (within 90 a && within 180 b)
check_coordinates _ _ = false

abbrev pub is_delivery : OrderType → Bool
is_delivery delivery = true
is_delivery _ = false

abbrev pub place : Contact → Text → Text → Contact
place c name phone = record {
  customer_name = name;
  customer_phone = phone;
  address = stripped c.address;
  address_comment = stripped c.address_comment;
  latitude = c.latitude;
  longitude = c.longitude;
  comment = stripped c.comment;
}

abbrev pub no_place : Contact → Text → Text → Contact
no_place c name phone = record {
  customer_name = name;
  customer_phone = phone;
  address = none;
  address_comment = none;
  latitude = none;
  longitude = none;
  comment = stripped c.comment;
}

abbrev is_bad_name : Text → Bool
is_bad_name name = is_empty name || ltb 128 (length name)

-- An address or coordinates are needed for a delivery.
abbrev is_unplaced : Contact → Bool
is_unplaced c =
    not (is_some (stripped c.address)) && not (is_some c.latitude && is_some c.longitude)

unfoldable pub normalize_checkout_command : CheckoutCommand → Result CheckoutCommand
normalize_checkout_command command =
    let c = command.contact in
    let name = strip c.customer_name in
    let phone = normalize_uz_phone c.customer_phone in
    if is_bad_name name
    then err checkout_validation
    else if not (is_valid_uz_phone phone)
    then err checkout_validation
    else if not (check_coordinates c.latitude c.longitude)
    then err checkout_validation
    else if is_delivery command.order_type
    then (if is_unplaced c
        then err checkout_validation
        else ok (record command { contact = place c name phone }))
    else ok (record command { contact = no_place c name phone })
