-- ===== src/Checkout/Request.antt =====
-- What the fingerprint of a checkout is made from, and the notifications of a new order
-- (backend/app/services/purchase_service.py).
use kans_shop.Prelude.{
  ℕ, zero, suc, ◌+◌, ◌*◌, ◌/◌, ◌%◌, ◌^◌, Bool, false, ◌&&◌, Option, none, some, List, [], ◌∷◌, Text,
  ltb, ◌==◌, sort_by, select, if◌then◌else◌,
}
use kans_shop.Prelude.Decimal.{Decimal, nan, infinite, finite}
use kans_shop.Models.{Order, Admin, EventType, order_created}
use kans_shop.Exec.{Exec, pure, ◌>>◌}
use kans_shop.Outbox.{enqueue_outbox_event, to_admin}
use kans_shop.Checkout.Command.{CheckoutCommand}

pub record CheckoutResult : Type 0 where
  pub order : Order
  pub created : Bool

-- `enqueue_order_created_notifications`
abbrev pub is_notified : Admin → Bool
is_notified a = a.is_active && a.notifications_enabled

unfoldable pub enqueue_created : ℕ → List Admin → Exec (Unit {0})
enqueue_created order [] = pure tt
enqueue_created order (a ∷ rest) =
    let later = enqueue_created order rest in
    do
      enqueue_outbox_event EventType.created order none (to_admin a.id) (order_created order a.id)
      later

unfoldable pub enqueue_order_created_notifications : ℕ → Exec (Unit {0})
unfolding enqueue_created
enqueue_order_created_notifications order d =
    enqueue_created order (sort_by (λ a. a.id) (select is_notified d.admins.rows)) d

-- `_decimal_string`: without trailing zeros
pub strip_zeros : ℕ → ℕ → ℕ × ℕ
strip_zeros c zero = (c, zero)
strip_zeros c (suc p) =
    let shorter = strip_zeros (c / 10) p in if c % 10 == 0 then shorter else (c, suc p)

pub decimal_string : Decimal → Decimal
unfolding strip_zeros
decimal_string nan = nan
decimal_string (infinite s) = infinite s
decimal_string (finite s c p) =
    let (e, q) = strip_zeros c p in if e == 0 then finite false 0 0 else finite s e q

pub optional_string : Option Decimal → Option Decimal
unfolding decimal_string
optional_string none = none
optional_string (some d) = some (decimal_string d)

-- `f"{amount:.2f}"`, which rounds half to even
pub half_even : ℕ → ℕ → ℕ
half_even c p =
    let q = c * 100 / 10 ^ p in
    let r = 2 * (c * 100 % 10 ^ p) in
    if ltb r (10 ^ p) then q else if ltb (10 ^ p) r then q + 1 else if q % 2 == 0 then q else q + 1

pub money_string : Option Decimal → Option Decimal
unfolding half_even
money_string none = none
money_string (some nan) = some nan
money_string (some (infinite s)) = some (infinite s)
money_string (some (finite s c p)) = some (finite s (half_even c p) 2)

pub record RequestContent : Type 0 where
  pub command : CheckoutCommand
  pub expected_quote : Option Text
  pub expected_total : Option Decimal

abbrev pub printed : CheckoutCommand → CheckoutCommand
printed c = record c {
  contact = record (c.contact) {
    latitude = optional_string (c.contact.latitude);
    longitude = optional_string (c.contact.longitude);
  };
}

unfoldable pub request_content : CheckoutCommand → Option Text → Option Decimal → RequestContent
unfolding optional_string money_string
request_content c quote total = record {
  command = printed c;
  expected_quote = quote;
  expected_total = money_string total;
}
