-- ===== src/Enums.antt =====
-- backend/app/db/models/enums.py: the enumerations that the database stores.
use kans_shop.Prelude.{Bool, true, false, ◌≡◌, arith, ◌↔◌}

pub data AdminRole : Type 0 where
  superadmin manager operator : AdminRole

pub data OrderType : Type 0 where
  delivery pickup preorder : OrderType

pub data OrderStatus : Type 0 where
  new confirmed preparing delivering completed cancelled : OrderStatus

pub data PaymentMethod : Type 0 where
  cash card_transfer click payme paynet tender : PaymentMethod

pub data PaymentStatus : Type 0 where
  pending receipt_uploaded paid failed : PaymentStatus

pub data PaymentProvider : Type 0 where
  click payme paynet : PaymentProvider

pub data PaymentTxState : Type 0 where
  created pending paid cancelled failed : PaymentTxState

pub data NotificationOutboxStatus : Type 0 where
  pending sending sent failed : NotificationOutboxStatus

-- `==` on each enumeration that the code compares.
pub data ProductUnit : Type 0 where
  dona quti paket komplekt : ProductUnit

abbrev pub unit_eq : ProductUnit → ProductUnit → Bool
unit_eq dona dona = true
unit_eq quti quti = true
unit_eq paket paket = true
unit_eq komplekt komplekt = true
unit_eq _ _ = false

abbrev pub status_eq : OrderStatus → OrderStatus → Bool
status_eq new new = true
status_eq confirmed confirmed = true
status_eq preparing preparing = true
status_eq delivering delivering = true
status_eq completed completed = true
status_eq cancelled cancelled = true
status_eq _ _ = false

abbrev pub type_eq : OrderType → OrderType → Bool
type_eq delivery delivery = true
type_eq pickup pickup = true
type_eq preorder preorder = true
type_eq _ _ = false

abbrev pub method_eq : PaymentMethod → PaymentMethod → Bool
method_eq cash cash = true
method_eq card_transfer card_transfer = true
method_eq PaymentMethod.click PaymentMethod.click = true
method_eq PaymentMethod.payme PaymentMethod.payme = true
method_eq PaymentMethod.paynet PaymentMethod.paynet = true
method_eq tender tender = true
method_eq _ _ = false

abbrev pub payment_eq : PaymentStatus → PaymentStatus → Bool
payment_eq PaymentStatus.pending PaymentStatus.pending = true
payment_eq receipt_uploaded receipt_uploaded = true
payment_eq PaymentStatus.paid PaymentStatus.paid = true
payment_eq PaymentStatus.failed PaymentStatus.failed = true
payment_eq _ _ = false

abbrev pub provider_eq : PaymentProvider → PaymentProvider → Bool
provider_eq PaymentProvider.click PaymentProvider.click = true
provider_eq PaymentProvider.payme PaymentProvider.payme = true
provider_eq PaymentProvider.paynet PaymentProvider.paynet = true
provider_eq _ _ = false

abbrev pub tx_state_eq : PaymentTxState → PaymentTxState → Bool
tx_state_eq created created = true
tx_state_eq PaymentTxState.pending PaymentTxState.pending = true
tx_state_eq PaymentTxState.paid PaymentTxState.paid = true
tx_state_eq PaymentTxState.cancelled PaymentTxState.cancelled = true
tx_state_eq PaymentTxState.failed PaymentTxState.failed = true
tx_state_eq _ _ = false

abbrev pub outbox_eq : NotificationOutboxStatus → NotificationOutboxStatus → Bool
outbox_eq NotificationOutboxStatus.pending NotificationOutboxStatus.pending = true
outbox_eq sending sending = true
outbox_eq sent sent = true
outbox_eq NotificationOutboxStatus.failed NotificationOutboxStatus.failed = true
outbox_eq _ _ = false

pub status_eq_iff : (a b : OrderStatus) → (status_eq a b ≡ true) ↔ (a ≡ b)
status_eq_iff a b = ground arith

pub method_eq_iff : (a b : PaymentMethod) → (method_eq a b ≡ true) ↔ (a ≡ b)
method_eq_iff a b = ground arith

-- `PaymentMethod(provider.value)`
abbrev pub method_of : PaymentProvider → PaymentMethod
method_of PaymentProvider.click = PaymentMethod.click
method_of PaymentProvider.payme = PaymentMethod.payme
method_of PaymentProvider.paynet = PaymentMethod.paynet
