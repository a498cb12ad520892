-- ===== src/Models.antt =====
-- backend/app/db/models: the rows that the services read and write, and the database as a record
-- of tables. Money is Numeric(12, 2) and is kept in cents; a time is a number of milliseconds, and
-- `clock` is the time of the database server (`now()`).
use kans_shop.Prelude.{ℕ, Bool, Option, none, List, Table, Text}
use kans_shop.Prelude.Int.{ℤ}
use kans_shop.Prelude.Decimal.{Decimal}
use kans_shop.Enums.{
  AdminRole, OrderType, OrderStatus, PaymentMethod, PaymentStatus, PaymentProvider, PaymentTxState,
  NotificationOutboxStatus, ProductUnit,
}

-- A value of a JSON document; `other` is a list or an object, by a text of its contents that is the
-- same for equal ones.
pub data Value : Type 0 where
  null : Value
  other : Text → Value
  boolean : Bool → Value
  integer : ℤ → Value
  fraction : Decimal → Value
  text : Text → Value

-- The keys of the `settings` table.
pub data SettingKey : Type 0 where
  delivery_fee free_delivery_from min_order_amount work_hours card_number card_holder : SettingKey
  support_username shop_phone is_shop_open stock_tracking_enabled : SettingKey
  welcome_text_uz welcome_text_ru : SettingKey

pub record User : Type 0 where
  pub id : ℕ
  pub telegram_id : ℕ
  pub language : Text
  pub is_blocked : Bool

pub record Admin : Type 0 where
  pub id : ℕ
  pub telegram_id : ℕ
  pub full_name : Text
  pub role : AdminRole
  pub is_active : Bool
  pub notifications_enabled : Bool
  pub auth_epoch : ℕ

pub record AdminSession : Type 0 where
  pub id : ℕ
  pub admin_id : ℕ
  pub token_hash : Text
  pub csrf_token : Text
  pub auth_epoch : ℕ
  pub idle_expires_at : ℕ
  pub absolute_expires_at : ℕ
  pub revoked_at : Option ℕ

pub record Category : Type 0 where
  pub id : ℕ
  pub parent_id : Option ℕ
  pub name_uz : Text
  pub name_ru : Text
  pub slug : Text
  pub description_uz : Option Text
  pub description_ru : Option Text
  pub image_url : Option Text
  pub image_file_id : Option Text
  pub sort_order : ℤ
  pub edit_version : ℕ
  pub is_active : Bool
  pub products_count : ℕ

pub record Product : Type 0 where
  pub id : ℕ
  pub category_id : ℕ
  pub name_uz : Text
  pub name_ru : Text
  pub description_uz : Option Text
  pub description_ru : Option Text
  pub sku : Text
  pub barcode : Option Text
  pub price : ℕ
  pub old_price : Option ℕ
  pub unit : ProductUnit
  pub is_featured : Bool
  pub sort_order : ℤ
  pub stock_qty : ℤ
  pub min_order_qty : ℕ
  pub is_active : Bool
  pub lot_url : Option Text
  pub edit_version : ℕ
  pub sold_count : ℤ

pub record CartItem : Type 0 where
  pub product_id : ℕ
  pub quantity : ℕ
  pub price_snapshot : ℕ

pub record Cart : Type 0 where
  pub id : ℕ
  pub user_id : ℕ
  pub is_active : Bool
  pub items : List CartItem

pub record CartMutation : Type 0 where
  pub id : ℕ
  pub user_id : ℕ
  pub mutation_key : ℕ
  pub request_fingerprint : Text

-- The columns that say who ordered and where to.
pub record Contact : Type 0 where
  pub customer_name : Text
  pub customer_phone : Text
  pub address : Option Text
  pub address_comment : Option Text
  pub latitude : Option Decimal
  pub longitude : Option Decimal
  pub comment : Option Text

pub record CardInstructions : Type 0 where
  pub card_number : Text
  pub card_holder : Text

pub record OrderItem : Type 0 where
  pub product_id : Option ℕ
  pub product_name_snapshot : Text
  pub product_sku_snapshot : Text
  pub price : ℕ
  pub quantity : ℕ
  pub total : ℕ

pub record Order : Type 0 where
  pub id : ℕ
  pub order_number : Text
  pub user_id : ℕ
  pub order_type : OrderType
  pub status : OrderStatus
  pub contact : Contact
  pub subtotal : ℕ
  pub delivery_fee : ℕ
  pub discount : ℕ
  pub total : ℕ
  pub payment_method : PaymentMethod
  pub payment_status : PaymentStatus
  pub receipt_file_id : Option Text
  pub receipt_url : Option Text
  pub checkout_key : Option ℕ
  pub checkout_fingerprint : Option Text
  pub payment_instructions : Option CardInstructions
  pub stock_deducted : Bool
  pub receipt_storage_key : Option Text
  pub receipt_content_type : Option Text
  pub receipt_version : ℕ
  pub payment_reviewed_by_admin_id : Option ℕ
  pub payment_reviewed_at : Option ℕ
  pub processed_by_admin_id : Option ℕ
  pub confirmed_at : Option ℕ
  pub completed_at : Option ℕ
  pub cancelled_at : Option ℕ
  pub cancel_reason : Option Text
  pub admin_message_ids : List (ℕ × ℕ)
  pub source : Text
  pub items : List OrderItem

pub record OrderStatusHistory : Type 0 where
  pub id : ℕ
  pub order_id : ℕ
  pub from_status : Option OrderStatus
  pub to_status : OrderStatus
  pub changed_by_admin_id : Option ℕ
  pub comment : Option Text

-- The form that Click posts; `rest` holds the fields that no code reads.
pub record ClickParams : Type 0 where
  pub click_trans_id : Option Text
  pub merchant_trans_id : Option Text
  pub merchant_prepare_id : Option Text
  pub amount : Option Text
  pub sign_time : Option Text
  pub sign_string : Option Text
  pub error : Option Text
  pub rest : Text

-- The `params` object of a Payme call; `id` as `str` prints it, and the `order_id` of its `account`
-- object. The three `own_` fields are keys that the service keeps under the same name in the payload
-- (`_payme_perform_time`, `_payme_cancel_time`, `_payme_cancel_reason`), should a call send them.
-- `rest` holds the fields that no code reads.
pub record PaymeParams : Type 0 where
  pub id : Option Text
  pub order_id : Option Value
  pub amount : Option Value
  pub reason : Option Value
  pub own_perform_time : Option Value
  pub own_cancel_time : Option Value
  pub own_cancel_reason : Option Value
  pub rest : Text

pub data PaymeState : Type 0 where
  created completed cancelled cancelled_after_complete : PaymeState

-- The keys that the services read back out of `raw_payload`.
pub record RawPayload : Type 0 where
  pub click_prepare_payload : Option ClickParams
  pub click_complete_payload : Option ClickParams
  pub payme_create_request : Option PaymeParams
  pub payme_perform_request : Option PaymeParams
  pub payme_order_id : Option ℕ
  pub payme_state : Option PaymeState
  pub payme_perform_time : Option Value
  pub payme_cancel_time : Option Value
  pub payme_cancel_reason : Option Value

abbrev pub empty_payload : RawPayload
empty_payload = record {
  click_prepare_payload = none;
  click_complete_payload = none;
  payme_create_request = none;
  payme_perform_request = none;
  payme_order_id = none;
  payme_state = none;
  payme_perform_time = none;
  payme_cancel_time = none;
  payme_cancel_reason = none;
}

pub record PaymentTransaction : Type 0 where
  pub id : ℕ
  pub order_id : ℕ
  pub provider : PaymentProvider
  pub provider_transaction_id : Text
  pub state : PaymentTxState
  pub amount : ℕ
  pub raw_payload : RawPayload
  pub created_at : ℕ

-- The texts that `dedupe_key` is built from, by the parts that vary.
pub data DedupeKey : Type 0 where
  order_created : ℕ → ℕ → DedupeKey
  status_user status_admin : ℕ → ℕ → DedupeKey
  gateway_user gateway_admin : ℕ → ℕ → DedupeKey
  manual_user manual_admin : ℕ → ℕ → DedupeKey
  store_settings : ℕ → ℕ → DedupeKey
  order_message : ℕ → DedupeKey
  admin_team : ℕ → ℕ → DedupeKey

pub data EventType : Type 0 where
  created status_changed card_status_updated : EventType
  gateway_confirmed card_gateway_updated : EventType
  manual_accepted card_manual_updated : EventType
  settings_updated message_queued : EventType
  team_changed source_created source_updated deploy : EventType
  unlisted : Text → EventType

pub record NotificationOutbox : Type 0 where
  pub id : ℕ
  pub recipient_user_id : Option ℕ
  pub recipient_admin_id : Option ℕ
  pub event_type : EventType
  pub aggregate_id : ℕ
  pub payload_id : Option ℕ
  pub dedupe_key : DedupeKey
  pub status : NotificationOutboxStatus
  pub attempts : ℕ
  pub next_available_at : ℕ
  pub lease_token : Option ℕ
  pub lease_expires_at : Option ℕ
  pub sent_at : Option ℕ
  pub last_error : Option Text

pub record AdminOrderMessage : Type 0 where
  pub id : ℕ
  pub order_id : ℕ
  pub admin_id : Option ℕ
  pub text : Text
  pub idempotency_key : ℕ

pub record TrafficSource : Type 0 where
  pub id : ℕ
  pub code : Text
  pub name : Text
  pub clicks_count : ℕ
  pub is_active : Bool

pub data AuditAction : Type 0 where
  manual_card_transfer_payment_accepted order_message_queued store_settings_update : AuditAction
  team_add team_update team_remove sessions_revoke : AuditAction
  category_create category_update category_delete category_image_update : AuditAction
  category_image_delete : AuditAction
  product_create product_update product_delete product_stock_adjust : AuditAction
  product_image_add product_image_update product_image_delete : AuditAction

pub record AdminAuditEvent : Type 0 where
  pub id : ℕ
  pub actor_admin_id : Option ℕ
  pub action : AuditAction
  pub resource_id : ℕ

pub record Database : Type 0 where
  pub users : Table User
  pub admins : Table Admin
  pub categories : Table Category
  pub products : Table Product
  pub carts : Table Cart
  pub cart_mutations : Table CartMutation
  pub orders : Table Order
  pub status_history : Table OrderStatusHistory
  pub transactions : Table PaymentTransaction
  pub outbox : Table NotificationOutbox
  pub audit_events : Table AdminAuditEvent
  pub admin_sessions : Table AdminSession
  pub order_messages : Table AdminOrderMessage
  pub traffic_sources : Table TrafficSource
  pub settings : SettingKey → Option Value
  pub order_seq : ℕ
  pub clock : ℕ
