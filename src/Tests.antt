-- ===== src/Tests.antt =====
-- The theorems at concrete inputs: a small shop with one product, one customer and one order.
mod Carts
mod Gateway
mod Quotes
mod Payme
mod Others
mod Checkouts
mod Receipts
mod Workers
mod Teams
mod Catalogs
mod Orders
use kans_shop.Prelude.{
  ℕ, ◌+◌, ◌*◌, ◌≤◌, ◌<◌, ◌↔◌, ◌≡◌, refl, Bool, true, false, Option, none, some, List, [], ◌∷◌, Text,
  Table, find, find_by, replace, any, text_eq, show, select, sort_by, insert_by, count, arith,
  IsUnique,
}
use kans_shop.Prelude.Int.{ℤ, pos, negsuc, ◌+ℤ◌}
use kans_shop.Prelude.Decimal.{eq_cents}
use kans_shop.Prelude.Parse.{decimal_of_text, int_of_text}
use kans_shop.Enums.{
  AdminRole, OrderType, OrderStatus, PaymentMethod, PaymentStatus, PaymentProvider, PaymentTxState,
  new, confirmed, superadmin, dona,
}
use kans_shop.Models.{
  Database, Order, OrderItem, Contact, Product, Cart, CartItem, User, Admin, PaymentTransaction,
  ClickParams, PaymeParams, empty_payload, Category, SettingKey, Value, EventType, status_user,
}
use kans_shop.Exec.{committed, Exec, Result, ok, err, receipt_version_conflict}
use kans_shop.Repositories.{latest, tx_key}
use kans_shop.Outbox.{
  enqueue_outbox_event, is_bad_key, same_key, dedupe_text, to_user, to_admin, load_live_admin,
  order_admin_role,
}
use kans_shop.Order.{
  mark_paid, settle, advance_status, lock_order, notify_if, enqueue_payment_notifications,
  enqueue_order_card_updates, notify_status, cancel_order, restock_all, restock, is_paid,
  is_terminal,
}
use kans_shop.Order.Status.{order_of, Advanced, advance_inv, CancelledBy, cancel_inv}
use kans_shop.Order.Growth.{Evolves}
use kans_shop.Order.Life.{MarkedPaid, mark_paid_inv}
use kans_shop.Payment.{Settings, is_provider_configured, is_other_paid, order_is_payable}
use kans_shop.Payment.ClickRequest.{
  ClickResponse, complete_state, complete_payable, click_amount_matches, reported_error,
  str_or_none, refusal, sign_failed,
}
use kans_shop.Payment.Click.{click_complete, complete_locked, is_signed, click_signature}
use kans_shop.Payment.Click.Outcome.{Checked, is_success}
use kans_shop.Payment.Click.Safety.{complete_twice, becomes_paid-Checked, complete_refused}
use kans_shop.Payment.Sound.{PaidOnce, IsPaidOnce}
use kans_shop.Receipt.{
  ImageFormat, validate_receipt_content, attach_card_transfer_receipt, validate_upload,
}
use kans_shop.Audit.{write_audit_event}
use kans_shop.Receipt.Accept.{accept_card_transfer_payment, accept_new, accept_request}
use kans_shop.Receipt.Upload.{attach_inv, Attached}
use kans_shop.Receipt.Safety.{upload_then_stale, accept_twice}
use kans_shop.Order.{enqueue_manual_payment_notification}
use kans_shop.Prelude.{codes}
use kans_shop.Shop.{
  Call, serve, serve_all, complete, advance, cancel, accept, attach, serve_all-Evolves,
  serve_all-PaidOnce, serve_all-terminal,
}
use kans_shop.Repositories.Visible.{mem_id, rounds, public_category_ids}
use kans_shop.Prelude.Parse.{strip}
use kans_shop.Repositories.{public_product}
use kans_shop.Cart.{lock_customer_cart, policy_of, minimum_quantity}
use kans_shop.Checkout.Settings.{
  load_checkout_settings, checkout_settings_from_values, decimal_value, boolean_value,
  optional_string,
}
use kans_shop.Checkout.Command.{
  CheckoutCommand, normalize_checkout_command, normalize_uz_phone, matches_uz_phone,
  is_valid_uz_phone, stripped, check_coordinates,
}
use kans_shop.Checkout.Tally.{tally, tally_item}
use kans_shop.Checkout.Fees.{
  required_fields, all_valid, field_reasons, delivery_fee_of, round_money,
}
use kans_shop.Checkout.Methods.{is_capable, methods_of, any_lot, lot_reasons}
use kans_shop.Checkout.Content.{QuoteContent, quote_content}
use kans_shop.Checkout.Quote.{base_blockers, is_base_ready, quote_items, quote_checkout}
use kans_shop.Checkout.Request.{
  CheckoutResult, RequestContent, enqueue_order_created_notifications, request_content,
}
use kans_shop.Checkout.Lines.{lock_and_validate_products, validate_items, validate_item}
use kans_shop.Checkout.Submit.{
  submit_checkout, submit_normalized, checkout_locked, checkout_new, place_order, precheck,
  total_or_raise, take_stock, order_items, checkout_request_fingerprint,
}
use kans_shop.Checkout.Submit.Locked.{IsSound}
use kans_shop.Checkout.Submit.Once.{submit_twice, submit-Evolves}
use kans_shop.Checkout.Submit.Effects.{Agreed, submit-Agreed, checkout_then_cancel}
use kans_shop.Order.Stock.{product_of}
use kans_shop.Payment.PaymeRequest.{
  PaymeResult, RpcResponse, method_named, payme_assert_association, payme_assert_order_payable,
  payme_amount_matches, same_request, allow, method_not_found,
}
use kans_shop.Payment.Payme.{
  payme_handle_rpc, dispatch, perform_transaction, perform_open, lock_associated, verify_payme_auth,
}
use kans_shop.Payment.Payme.Safety.{rpc-Reply, Reply}
use kans_shop.Payment.Payme.Again.{perform_twice}
use kans_shop.Prelude.{◌++◌}
use kans_shop.Checkout.Quote.Ready.{Ready, quote_items-Ready}
use kans_shop.Cart.{InventoryPolicy}
use kans_shop.Cart.{add_item_once, add_item_to_locked_cart, get_active_product, request_fingerprint}

-- What a run at a concrete input computes with.
unfoldable runs : Unit {0}
unfolding payme_handle_rpc method_named dispatch perform_transaction perform_open lock_associated
    payme_assert_association payme_assert_order_payable payme_amount_matches verify_payme_auth
    same_request click_complete complete_locked complete_state complete_payable is_signed
    click_signature is_provider_configured find find_by replace any count text_eq show
    decimal_of_text int_of_text eq_cents click_amount_matches reported_error str_or_none mark_paid
    settle advance_status cancel_order restock_all restock ◌+ℤ◌ lock_order notify_if notify_status
    latest select enqueue_payment_notifications enqueue_order_card_updates enqueue_outbox_event
    is_bad_key same_key dedupe_text sort_by validate_receipt_content attach_card_transfer_receipt
    validate_upload accept_card_transfer_payment accept_new load_live_admin write_audit_event
    accept_request enqueue_manual_payment_notification submit_checkout submit_normalized
    checkout_locked checkout_new place_order precheck normalize_checkout_command lock_customer_cart
    lock_and_validate_products validate_items validate_item total_or_raise take_stock order_items
    enqueue_order_created_notifications quote_checkout quote_items tally tally_item base_blockers
    is_base_ready required_fields all_valid field_reasons delivery_fee_of round_money is_capable
    methods_of any_lot lot_reasons load_checkout_settings checkout_settings_from_values
    decimal_value boolean_value optional_string policy_of minimum_quantity public_product
    checkout_request_fingerprint request_content normalize_uz_phone matches_uz_phone
    is_valid_uz_phone stripped check_coordinates quote_content strip mem_id rounds
    public_category_ids add_item_once add_item_to_locked_cart get_active_product request_fingerprint
runs = tt

abbrev no_rows : {A : Type 0} → Table A
no_rows = record { rows = []; next = 1 }

abbrev nobody : Contact
nobody = record {
  customer_name = 65 ∷ [];
  customer_phone = [];
  address = none;
  address_comment = none;
  latitude = none;
  longitude = none;
  comment = none;
}

abbrev soap : Product
soap = record {
  id = 3;
  category_id = 1;
  name_uz = [];
  name_ru = [];
  sku = [];
  price = 500;
  stock_qty = pos 8;
  min_order_qty = 1;
  is_active = true;
  lot_url = none;
  edit_version = 0;
  description_uz = none;
  description_ru = none;
  barcode = none;
  old_price = none;
  unit = dona;
  is_featured = false;
  sort_order = pos 0;
  sold_count = pos 2;
}

abbrev two_soaps : OrderItem
two_soaps = record {
  product_id = some 3;
  product_name_snapshot = [];
  product_sku_snapshot = [];
  price = 500;
  quantity = 2;
  total = 1000;
}

abbrev order_with : PaymentMethod → Order
order_with method = record {
  id = 1;
  order_number = 49 ∷ [];
  user_id = 7;
  order_type = OrderType.pickup;
  status = new;
  contact = nobody;
  subtotal = 1000;
  delivery_fee = 0;
  discount = 0;
  total = 1000;
  payment_method = method;
  payment_status = PaymentStatus.pending;
  receipt_file_id = none;
  receipt_url = none;
  checkout_key = none;
  checkout_fingerprint = none;
  payment_instructions = none;
  stock_deducted = true;
  receipt_storage_key = none;
  receipt_content_type = none;
  receipt_version = 0;
  payment_reviewed_by_admin_id = none;
  payment_reviewed_at = none;
  processed_by_admin_id = none;
  confirmed_at = none;
  completed_at = none;
  cancelled_at = none;
  cancel_reason = none;
  admin_message_ids = [];
  source = [];
  items = two_soaps ∷ [];
}

abbrev pending : PaymentProvider → PaymentTransaction
pending provider = record {
  id = 4;
  order_id = 1;
  provider = provider;
  provider_transaction_id = 57 ∷ [];
  state = PaymentTxState.pending;
  amount = 1000;
  raw_payload = empty_payload;
  created_at = 0;
}

abbrev customer : User
customer = record { id = 7; telegram_id = 70; language = codes "uz"; is_blocked = false }

abbrev boss : Admin
boss = record {
  id = 2;
  telegram_id = 20;
  full_name = [];
  role = superadmin;
  is_active = true;
  notifications_enabled = true;
  auth_epoch = 0;
}

abbrev household : Category
household = record {
  id = 1;
  parent_id = none;
  name_uz = codes "Uy";
  name_ru = codes "Dom";
  slug = codes "uy";
  description_uz = none;
  description_ru = none;
  image_url = none;
  image_file_id = none;
  sort_order = pos 0;
  edit_version = 0;
  is_active = true;
  products_count = 1;
}

abbrev shop_with : PaymentMethod → List PaymentTransaction → Database
shop_with method transactions = record {
  users = record { rows = customer ∷ []; next = 8 };
  admins = record { rows = boss ∷ []; next = 3 };
  categories = record { rows = household ∷ []; next = 2 };
  products = record { rows = soap ∷ []; next = 4 };
  carts = no_rows;
  cart_mutations = no_rows;
  orders = record { rows = order_with method ∷ []; next = 2 };
  status_history = no_rows;
  transactions = record { rows = transactions; next = 5 };
  outbox = no_rows;
  audit_events = no_rows;
  admin_sessions = no_rows;
  order_messages = no_rows;
  traffic_sources = no_rows;
  settings = λ k. none;
  order_seq = 2;
  clock = 0;
}

abbrev click_shop : Database
click_shop = shop_with PaymentMethod.click (pending PaymentProvider.click ∷ [])

abbrev gateway : Settings
gateway = record {
  click_service_id = 65 ∷ [];
  click_merchant_id = 65 ∷ [];
  click_merchant_user_id = 65 ∷ [];
  click_secret_key = 65 ∷ [];
  payme_merchant_id = 65 ∷ [];
  payme_secret_key = 65 ∷ [];
  webapp_url = [];
}

abbrev digest : Text → Text
digest t = 1 ∷ []

abbrev completion : ClickParams
completion = record {
  click_trans_id = some (57 ∷ []);
  merchant_trans_id = some (49 ∷ []);
  merchant_prepare_id = some (52 ∷ []);
  amount = some (49 ∷ 48 ∷ []);
  sign_time = none;
  sign_string = some (1 ∷ []);
  error = none;
  rest = [];
}

abbrev answer_of : {A : Type 0} → A → Result (A × Database) → A
answer_of a r = elim r [ ok x ↦ x.0 | err e ↦ a ]

abbrev completed_shop : Database
completed_shop = committed (click_complete gateway digest 9 completion) click_shop

abbrev answered : ClickResponse
answered =
    answer_of (refusal completion sign_failed)
      (click_complete gateway digest 9 completion click_shop)

completion_ok :
    click_complete gateway digest 9 completion click_shop ≡ ok (answered, completed_shop)
unfolding runs
completion_ok = refl
