-- ===== src/Worker/Content.antt =====
-- What the renderers of backend/app/services/notification_outbox_worker.py return: a message is kept as
-- its locale key with its arguments, and a card as the rows that it is built from.
use kans_shop.Prelude.{
  ℕ, ◌+◌, Bool, true, false, ◌&&◌, ◌||◌, Option, none, some, [], ◌∷◌, ◌++◌, Text, codes, text_eq,
  is_empty, leb, ◌==◌, if◌then◌else◌, map,
}
use kans_shop.Enums.{OrderStatus}
use kans_shop.Models.{User, Order}

-- What a renderer returns: a value, or the code of a skipped event.
pub data Rendered (A : Type 0) : Type 0 where
  ready : A → Rendered A
  skip : Text → Rendered A

infixl 5 ◌>>=◌ ◌>>◌
abbrev pub ◌>>=◌ : {A B : Type 0} → Rendered A → (A → Rendered B) → Rendered B
ready a >>= f = f a
skip t >>= f = skip t

abbrev pub ◌>>◌ : {B : Type 0} → Rendered (Unit {0}) → Rendered B → Rendered B
m >> k = m >>= λ _. k

-- `if x is None: return _Skip(code)`
abbrev pub need : {A : Type 0} → Option A → Text → Rendered A
need none code = skip code
need (some a) code = ready a

-- `if c: return _Skip(code)`
abbrev pub skip_if : Bool → Text → Rendered (Unit {0})
skip_if true code = skip code
skip_if false code = ready tt

abbrev pub data_missing : Text
data_missing = codes "event_data_missing"

abbrev pub recipient_missing : Text
recipient_missing = codes "recipient_missing"

abbrev pub recipient_blocked : Text
recipient_blocked = codes "recipient_blocked"

abbrev pub actor_inactive : Text
actor_inactive = codes "actor_inactive"

-- `html.escape`
abbrev pub escape_char : ℕ → Text
escape_char c =
    if c == b'&'
    then codes "&amp;"
    else if c == b'<'
    then codes "&lt;"
    else if c == b'>'
    then codes "&gt;"
    else if c == 34
    then codes "&quot;"
    else if c == 39
    then codes "&#x27;"
    else c ∷ []

unfoldable pub escape : Text → Text
escape [] = []
escape (c ∷ s) = escape_char c ++ escape s

-- `comment or "-"`
abbrev pub or_dash : Option Text → Text
or_dash none = codes "-"
or_dash (some s) = if is_empty s then codes "-" else s

-- `url.lower().endswith(".pdf")`
abbrev pub lower : ℕ → ℕ
lower c = if leb b'A' c && leb c b'Z' then c + 32 else c

unfoldable pub ends_with : Text → Text → Bool
ends_with suffix [] = is_empty suffix
ends_with suffix (c ∷ s) = text_eq suffix (c ∷ s) || ends_with suffix s

abbrev pub is_pdf : Option Text → Bool
is_pdf none = false
is_pdf (some url) = ends_with (codes ".pdf") (map lower url)

-- The line under a card: what was done, by whom and at what time.
pub data Processed : Type 0 where
  status_by : OrderStatus → Text → ℕ → Option Text → Processed
  payment_accepted_by : Text → ℕ → Processed

-- A locale key with its arguments.
pub data Notice : Type 0 where
  cancelled_notification : Text → Text → Notice
  confirmed_notification : Text → Notice
  status_changed_notification : Text → OrderStatus → Notice
  payment_confirmed_notification : Text → Notice
  outbox_team_changed outbox_settings_updated deploy_notification : Notice
  outbox_source_created outbox_source_updated : ℕ → Notice

pub data Content : Type 0 where
  translated : Text → Notice → Content
  order_card : Text → Order → User → Option Processed → Content
  verbatim : Text → Content

pub data Operation : Type 0 where
  send_message send_order edit_order : Operation

pub record Delivery : Type 0 where
  pub operation : Operation
  pub chat_id : ℕ
  pub content : Content
  pub message_id : Option ℕ
  pub order_id : Option ℕ
  pub receipt_file_id : Option Text
  pub receipt_is_pdf : Bool
  pub is_html : Bool

-- The fields of a message that is only sent.
abbrev pub message : ℕ → Content → Delivery
message chat content = record {
  operation = send_message;
  chat_id = chat;
  content = content;
  message_id = none;
  order_id = none;
  receipt_file_id = none;
  receipt_is_pdf = false;
  is_html = true;
}
