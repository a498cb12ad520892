-- ===== src/Lib.antt =====
-- Kans Shop, the backend of a shop that sells through a Telegram bot and a web application: its
-- orders, payments, carts and checkouts, the worker that sends its notifications, its staff with
-- their sessions, and its catalog (backend/app/services, with the repositories and the rows of
-- backend/app/db that they use).
--
-- The parts, and how they call one another:
--   * Models, Enums, Values: the rows (backend/app/db/models) and the database as a record of
--     tables. A table has its rows in the order of insertion and the next value of its sequence.
--     Money is Numeric(12, 2) and kept in cents; a time is a number that each operation is given.
--   * Exec: a service call is a function from a database to an error or a result with the
--     database that it leaves; an exception (backend/app/core/exceptions.py) is an error without
--     a database, since the session is rolled back.
--   * Repositories: the queries and the writes of backend/app/db/repositories. A locked read is a
--     read: the calls of a model run one after the other, which is what the row locks enforce.
--   * Outbox: `enqueue_outbox_event` of notification_outbox_service.py, and the load of a live
--     administrator (admin_actor_service.py). Order, Receipt and Checkout queue their events
--     here.
--   * Order: order_service.py, `advance_status`, `cancel_order`, `mark_paid` and what they queue.
--     Order.Status and Order.Stock say what they write, Order.Growth and Order.Life what an order
--     keeps.
--   * Payment: payment_service.py. Each gateway has its handlers (Click, Payme) over the checks
--     of a call (ClickRequest, PaymeRequest); a paid transaction settles its order by
--     `mark_paid`. The exceptions that `payme_handle_rpc` catches roll nothing back: in
--     Payment.Kept they keep the database as it stands. Payment.ClickStep and Payment.Step classify what a call can write, for
--     Payment.Sound.
--   * Cart: cart_service.py, cart_replay_service.py, inventory_policy.py and purchase_locks.py.
--   * Checkout: purchase_service.py (Command, Request, Lines, Submit) over the quote of
--     checkout_quote.py (Settings, Tally, Fees, Methods, Content, Quote). `submit_checkout` locks
--     the cart, validates the products, asks for a quote, writes the order, takes the stock and
--     empties the cart.
--   * Receipt, Receipt.Accept: receipt_service.py and manual_payment_service.py.
--   * Common: common.py (pages) and after_commit.py (deferred effects).
--   * Shop: any sequence of the calls that change orders or payments after checkout, each
--     committed or rolled back (`get_db` of backend/app/api/deps.py).
--   * Worker: notification_outbox_worker.py. Worker itself has the claims and the reports of a
--     lease, Worker.Render the renderers over Worker.Content, Worker.Process the delivery of a
--     claim, Worker.Run interleavings of workers and producers; Worker.Life is the state machine
--     of an event. Pacing: telegram_pacing_service.py, which the worker asks before each message.
--   * Audit: the write of an audit event (admin_audit_service.py).
--   * Session: admin_session_service.py and who calls (`get_admin_session_principal` of
--     backend/app/api/deps.py). Team: admin_team_service.py. Staff: any sequence of their calls;
--     Staff.Step is the step relation, to which Staff.AccountWrites, Staff.TeamWrites and
--     Staff.SessionWrites bring each call.
--   * LoginCode: admin_login_code_service.py over a model of Redis, apart from the database.
--   * Catalog: admin_catalog_service.py. Catalog.Tree has the categories with the check of a new
--     parent in Catalog.Parent, Catalog.Goods and Catalog.GoodsValues the products; Catalog.Calls
--     is any sequence of their calls. Catalog.Step is what a call writes to the categories,
--     Catalog.Climb the walk to the root.
--   * Tests: the theorems at concrete inputs.
--
-- Parameters stand for code outside the repository: MD5, SHA-256 and base64, the JSON text under
-- a fingerprint, the image library, the random part of a storage key, the tokens of leases and
-- sessions, the digits of login codes, NFKD, `urlsplit`, Telegram and the file system. The
-- theorems hold for every choice of them. All recursion is structural; the recursive query of the
-- visible categories runs one round for each category, after which nothing more can join; the
-- walk from a category to its root has two rounds more than there are categories, since each one
-- but the last sees another; the search for a free slug has one more, since each round meets
-- another category's slug.
--
-- Not modelled: the API's routes and the bot's handlers, which call these services; the
-- broadcasts and their worker; the pictures of products and the settings of the store; the
-- addresses, the login and the lists of customers; analytics, marketing and geocoding; the texts
-- of errors and logs.
pub mod Prelude
pub mod Enums
pub mod Models
pub mod Values
pub mod Exec
pub mod Repositories
pub mod Outbox
pub mod Audit
pub mod Order
pub mod Payment
pub mod Cart
pub mod Checkout
pub mod Receipt
pub mod Common
pub mod Shop
pub mod Team
pub mod Session
pub mod LoginCode
pub mod Staff
pub mod Catalog
pub mod Pacing
pub mod Worker
pub mod Tests
