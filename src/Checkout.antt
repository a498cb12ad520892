-- ===== src/Checkout.antt =====
-- Checkout: settings, quote, command and submission.
pub mod Settings
pub mod Command
pub mod Tally
pub mod Fees
pub mod Methods
pub mod Content
pub mod Quote
pub mod Request
pub mod Lines
pub mod Submit
