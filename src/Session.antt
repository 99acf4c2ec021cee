-- ===== src/Session.antt =====
-- session.go: one account, with its pairing, its inbound messages and its send queue.
pub mod State
pub mod Pairing
pub mod Login
pub mod Inbound
pub mod Sending
pub mod Calls
pub mod Delivery
pub mod Order
pub mod QrCode
pub mod Stuck
pub mod Receipts
pub mod Composing
pub mod Invariant
pub mod Tests
