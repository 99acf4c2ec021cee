-- ===== src/Wa.antt =====
-- wa.go: the adapter of the WhatsApp library.
pub mod Media
pub mod RoundTrip
pub mod Client
pub mod Store
pub mod Handlers
pub mod Dispatch
mod Tests
