-- ===== src/Parse.antt =====
-- parse.go: what a message event of WhatsApp is for the program.
pub mod Extract
pub mod Events
pub mod Content
pub mod Sound
pub mod Tests
