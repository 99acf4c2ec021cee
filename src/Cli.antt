-- ===== src/Cli.antt =====
-- cmd/wavonyx: the command line.
pub mod Args
pub mod Split
pub mod Order
pub mod Dispatch
pub mod Help
pub mod Env
pub mod Client
pub mod Reads
pub mod Output
pub mod Qr
pub mod Commands
pub mod Connect
pub mod Watch
pub mod Once
mod Tests
