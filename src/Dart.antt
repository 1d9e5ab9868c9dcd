-- ===== src/Dart.antt =====
-- The bridge to the Dart VM.
pub mod CType
pub mod Header
pub mod Symbols
pub mod Abi
pub mod Loader
mod Examples
