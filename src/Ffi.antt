-- ===== src/Ffi.antt =====
-- core-rs/core-ffi/src: the library that the user interface loads, over the engine.
pub mod Types
pub mod Cstr
pub mod Shared
pub mod Analytics
pub mod Sniffer
pub mod Core
pub mod Api
