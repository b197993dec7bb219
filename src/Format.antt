-- ===== src/Format.antt =====
-- pkg/format: reading a GGUF file.
pub mod Types
pub mod Source
pub mod Metadata
pub mod Reader
pub mod Wire
