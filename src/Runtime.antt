-- ===== src/Runtime.antt =====
-- pkg/runtime: dialogs on one model.
pub mod Conversation
pub mod Session
pub mod Context
