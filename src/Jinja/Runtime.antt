-- ===== src/Jinja/Runtime.antt =====
-- pkg/chat/jinja/runtime.go and jinja.go: the evaluator.
pub mod Values
pub mod Addresses
pub mod Numbers
pub mod Strings
pub mod Eval
pub mod Exec
pub mod Context
pub mod Render
