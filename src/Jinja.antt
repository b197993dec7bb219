-- ===== src/Jinja.antt =====
-- pkg/chat/jinja: the chat templates.
pub mod Lexer
pub mod Syntax
pub mod Parser
pub mod Runtime
