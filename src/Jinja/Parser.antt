-- ===== src/Jinja/Parser.antt =====
-- pkg/chat/jinja/parse.go: the parser. What is left of the tokens stands for the position; behind the
-- last token stands `tokEOF`.
pub mod Expressions
pub mod Blocks
pub mod Total
pub mod Ends
pub mod Print
pub mod Strong
pub mod Steps
pub mod Front
pub mod Lists
pub mod FieldLists
pub mod Complete
pub mod Template
