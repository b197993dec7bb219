-- ===== src/Tests.antt =====
-- Runs of the theorems at concrete inputs.
mod Mempool
mod Template
mod Tokenizer
mod Jinja
mod Format
mod Runtime
