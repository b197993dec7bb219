-- ===== src/Tokenizer.antt =====
-- pkg/tokenizer: from text to token numbers and back.
pub mod Utf8
pub mod Runes
pub mod ByteLevel
pub mod Special
pub mod Bpe
pub mod Pretokenize
pub mod Greedy
pub mod Encode
