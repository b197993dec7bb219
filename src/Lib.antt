-- ===== src/Lib.antt =====
-- Models of the parts of gogguf that are plain algorithms on bytes, tokens and buffers.
--
-- The program opens a GGUF file (pkg/format, with the element types of pkg/dtype), builds a tokenizer
-- from its metadata (pkg/tokenizer), renders a chat template (pkg/chat/jinja) to the prompt, turns the
-- prompt into tokens, and runs a model family on them, which keeps keys and values of each layer in a
-- cache (pkg/model/mempool). The modules here follow these parts:
--
-- - Base: lists and numbers over the native numbers, signed numbers, results, byte strings, `strings.TrimSpace`.
-- - Mempool: `Arena` of pkg/model/mempool/arena.go (Mempool/Arena) and `KV` of kv.go (Mempool/Kv). A
--   buffer is the list of its values, a slice expression that Go would refuse gives an error, and every
--   method is a function from the state to the next one. Mempool/Kv/Refine looks at a layer as the list
--   of its tokens' values.
-- - Dtype: the tables of pkg/dtype/dtype.go, `String`, and `DataSize` with the wrap-around of uint64 and the
--   conversion to int64.
-- - Format: Format/Types and Format/Metadata for types.go, metadata.go and prefixed_meta.go,
--   Format/Source for the mapped source of mmap.go, and Format/Reader for `Open` of reader.go, as
--   programs that read from a source and may fail. Format/Wire says, independently of the reader, which
--   bytes a file has.
-- - Jinja: the templates of pkg/chat/jinja. Jinja/Lexer has `tokenize` and `lexWords` of lexer.go, and
--   Jinja/Lexer/Print a text for every token, independently of the lexer. Jinja/Syntax has the trees of
--   ast.go and Jinja/Parser the methods of parse.go, where the five methods for binary operators are one
--   function of the level; Jinja/Parser/Print has tokens for every expression, independently of the
--   parser. Jinja/Runtime is runtime.go and jinja.go: values and the heap of their maps, the evaluation of
--   expressions (Eval), the nodes with the contexts of loops (Exec), the context that a caller gives
--   (Context), and `Render`.
-- - Tokenizer: `utf8Symbols` and `bpe` of pkg/tokenizer/tokenizer.go (Tokenizer/Utf8, Tokenizer/Bpe),
--   the byte level alphabet of bytes.go (Tokenizer/ByteLevel), special.go (Tokenizer/Special),
--   `pretokenizeQwen2` of pretokenize.go (Tokenizer/Pretokenize) with Go's conversions between strings and
--   runes (Tokenizer/Runes), `encodeGreedyVocab` of spm.go
--   (Tokenizer/Greedy), and `Encode` and `Decode` over these (Tokenizer/Encode).
-- - Hf: `SplitRepoTag`, `ValidRepoID` and `isHexString` of pkg/hf/repo.go.
-- - Runtime: `Conversation` of pkg/runtime/conversation.go and the decode loop of session.go
--   (Runtime/Session) and `Generate` of context.go (Runtime/Context), over an interface of the model and
--   of the sampler. Runtime/Session/Answers says, without a session, which tokens generation gives.
--
-- Strings and byte slices are lists of numbers below 256. Go's int is unbounded where the code only
-- counts elements of slices in memory; the size of a cache buffer in `NewKV` wraps around, and uint64 and
-- int64 values of a file are taken modulo 2 ^ 64 where the code computes with them (`DataSize`, `Slice`). Numbers in a file are bit patterns; floats are not
-- computed with, and their conversion to int is a parameter. The tests of the package `unicode` that
-- `pretokenizeQwen2` calls are parameters too.
--
-- Floats and what the evaluator calls of strconv, math and encoding/json are an interface as well.
-- `valueToJSON` counts the maps on its way: when there are more than the heap has, one of them contains
-- itself, and the code does not end.
--
-- Loops that are not structural run on fuel. The template parser has sixteen times the number of the
-- tokens and 32 more, since a token costs at most a call of each level. The lexer, the splitter and the
-- pretokenizer have one more than the length of the text, since a round takes at least one byte or rune,
-- and `bpe` one more than the number of symbols, since a round takes one symbol away.
--
-- Not modelled: the arithmetic of the model families, of quantisation, of the sampler and of the devices
-- (floats, cgo, assembly), the server and the downloads (network), opening and closing of operating
-- system files, the pretokenizers that are regular expressions of the Go library, and so far the
-- renderers of fixed chat templates and the small helpers.
pub mod Base
pub mod Mempool
pub mod Dtype
pub mod Format
pub mod Jinja
pub mod Tokenizer
pub mod Hf
pub mod Runtime
mod Tests
