-- ===== src/Format/Reader.antt =====
-- pkg/format/reader.go, read.go and tensor.go: `Open` over a `mmapSource`. Memory for a length that
-- the file states is taken to be there: an allocation that the run time refuses is not modelled, and
-- such a file ends before its data does.
pub mod Monad
pub mod Open
pub mod Tensor
unfoldable pub use Monad.*
unfoldable pub use Open.*
