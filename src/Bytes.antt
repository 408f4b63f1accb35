-- ===== src/Bytes.antt =====
-- The operations of std::string that facedetection_va/webcc uses. A string is the list of its
-- bytes, each a number below 256; `find` and the two `substr` calls that the code takes around the
-- place found are one function here, which returns the text before and the text behind.
mod Laws
mod Defs
pub use Laws.*
unfoldable pub use Defs.{equal, cut, cut_on, next_line, strip}
pub use Defs.{Text, codes, IsByte, Lacks, prepend}
