-- ===== src/Parser/Body/Chunks.antt =====
-- webcc/parser.cc: what `ParseChunkedContent` makes of the data that it is given.
pub mod Progress
pub mod Decode
pub mod Incomplete
