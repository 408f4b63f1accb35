-- ===== src/Parser.antt =====
-- facedetection_va/webcc/parser.h, parser.cc, request_parser.h and request_parser.cc: the
-- incremental parser of HTTP requests.
pub mod State
pub mod HeaderLines
pub mod Body
pub mod Multipart
pub mod Feed
