-- ===== src/Url.antt =====
-- facedetection_va/webcc/url.h and url.cc: percent coding, query parameters, and the URL itself.
pub mod Codec
pub mod Query
pub mod Address
