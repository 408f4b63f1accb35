-- ===== src/Http.antt =====
-- facedetection_va/webcc: what a message holds, in common.h, common.cc, message.h, message.cc,
-- request.h, request.cc, response.h, response.cc, globals.h, globals.cc and utility.cc.
pub mod Status
pub mod Globals
pub mod Headers
pub mod Content
pub mod Form
pub mod Message
pub mod Request
pub mod Response
pub mod Dump
