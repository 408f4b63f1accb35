-- ===== src/Server.antt =====
-- facedetection_va/webcc/queue.h, request_handler.h, request_handler.cc, connection.h, connection.cc,
-- connection_pool.cc and server.cc: how requests reach the handler, and how the server stops.
pub mod Queue
pub mod Workers
pub mod Connection
pub mod Pool
pub mod System
pub mod Listening
pub mod KeepAlive
