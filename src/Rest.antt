-- ===== src/Rest.antt =====
-- facedetection_va/webcc/rest_service.h, rest_service.cc, rest_service_manager.h,
-- rest_service_manager.cc and rest_request_handler.cc: from a request to the service that handles it.
pub mod Service
pub mod Manager
pub mod Handler
pub mod SentFields
pub mod ReadBack
