-- ===== src/Lib.antt =====
-- The face detection service of the workshop, facedetection_va: the service itself and the HTTP
-- server under it, facedetection_va/webcc.
--
-- A connection reads bytes and gives them to a request parser, piece by piece. A request that is
-- complete goes into a queue, from which worker threads take it; a worker finds the service that is
-- bound to the path, lets it fill an answer, and hands the answer to the connection. The one service
-- that main binds, to /images, reads an image from JSON and answers with the faces found.
--
-- webcc also has a client: a session builds and completes a request, takes a connection to the server
-- from its pool or makes one, sends the request, and gives what it reads to a response parser.
--
-- The parts, and where they come from:
--   Prelude, Bytes: names, lists and texts that all parts share. A text is a list of bytes, 0 to 255.
--   Boost: what facedetection_va/webcc uses of boost/algorithm/string.hpp, a parameter.
--   Numbers: std::stoul and std::to_string, for numbers of 64 bits, and std::stoi.
--   Url: facedetection_va/webcc/url.cc. Codec is Decode and EncodeQuery, Query is UrlQuery, Address
--     is Url.
--   Http: common.cc, globals.cc, utility.cc, message.cc, request.cc and response.cc of
--     facedetection_va/webcc. Headers is Headers, Content is ContentType and ContentDisposition, Form
--     is FormPart; Message, Request and Response are the classes of these names, and Dump is
--     Message::Dump.
--   Parser: parser.cc, request_parser.cc and response_parser.cc of facedetection_va/webcc. State has
--     the members of Parser, RequestParser and ResponseParser, HeaderLines is ParseHeaders, Body is
--     ParseFixedContent and ParseChunkedContent, Multipart is ParseMultipartContent, Feed is Parse.
--     The virtual functions are chosen by the kind of the parser, which is part of its environment.
--   Rest: rest_service.cc, rest_service_manager.cc and rest_request_handler.cc of
--     facedetection_va/webcc, with SendResponse of connection.cc.
--   Server: queue.h, request_handler.cc, connection.cc, connection_pool.cc and server.cc of
--     facedetection_va/webcc. Queue and Workers are the threads of RequestHandler, a step relation:
--     what a thread does under the mutex of the queue is one step, and steps interleave freely.
--     Connection has the handlers of a connection, each with the call that it ends by, Pool is
--     ConnectionPool, and System is the whole: handlers run one at a time on the thread of the server,
--     between the steps of the workers; HandleConnection up to its async_write is one step. Listening
--     is the constructor of Server, Run and DoAccept, as far as the acceptor goes; KeepAlive is about
--     the requests that follow one another on a connection.
--   Client: client.cc, client_pool.cc, client_session.cc and request_builder.cc of
--     facedetection_va/webcc. A call of Client meets an Exchange: whether the host resolves, the
--     connection is made and the request is written, and then the events of the socket and the timer.
--     Key and Pool are ClientPool, Session is ClientSession, Builder is RequestBuilder, and Shortcuts
--     has Get, Post, Put, Delete and Patch of the session; Failure is DescribeError and Exception of
--     globals.cc.
--   FaceDetection: facedetection_va/FaceDetectionService.cpp, and the binding in facedetector.cpp.
--     Exchange follows a POST from the request of a client to the connection of the server, through
--     HandleConnection, and back, and Served is a run of the whole server in which it is answered.
--   Detector: main of facedetection_va/facedetector.cpp, and DB.cpp. A run is the list of what it does
--     outside the program, and how it ends.
--   Examples: the theorems on concrete inputs, with one way to provide each parameter.
--
-- A handler takes the state and returns it. A call of the parser has an Outcome: ok and reject are the
-- results true and false with the state they leave, throws is an exception that leaves the parser, and
-- spent is a loop that has not ended within its fuel. An exception of the service is none.
--
-- Loops over text that recursion on the text does not give take fuel: one more than the bytes that
-- wait. Each line takes two bytes at least, each chunk but the last takes some, and so does each round
-- over multipart data but the change into the step of a part's headers, so that this is enough. The
-- search for a boundary line and the loop over the headers of a part, inside such a round, have their
-- own results for fuel that runs out, which the round turns into spent.
--
-- Numbers are unbounded, with std::size_t kept to 64 bits where the code adds to it; npos is 2 ^ 64 - 1.
--
-- Parameters: the string algorithms of boost, std::regex, jsoncpp, base64 and OpenCV, and whether
-- memory of a given size can be reserved for the content of a message. What is asked of them is in
-- Boost, Rest.Manager, FaceDetection.Libraries and Parser.State. The value of a status that no one has
-- written is an argument, as are the time, the boundary that RandomUuid gives, and the content of files.
-- For main, OpenCV, the database and the port are parameters, in Detector and Server.Listening;
-- imwrite is taken to return, and faces to lie within their image.
-- The std::map of ClientPool is a list of entries that finds a key by ClientPool::Key::operator<, as
-- std::map does on keys of which that operator is an order; it is not one on all keys.
--
-- Not modelled: gzip, which the build switches off; logging; sockets and timers but for their events,
-- so also the sizes of buffers, the timeout and the verification of certificates; the handlers that
-- run behind CloseAll, where every socket is closed; registering signals; what the system and the
-- database do with the calls they get; running out of memory elsewhere than in the reserved content;
-- the copies of jsoncpp, base64 and googletest, and the web application.
pub mod Prelude
pub mod Bytes
pub mod Boost
pub mod Numbers
pub mod Url
pub mod Http
pub mod Parser
pub mod Rest
pub mod Server
pub mod Client
pub mod FaceDetection
pub mod Detector
mod Examples
