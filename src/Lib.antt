-- ===== src/Lib.antt =====
-- A model of WarpApi, an HTTP and WebSocket server, with the theorems on it.
--
-- The bytes of a connection come into the read buffer of its session. In HTTP mode
-- `Session::parseRequest` (src/Server/Session.cpp) takes one request off the buffer, and
-- `handleRequest` answers it: by an endpoint of the `EndpointManager`, by a 404, by a 500, or by an
-- upgrade to WebSocket. In WebSocket mode `ws::processFrames` (src/Server/WebSocket.cpp) takes frames
-- off the buffer and calls the callbacks of the route. Both write into the write buffer, by
-- `HttpResponse::writeAll`.
--
-- Files:
-- - Prelude and its children: lists, Boolean tests on numbers, and laws of bitwise operations.
-- - Utils/StringUtils (src/Utils/StringUtils.cpp) and Utils/Conversions (src/Utils/Conversions.cpp):
--   the text helpers, function by function, over lists of bytes.
-- - Headers (src/Utils/HeadersList.h): the header keys and the set of present headers.
-- - Ring: the ring buffer of the ink library, a record of operations and laws that the clients take
--   as a parameter. Ring/WriteAll is the `writeAll` of src/Response/HttpResponse.h.
-- - Request (src/Request/HttpRequest.h) and Response (src/Response/HttpResponse.h).
-- - Session/Parser: `parseRequest`. The read region is a list of bytes; `complete n` is the answer
--   true with n bytes taken, `incomplete` the answer false, `overrun` a write outside an array.
-- - Session/Handler: `handleRequest` and `upgradeToWebSocket`, with the status of the io_uring build.
-- - Session/Created: the constructors of a session.
-- - Session/Serve: the loop `while (parseRequest()) handleRequest();` and the choice of the protocol.
--   `fault` is an access outside an array; `stuck` is the fuel used up, which Session/Serve/Ends,
--   Session/Epoll/Drain, Session/Uring/Settled and EventLoop/Loop/Returns exclude.
-- - Session/Epoll: `onReadReady`, `onWriteReady` and `close` of the epoll build, on a socket that is an
--   input: the pieces that arrive, and the answers of `send`.
-- - Session/Uring: the io_uring build of the session, and what `runWorker` of
--   src/EventLoop/EventLoop.cpp does with it: accept, completions, timeout, freeing. `Slot` is the
--   session in its pool, `live` or `freed`; the status `Closing` is `closing` of the session.
--   Session/Uring/Answered follows a client from its accept to the end of its answer.
-- - WebSocket/Frame and WebSocket/Dispatch: `sendFrame`, `dispatchFrame`, `processFrames`, and the
--   context of src/Server/WebSocketContext.cpp. A callback is the list of calls that it makes.
-- - Endpoints (src/Managers/EndpointManager.cpp), over the route tree of the ink library as a
--   parameter with laws, and Settings (src/Settings/Settings.cpp), over the JSON object.
-- - EventLoop: `runWorker` of src/EventLoop/EventLoop.cpp. EventLoop has the session table, the places of
--   the pool and the timer wheel of the ink library, which is a parameter with laws, with the handling of
--   an accepted connection, an event and an expiry; EventLoop/SetUp the set-up of the listener that both
--   builds share; EventLoop/Loop the rounds of the epoll build, with what arrives at the sockets in
--   between; EventLoop/Listener the accept request of the io_uring build; EventLoop/Served a client
--   from its accept to its answers.
-- - Server (src/Server/HttpServer.cpp, and start and stop of src/EventLoop/EventLoop.cpp) and Server/Main
--   (src/main.cpp): the life of the process, as the actions that it asks of the system.
-- - Services (src/Services, src/Endpoint/Endpoint.h): the endpoints of `GeneralServices` and their
--   registration, over the JSON values of the ink library as a parameter.
-- - Tests: runs of the model at concrete inputs.
--
-- Bytes are numbers below 256; `size_t` arithmetic wraps at 2 ^ 64 where the source can reach it.
-- Fuel: the header loop has the number of bytes that are left, `processFrames` and `writeAll` one more
-- than the number of bytes, the CR search one more than the bytes, `std::to_chars` the 20 digits of a
-- 64-bit value, the loop over the requests and the epoll flush one more than the bytes in their buffer,
-- the epoll reading one more than the bytes that have arrived. Every round of these loops takes a
-- byte at least, which is why this is enough.
--
-- The ring buffer of the ink library is a parameter with laws (Ring). Where a theorem needs bytes that
-- can be read in one piece, it asks so of the buffer at hand; Tests/Rings has an instance whose bytes
-- can stand in two pieces. An assertion that fails ends a worker where it stands; how it ends the
-- process is an input of Server/Main.
--
-- Inputs: what the system answers (sockets, descriptors, threads, signals) is an argument of the models,
-- with its documented behaviour as a hypothesis where a theorem needs it.
--
-- Not modelled: the options of the sockets, the affinity calls' answers and logging, which change no
-- state of the model; the digest of OpenSSL, a parameter; exceptions of WebSocket callbacks; the
-- lifetime of the views into the read buffer; what the pool of the ink library does with the sessions
-- that are left when a worker ends. A session of the io_uring build sees its own completions only, in
-- any order.
pub mod Prelude
pub mod Utils
pub mod Headers
pub mod Ring
pub mod Request
pub mod Response
pub mod WebSocket
pub mod EventLoop
pub mod Server
pub mod Services
pub mod Session
pub mod Endpoints
pub mod Settings
pub mod Tests
