-- ===== src/WebSocket.antt =====
-- src/Server/WebSocket.cpp, WebSocket.h and WebSocketContext.cpp: frames, and the calls that a
-- route's callbacks can make.
pub mod Frame
pub mod Dispatch
