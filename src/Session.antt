-- ===== src/Session.antt =====
-- src/Server/Session.cpp and Session.h: the state of one connection and its handlers.
pub mod Parser
pub mod Handler
pub mod Serve
pub mod Epoll
pub mod Uring
pub mod Created
