-- ===== src/Asio.antt =====
-- src/Socket.hpp and src/Socket.cpp: the socket and the server that TCP and SSL share.
pub mod Socket
pub mod Server
