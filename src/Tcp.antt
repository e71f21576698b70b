-- ===== src/Tcp.antt =====
-- tcpserver.h and tcpserver.cpp.
pub mod Connection
pub mod Client
pub mod Channels
pub mod Server
