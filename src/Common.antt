-- ===== src/Common.antt =====
-- commonserver.h and commonserver.cpp.
pub mod Threads
pub mod Server
