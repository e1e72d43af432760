-- ===== src/Server.antt =====
-- Pthread/pthreads-web-server-master/server.c: the multithreaded web server.
pub mod Text
pub mod Parse
pub mod Respond
pub mod Request
pub mod Workers
pub mod Config
