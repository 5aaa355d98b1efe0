-- ===== src/Daemon.antt =====
-- The daemon, src/userspace/daemon: its messages and the server's answers to a client.
pub mod Streams
pub mod Ipc
pub mod Server
mod Tests
