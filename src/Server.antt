-- ===== src/Server.antt =====
-- server.py. Printing and logging are left out.
pub mod Contacts
pub mod Transfer
pub mod Session
pub mod Dispatch
pub mod Safety
pub mod Lifecycle
