-- ===== src/Client.antt =====
-- client.py
pub mod Transfer
pub mod Contacts
pub mod Requests
