-- ===== src/Storage.antt =====
-- storage.py
pub mod Contacts
pub mod Shares
pub mod Received
pub mod Hashing
