-- ===== src/App.antt =====
-- The commands of p2pshare.py, and the file of the identity.
pub mod Keyfile
pub mod Commands
pub mod Opening
pub mod Serving
pub mod Address
pub mod Main
