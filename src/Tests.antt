-- ===== src/Tests.antt =====
-- A runtime that meets the assumptions, and the theorems at concrete inputs.
mod Toy
mod Running
mod Examples
mod Stores
mod Transfers
mod Meetings
mod Commands
mod Handshakes
mod Starting
mod Serving
mod Messages
