-- ===== src/Tests.antt =====
-- Runs of the definitions on small inputs, by computation, and the examples at which the stated
-- theorems apply.
mod Line
mod Frames
mod Fields
mod Exchange
mod Malformed
mod Messages
mod System
mod Library
mod Layer
mod Passage
mod Tasks
mod Transactions
mod Network
mod Queries
