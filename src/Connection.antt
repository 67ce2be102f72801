-- ===== src/Connection.antt =====
-- freastal/src/server.c, one connection: its state, its callbacks, and what holds of them.
pub mod State
pub mod Dispatch
pub mod Encrypted
pub mod Callbacks
pub mod Steps
pub mod Bounds
pub mod Outcome
pub mod Invariant
pub mod Parts
pub mod Gone
pub mod Writes
pub mod Keeps
pub mod Stream
pub mod Calm
pub mod Reads
pub mod Order
pub mod Correct
pub mod Closure
pub mod Secrecy
pub mod Handover
pub mod Split
pub mod Requests
pub mod Answered
pub mod Tests
