-- ===== src/Connect.antt =====
-- The connections of library/connect.c, a client of the channels below it.
pub mod State
pub mod Requests
pub mod Writes
pub mod Service
pub mod Receiving
pub mod Dial
pub mod Dispatch
pub mod Life
