-- ===== src/Channel.antt =====
-- library/channel.c: the connection to an edge router.
pub mod Inbound
pub mod State
pub mod Closing
pub mod Sending
pub mod Replies
pub mod Timers
pub mod Dispatch
pub mod Events
