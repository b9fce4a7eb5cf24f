-- ===== src/Message.antt =====
-- library/message.h and library/message.c: the wire format of edge messages.
pub mod Header
pub mod Hdrs
pub mod Query
pub mod Build
