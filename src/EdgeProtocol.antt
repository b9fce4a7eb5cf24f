-- ===== src/EdgeProtocol.antt =====
-- library/edge_protocol.h: the content types and header ids that the models name, with the values
-- that library/proto/edge_client.pb-c.h gives them.
pub mod ContentType
pub mod HeaderId
