-- ===== src/EdgeProtocol/HeaderId.antt =====
-- The `enum header_id` values of library/edge_protocol.h that the models use.
use ziti_sdk_c.Base.{ℕ}

abbrev pub reply_for_header : ℕ
reply_for_header = 1

abbrev pub result_success_header : ℕ
result_success_header = 2

abbrev pub hello_version_header : ℕ
hello_version_header = 4

abbrev pub latency_probe_time : ℕ
latency_probe_time = 128

abbrev pub conn_id_header : ℕ
conn_id_header = 1000

abbrev pub seq_header : ℕ
seq_header = 1001

abbrev pub session_token_header : ℕ
session_token_header = 1002

abbrev pub conn_type_header : ℕ
conn_type_header = 1022

abbrev pub supports_inspect_header : ℕ
supports_inspect_header = 1023

abbrev pub uuid_header : ℕ
uuid_header = 128

abbrev pub flags_header : ℕ
flags_header = 1010

abbrev pub public_key_header : ℕ
public_key_header = 1003

abbrev pub terminator_identity_header : ℕ
terminator_identity_header = 1006

abbrev pub caller_id_header : ℕ
caller_id_header = 1008

abbrev pub app_data_header : ℕ
app_data_header = 1011

abbrev pub connection_marker_header : ℕ
connection_marker_header = 1025
