-- ===== src/EdgeProtocol/ContentType.antt =====
-- `enum content_type` of library/edge_protocol.h.
use ziti_sdk_c.Base.{ℕ}

abbrev pub hello_type : ℕ
hello_type = 0

abbrev pub ping_type : ℕ
ping_type = 1

abbrev pub result_type : ℕ
result_type = 2

abbrev pub latency_type : ℕ
latency_type = 3

abbrev pub connect : ℕ
connect = 60783

abbrev pub state_connected : ℕ
state_connected = 60784

abbrev pub state_closed : ℕ
state_closed = 60785

abbrev pub data_type : ℕ
data_type = 60786

abbrev pub dial : ℕ
dial = 60787

abbrev pub dial_success : ℕ
dial_success = 60788

abbrev pub dial_failed : ℕ
dial_failed = 60789

abbrev pub bind : ℕ
bind = 60790

abbrev pub unbind : ℕ
unbind = 60791

abbrev pub update_token : ℕ
update_token = 60803

abbrev pub update_token_success : ℕ
update_token_success = 60801

abbrev pub update_token_failure : ℕ
update_token_failure = 60802

abbrev pub conn_inspect_request : ℕ
conn_inspect_request = 60798

abbrev pub conn_inspect_response : ℕ
conn_inspect_response = 60799

abbrev pub bind_success : ℕ
bind_success = 60800

abbrev pub posture_response : ℕ
posture_response = 10800

abbrev pub posture_response_success : ℕ
posture_response_success = 10801
