-- ===== src/Tests/Connections.antt =====
-- Connections at concrete inputs.
use ziti_sdk_c.Base.{
  ℕ, zero, suc, ◌+◌, ◌≡◌, refl, Bool, true, false, List, [], ◌∷◌, ◌++◌, Option, none, some, arith,
  length, write_u32, ◌||◌, drop, ltb,
}
use ziti_sdk_c.EdgeProtocol.ContentType.{state_connected, data_type}
use ziti_sdk_c.EdgeProtocol.HeaderId.{flags_header}
use ziti_sdk_c.Buffer.{Buffer, new_buffer, buffer_get_next, buffer_push_back}
use ziti_sdk_c.Buffer.Contents.{contents, IsValid}
use ziti_sdk_c.Buffer.PushBack.{push_back-get_next}
use ziti_sdk_c.Channel.State.{ChannelState}
use ziti_sdk_c.Connect.State.{
  connecting, connected, EdgeMessage, client_cb, on_disconnect_cb, WriteReq, Chained, ConnReq, Conn,
  Env, taken, refused_closing, SendResult, has_flag, edge_multipart_msg, fault, Action,
  ziti_conn_init, init_transport_conn, conn_set_state, flush_connection, connect_time_in,
}
use ziti_sdk_c.Connect.Requests
use ziti_sdk_c.Connect.Writes
use ziti_sdk_c.Connect.Writes.Ledger.{balance, log_count, waiting}
use ziti_sdk_c.Connect.Service
use ziti_sdk_c.Connect.Service.Flushed.{flush_to_service_lem}
use ziti_sdk_c.Connect.Service.Packing.{parts}
use ziti_sdk_c.Connect.Service.Chains.{Consolidated, chain_data_requests-Consolidated}
use ziti_sdk_c.Connect.Receiving
use ziti_sdk_c.Connect.Receiving.Offered.{Offered, flush_data-Offered}
use ziti_sdk_c.Connect.Receiving.Signals.{signals, fin_after}
use ziti_sdk_c.Connect.Receiving.Overread.{multipart_overread}
use ziti_sdk_c.Connect.Dial
use ziti_sdk_c.Connect.Dial.{
  Route, Context, Session, DialOpts, service_found, session_found, do_ziti_dial, choose,
  first_choice, ziti_connect, dialling, process_connect,
}
use ziti_sdk_c.Connect.Dial.Best.{IsBest, address, is_found, ziti_connect-IsBest}
use ziti_sdk_c.Message.Query.{message_get_int32_header, find_header}
use ziti_sdk_c.Connect.Dispatch
use ziti_sdk_c.Connect.Life.{
  Event, write, close, flush, write_done, reply_came, service_came, session_came, run,
  close_conn_internal,
}
use ziti_sdk_c.Connect.Life.Answered.{accepted, run-waiting, close_conn_internal-accepted}

abbrev always : ℕ → SendResult
always id = taken

abbrev env : Env
env = record {
  now = 100;
  sha256 = λ text. 1 ∷ 2 ∷ 3 ∷ 4 ∷ [];
  abytes = 17;
  header_bytes = 24;
  push = λ state text. (text, state);
  pull = λ state text. some (text, state);
  init_pull = λ text key. some key;
  init_push = λ key. (key, key);
  init_crypto = λ key server. some (key, key);
  send_result = always;
  consumes = λ round chunk. some (length chunk);
  short_text = false;
}

abbrev channels : ℕ → Option Route
channels (suc zero) = some (record { channel = 11; state = ChannelState.connected; latency = 30 })
channels er = some (record { channel = 12; state = ChannelState.connected; latency = 20 })

abbrev session : Session
session = record { token = 9 ∷ []; edge_routers = 1 ∷ 2 ∷ []; refresh = false }

abbrev context : Context
context = record {
  authenticated = true;
  session = none;
  channels = channels;
  available = none;
  identity_name = 7 ∷ [];
  marker = 1 ∷ 2 ∷ [];
  public_key = [];
  waiter = 3;
}

abbrev opts : DialOpts
opts = record {
  stream = false;
  connect_timeout_seconds = 5;
  identity = none;
  app_data = none;
  conn_cb = true;
  data_cb = true;
}

abbrev dialled : Conn
dialled = (do_ziti_dial env context opts (ziti_conn_init 7)).0

abbrev reply : EdgeMessage
reply = record { content = state_connected; hdrs = []; body = [] }

-- A dial, two writes, a close, and what the channel answers.
abbrev life : List (Env × Event)
life =
    (env, service_came context (service_found true 5 false))
    ∷ (env, session_came context (session_found session))
    ∷ (env, write (1 ∷ 2 ∷ []) (client_cb 8))
    ∷ (env, reply_came context (some reply))
    ∷ (env, write (3 ∷ []) (client_cb 9))
    ∷ (env, flush context)
    ∷ (env, write_done 0 none)
    ∷ (env, close true)
    ∷ (env, flush context)
    ∷ (env, write_done 1 none)
    ∷ (env, write_done 2 none)
    ∷ []

run-waiting_example :
    waiting 8 (run life dialled) + log_count 8 (run life dialled).log ≡ accepted 8 life dialled
run-waiting_example = run-waiting 8 7 env context opts life

gone : (close_conn_internal env (run life dialled)).1 ≡ true
unfolding close_conn_internal run do_ziti_dial ziti_conn_init init_transport_conn
    Writes.on_write_completed Dispatch.on_flush Requests.ziti_close Requests.ziti_write
    Dispatch.connect_reply_cb Dial.connect_get_net_session_cb process_connect
    Dial.connect_get_service_cb conn_set_state ziti_connect first_choice
    Dial.ziti_channel_start_connection flush_connection Dispatch.establish_crypto
    Writes.complete_conn_req Dispatch.send_crypto_header Receiving.flush_data
    Service.flush_to_service Service.ziti_write_req Requests.ziti_disconnect
    Requests.ziti_disconnect_async Service.send_message Requests.to_channel Writes.channel_closed
    Requests.on_disconnect connect_time_in Dispatch.process_edge_message Service.create_message
    Writes.fail_wreqs Writes.answer Requests.leave_channel new_buffer
gone = refl

close_conn_internal-accepted_example :
    let d = (close_conn_internal env (run life dialled)).0 in
    (log_count 9 d.log ≡ accepted 9 life dialled) × (waiting 9 d ≡ 0)
close_conn_internal-accepted_example =
    close_conn_internal-accepted 9 7 env env context opts life gone

abbrev some_bytes : Buffer
some_bytes = record { chunks = (5 ∷ 6 ∷ 7 ∷ []) ∷ []; head_offset = 1; available = 2 }

some_bytes-IsValid : IsValid some_bytes
some_bytes-IsValid = record {
  offset_in = omega arith;
  sizes = omega arith;
  counted = refl;
  total = omega arith;
}

abbrev open_conn : Conn
open_conn = record {
  conn_id = 7;
  rt_conn_id = 7;
  close_cb = false;
  close = false;
  encrypted = false;
  conn_req = none;
  edge_msg_seq = 0;
  flags = 4;
  channel = some 12;
  data_cb = true;
  state = connected;
  fin_sent = false;
  fin_recv = 0;
  disconnecting = false;
  in_q = [];
  inbound = some_bytes;
  flusher = true;
  wreqs = [];
  pending_wreqs = [];
  dial_req_seq = 0;
  in_msg_seq = 0;
  rx = none;
  tx = [];
  crypt_o = [];
  crypt_i = [];
  start = 0;
  connect_time = 0;
  last_activity = 0;
  sent = 0;
  received = 0;
  next_req = 3;
  log = [];
}

abbrev first_req : WriteReq
first_req = record {
  id = 1;
  buf = 1 ∷ 2 ∷ [];
  eof = false;
  close = false;
  message = none;
  cb = client_cb 8;
}

abbrev second_req : WriteReq
second_req = record first_req { id = 2; buf = 3 ∷ []; cb = client_cb 9 }

abbrev close_req : WriteReq
close_req = record {
  id = 3;
  buf = [];
  eof = false;
  close = true;
  message = none;
  cb = on_disconnect_cb;
}

abbrev pair : Chained
pair = record { req = first_req; chain = second_req ∷ []; chain_len = 7 }

abbrev writing : Conn
writing = record open_conn { wreqs = first_req ∷ second_req ∷ close_req ∷ [] }

flush_to_service_example :
    (balance 8 (Service.flush_to_service env writing).0 ≡ balance 8 writing)
    × ((Service.flush_to_service env writing).1 ≡ false)
    × (Service.can_flush writing.channel writing.state ≡ true
        → (Service.flush_to_service env writing).0.wreqs ≡ [])
flush_to_service_example = flush_to_service_lem 8 env writing

chain_data_requests-Consolidated_example :
    let (p, left) = Service.chain_if true false first_req (second_req ∷ close_req ∷ []) in
    Consolidated false 17 first_req (second_req ∷ close_req ∷ []) p left
chain_data_requests-Consolidated_example =
    chain_data_requests-Consolidated true false 17 first_req (second_req ∷ close_req ∷ [])
      (omega arith) (omega arith) (omega arith)

flush_data-Offered_example :
    let (d, more) = Receiving.flush_data env open_conn in
    (acts : List Action) × (Offered env 128 (contents open_conn.inbound) acts (contents d.inbound))
    × IsValid d.inbound
    × (d.log ≡ open_conn.log ++ (acts ++ signals more open_conn))
    × (d.fin_recv ≡ fin_after more open_conn.fin_recv)
    × (more ≡ ltb 0 (length (contents d.inbound)))
flush_data-Offered_example = flush_data-Offered env open_conn some_bytes-IsValid

-- The two bytes are offered at once.
two_bytes : (buffer_get_next some_bytes 10).0 ≡ some (2, 6 ∷ 7 ∷ [])
unfolding buffer_get_next
two_bytes = refl

push_back-get_next_example :
    let back = buffer_push_back (buffer_get_next some_bytes 10).1 1 in
    IsValid back × (contents back ≡ drop 1 (contents some_bytes))
push_back-get_next_example =
    push_back-get_next some_bytes 10 1 2 (6 ∷ 7 ∷ []) some_bytes-IsValid two_bytes (omega arith)

abbrev dial_req : ConnReq
dial_req = record {
  cb = true;
  is_failed = false;
  waiter = none;
  deadline = true;
  retry_count = 0;
  service_id = some 5;
  connect_timeout_seconds = 5;
  identity = none;
  app_data = none;
}

abbrev dialling_conn : Conn
dialling_conn = record open_conn { state = connecting; channel = none; conn_req = some dial_req }

ziti_connect-IsBest_example :
    let t = choose context.channels session.edge_routers first_choice in
    let (d, found) = ziti_connect context session dialling_conn in
    IsBest context.channels session.edge_routers t
    × (found ≡ is_found t.best)
    × (d.channel ≡ address t.best)
ziti_connect-IsBest_example = ziti_connect-IsBest context session dialling_conn dial_req refl refl

-- The faster one of two.
takes_faster : (ziti_connect context session dialling_conn).0.channel ≡ some 12
unfolding ziti_connect first_choice Dial.ziti_channel_start_connection
takes_faster = refl

-- A part of one byte, and one that claims nine bytes where there are two.
abbrev lying : EdgeMessage
lying = record {
  content = data_type;
  hdrs = record { header_id = flags_header; size = 4; value = write_u32 16 } ∷ [];
  body = parts false (second_req ∷ []) ++ (Service.write_u16 9 ++ (1 ∷ 2 ∷ []));
}

lying_flags : has_flag (Receiving.inbound_flags lying.hdrs) edge_multipart_msg ≡ true
unfolding Receiving.inbound_flags write_u32 message_get_int32_header find_header
lying_flags = refl

multipart_overread_example :
    (Receiving.conn_inbound_data_msg env lying open_conn).log ≡ open_conn.log ++ (fault ∷ [])
multipart_overread_example =
    multipart_overread env open_conn lying (second_req ∷ []) 9 (1 ∷ 2 ∷ []) (omega arith) refl refl
      lying_flags refl (omega arith) (omega arith) (omega arith)

abbrev failing : ℕ → SendResult
failing id = refused_closing 32

abbrev is_fault : Action → Bool
is_fault fault = true
is_fault _ = false

abbrev has_fault : List Action → Bool
has_fault [] = false
has_fault (a ∷ as_) = is_fault a || has_fault as_

-- The stream refuses a write, and the channel closes: the close behind it in the queue is then sent on
-- no channel.
close_after_refusal :
    has_fault (Service.flush_to_service (record env { send_result = failing }) writing).0.log ≡ true
unfolding Service.flush_to_service Service.ziti_write_req Service.send_message Requests.to_channel
    Writes.channel_closed Requests.on_disconnect Service.create_message Writes.answer
    Requests.leave_channel Writes.on_write_completed conn_set_state
close_after_refusal = refl
