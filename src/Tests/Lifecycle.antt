-- ===== src/Tests/Lifecycle.antt =====
-- The life of a channel of library/channel.c at concrete inputs.
use ziti_sdk_c.Base.{◌≡◌, refl, ◌<◌, ◌⊎◌, true, [], ◌∷◌, Option, none, some, write_u32}
use ziti_sdk_c.Errors.{timeout, disabled}
use ziti_sdk_c.EdgeProtocol.ContentType.{result_type}
use ziti_sdk_c.EdgeProtocol.HeaderId.{reply_for_header, result_success_header, latency_probe_time}
use ziti_sdk_c.Pool.{alloc_unpooled_obj, pool_obj_size, pool_return_obj}
use ziti_sdk_c.Message.Header.{magic_init, header_to_buffer}
use ziti_sdk_c.Message.Hdrs.{write_hdr}
use ziti_sdk_c.Message.Query.{
  message_get_int32_header, message_get_bool_header, message_get_bytes_header,
  message_get_uint64_header, find_header,
}
use ziti_sdk_c.Message.Build.{Message, message_new, room, message_set_seq, write_body}
use ziti_sdk_c.Channel.State.{
  connected, probe_due, latency_due, latency_reply, client_reply, Channel, Env, ch_init_stream,
  set_waiter, get_waiter, remove_waiter,
}
use ziti_sdk_c.Channel.Closing.{on_channel_close, backoff_timeout, stays_down, reconnect_channel}
use ziti_sdk_c.Channel.Closing.Down.{view}
use ziti_sdk_c.Channel.Closing.Ends.{
  left, rejoin, backoff_timeout_lem, on_channel_close-left, on_channel_close-rejoin,
}
use ziti_sdk_c.Channel.Sending.{ziti_channel_send_message, numbered}
use ziti_sdk_c.Channel.Replies.{
  send_hello, ziti_channel_send_for_reply, call_reply, hello_reply_cb, latency_reply_cb,
}
use ziti_sdk_c.Channel.Timers.{
  stream_ok, on_tls_connect, call_timeout, expire, reconnect_cb, send_latency_probe,
}
use ziti_sdk_c.Channel.Dispatch.{dispatch_message}
use ziti_sdk_c.Channel.Events.{new_ziti_channel, connect_channel}
use ziti_sdk_c.Channel.Events.Invariant.{is_open, cb_of, IsValid}
use ziti_sdk_c.Channel.Events.Timeout.{latency_timeout_lem}
use ziti_sdk_c.Channel.Events.Life.{
  connect_call, timer, stream, failure, arrival, Life, still, then, Event-IsValid,
  connected_watched,
}

abbrev test_env : Env
test_env = record {
  now = 50000;
  random = 4294967295;
  heap = record { malloc = λ n. true; next_id = 50 };
  api_session_token = some (7 ∷ []);
  new_stream = 3;
  write_ok = true;
  connect_ok = true;
  invalid_conn_id = λ n. n ∷ [];
  shifted_time = λ hdrs. 49000;
}

abbrev fresh_channel : Channel
fresh_channel = new_ziti_channel (1 ∷ []) 9

-- A connected channel whose probe was not answered, with a request of a client and a connection.
abbrev live_channel : Channel
live_channel = record fresh_channel {
  state = connected;
  connection = some 3;
  deadline = some (record { expire_cb = latency_due; expiration = 40000 });
  latency_waiter = some 11;
  waiters =
      record { id = 12; seq = 6; cb = client_reply 70 }
      ∷ record { id = 11; seq = 5; cb = latency_reply }
      ∷ [];
  receivers = record { id = 4; receiver = 80 } ∷ [];
}

live_channel-IsValid : IsValid live_channel
unfolding new_ziti_channel
live_channel-IsValid = record { fits = (refl, refl); quiet = refl; distinct = (refl, (refl, tt)) }

Event-IsValid_example : IsValid (on_channel_close test_env timeout live_channel)
Event-IsValid_example =
    Event-IsValid live_channel (on_channel_close test_env timeout live_channel)
      (failure test_env timeout) live_channel-IsValid

latency_timeout_example :
    (ch' : Channel) × (call_timeout test_env latency_due (record live_channel { deadline = none })
      ≡ some ch')
    × IsValid ch'
latency_timeout_example = latency_timeout_lem test_env live_channel live_channel-IsValid refl

on_channel_close-left_example :
    view (on_channel_close test_env disabled live_channel) ≡ left disabled live_channel
unfolding new_ziti_channel stays_down
on_channel_close-left_example = on_channel_close-left test_env disabled live_channel refl refl

on_channel_close-rejoin_example :
    view (on_channel_close test_env timeout live_channel)
    ≡ rejoin test_env (left timeout live_channel)
unfolding new_ziti_channel stays_down
on_channel_close-rejoin_example =
    on_channel_close-rejoin test_env timeout live_channel refl refl refl

backoff_timeout_example : backoff_timeout 4294967295 3 < 160000
backoff_timeout_example = backoff_timeout_lem 4294967295 3

-- The first connect: the call, the deadline, the stream, the reply to the hello.
abbrev or_fresh : Option Channel → Channel
or_fresh none = fresh_channel
or_fresh (some ch) = ch

abbrev called : Channel
called = connect_channel test_env fresh_channel

abbrev connecting_channel : Channel
connecting_channel = or_fresh (expire test_env called.deadline called)

abbrev greeting : Channel
greeting = or_fresh (on_tls_connect test_env 3 stream_ok connecting_channel)

abbrev hello_ok : Message
hello_ok = record {
  obj = record { id = 7; size = 128; pooled = true; clears = true };
  header = record {
    magic = magic_init;
    content = result_type;
    seq = 1;
    headers_len = 21;
    body_len = 0;
  };
  hdrs =
      record { header_id = reply_for_header; size = 4; value = write_u32 1 }
      ∷ record { header_id = result_success_header; size = 1; value = 1 ∷ [] }
      ∷ [];
  msgbuflen = 41;
  inline = true;
  mem = [];
}

abbrev greeted : Channel
greeted = or_fresh (dispatch_message test_env hello_ok greeting)

-- Then the first probe, and its reply, with the eight bytes of a time stamp.
abbrev probing : Channel
probing = or_fresh (expire test_env greeted.deadline greeted)

abbrev probe_reply : Message
probe_reply = record hello_ok {
  hdrs =
      record { header_id = reply_for_header; size = 4; value = write_u32 2 }
      ∷ record {
        header_id = latency_probe_time;
        size = 8;
        value = 80 ∷ 195 ∷ 0 ∷ 0 ∷ 0 ∷ 0 ∷ 0 ∷ 0 ∷ [];
      }
      ∷ [];
}

abbrev probed : Channel
probed = or_fresh (dispatch_message test_env probe_reply probing)

probed-measured : (probed.state ≡ connected) × (probed.latency ≡ 1000) × (probed.waiters ≡ [])
unfolding new_ziti_channel connect_channel reconnect_channel expire reconnect_cb ch_init_stream
    on_tls_connect send_hello ziti_channel_send_for_reply numbered ziti_channel_send_message
    message_new alloc_unpooled_obj pool_obj_size room message_set_seq header_to_buffer write_hdr
    write_body set_waiter get_waiter remove_waiter dispatch_message message_get_int32_header
    message_get_bool_header message_get_bytes_header find_header call_reply hello_reply_cb
    pool_return_obj write_u32 send_latency_probe latency_reply_cb message_get_uint64_header
probed-measured = (refl, refl, refl)

greeted-Life : Life fresh_channel greeted
unfolding new_ziti_channel connect_channel reconnect_channel expire reconnect_cb ch_init_stream
    on_tls_connect send_hello ziti_channel_send_for_reply numbered ziti_channel_send_message
    message_new alloc_unpooled_obj pool_obj_size room message_set_seq header_to_buffer write_hdr
    write_body set_waiter get_waiter remove_waiter dispatch_message message_get_int32_header
    message_get_bool_header message_get_bytes_header find_header call_reply hello_reply_cb
    pool_return_obj write_u32
greeted-Life =
    then
      (then (then (then still (connect_call test_env)) (timer test_env refl))
        (stream test_env 3 stream_ok refl refl))
      (arrival test_env hello_ok refl)

probe_sent : expire test_env greeted.deadline greeted ≡ some probing
unfolding new_ziti_channel connect_channel reconnect_channel expire reconnect_cb ch_init_stream
    on_tls_connect send_hello ziti_channel_send_for_reply numbered ziti_channel_send_message
    message_new alloc_unpooled_obj pool_obj_size room message_set_seq header_to_buffer write_hdr
    write_body set_waiter get_waiter remove_waiter dispatch_message message_get_int32_header
    message_get_bool_header message_get_bytes_header find_header call_reply hello_reply_cb
    pool_return_obj write_u32 send_latency_probe latency_reply_cb message_get_uint64_header
probe_sent = refl

reply_taken : dispatch_message test_env probe_reply probing ≡ some probed
unfolding new_ziti_channel connect_channel reconnect_channel expire reconnect_cb ch_init_stream
    on_tls_connect send_hello ziti_channel_send_for_reply numbered ziti_channel_send_message
    message_new alloc_unpooled_obj pool_obj_size room message_set_seq header_to_buffer write_hdr
    write_body set_waiter get_waiter remove_waiter dispatch_message message_get_int32_header
    message_get_bool_header message_get_bytes_header find_header call_reply hello_reply_cb
    pool_return_obj write_u32 send_latency_probe latency_reply_cb message_get_uint64_header
reply_taken = refl

probed-Life : Life fresh_channel probed
probed-Life =
    then (then greeted-Life (timer test_env probe_sent)) (arrival test_env probe_reply reply_taken)

connected_watched_example :
    (is_open probed.connection ≡ true)
    × ((cb_of probed.deadline ≡ some probe_due) ⊎ (cb_of probed.deadline ≡ some latency_due))
connected_watched_example = connected_watched (1 ∷ []) 9 probed probed-Life probed-measured.0
