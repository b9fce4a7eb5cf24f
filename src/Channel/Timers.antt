-- ===== src/Channel/Timers.antt =====
-- What a channel does when its deadline has come or its stream has connected, in library/channel.c.
use ziti_sdk_c.Base.{
  ℕ, zero, suc, ◌/◌, ◌%◌, max, Bool, true, false, List, [], ◌∷◌, Option, none, some, ◌>>=◌, ltb,
  ◌==◌, if◌then◌else◌, sub_size,
}
use ziti_sdk_c.Errors.{connabort, timeout}
use ziti_sdk_c.EdgeProtocol.ContentType.{latency_type}
use ziti_sdk_c.EdgeProtocol.HeaderId.{latency_probe_time}
use ziti_sdk_c.Message.Hdrs.{Hdr}
use ziti_sdk_c.Channel.State.{
  connecting, TimeoutCb, reconnect_due, connect_due, probe_due, latency_due, latency_reply, Timer,
  stream_connect, stream_close, read_start, Channel, Env, uint64_max, connect_timeout,
  latency_timeout_ms, emit, set_deadline, ziti_channel_remove_waiter, ch_init_stream,
}
use ziti_sdk_c.Channel.Closing.{reconnect_channel, on_channel_close}
use ziti_sdk_c.Channel.Replies.{ziti_channel_send_for_reply, send_hello}

-- The `size` bytes of a number in memory, the lowest first.
unfoldable pub le_bytes : ℕ → ℕ → List ℕ
le_bytes zero v = []
le_bytes (suc size) v = v % 256 ∷ le_bytes size (v / 256)

unfoldable pub probe_hdrs : ℕ → List Hdr
unfolding le_bytes
probe_hdrs now = record { header_id = latency_probe_time; size = 8; value = le_bytes 8 now } ∷ []

unfoldable pub send_latency_probe : Env → Channel → Option Channel
unfolding probe_hdrs
send_latency_probe env ch =
    ziti_channel_send_for_reply env latency_type (probe_hdrs env.now) [] latency_reply
      (set_deadline env.now latency_timeout_ms latency_due ch)
    >>= λ (ch', waiter). some (record ch' { latency_waiter = waiter })

-- There was no traffic: the waiter is dropped, and the channel closed.
unfoldable pub give_up : Env → Channel → Option Channel
give_up env ch = ziti_channel_remove_waiter ch.latency_waiter ch >>= λ ch'.
    some (on_channel_close env timeout (record ch' { latency_waiter = none; latency = uint64_max }))

unfoldable pub latency_timeout : Env → Channel → Option Channel
unfolding give_up
latency_timeout env ch =
    if ltb (sub_size env.now (max ch.last_read ch.last_write)) latency_timeout_ms
    then some (set_deadline env.now latency_timeout_ms latency_due ch)
    else give_up env ch

unfoldable pub ch_connect_timeout : Env → Channel → Channel
ch_connect_timeout env ch = on_channel_close env timeout ch

-- The status of a connect request: 0, `UV_ECANCELED`, or another error.
pub data ConnectStatus : Type 0 where
  stream_ok stream_canceled stream_failed : ConnectStatus

unfoldable pub tls_connected : Env → ℕ → Option (List ℕ) → Channel → Option Channel
tls_connected env tls none ch = some (on_channel_close env connabort ch)
tls_connected env tls (some token) ch =
    send_hello env token (record (emit (read_start tls) ch) { reconnect_count = 0 })

unfoldable pub same_stream : ℕ → Option ℕ → Bool
same_stream tls none = false
same_stream tls (some connection) = connection == tls

-- `tls` is the stream of the request and belongs to the channel: its `data` is the channel.
unfoldable pub on_tls_connect : Env → ℕ → ConnectStatus → Channel → Option Channel
unfolding tls_connected same_stream
on_tls_connect env tls stream_canceled ch = some ch
on_tls_connect env tls stream_ok ch =
    if same_stream tls ch.connection
    then tls_connected env tls env.api_session_token ch
    else some (emit (stream_close tls) ch)
on_tls_connect env tls stream_failed ch =
    if same_stream tls ch.connection
    then some (on_channel_close env connabort ch)
    else some (emit (stream_close tls) ch)

-- The result of `tlsuv_stream_connect` on the new stream.
unfoldable pub connect_result : Env → Bool → Channel → Option Channel
connect_result env true ch = some (set_deadline env.now connect_timeout connect_due ch)
connect_result env false ch = on_tls_connect env env.new_stream stream_failed ch

unfoldable pub start_connect : Env → Channel → Option Channel
unfolding connect_result
start_connect env ch = connect_result env env.connect_ok (emit (stream_connect env.new_stream) ch)

unfoldable pub reconnect_on : Env → Option ℕ → Channel → Option Channel
unfolding start_connect
reconnect_on env (some tls) ch = some (record ch { reconnect = true })
reconnect_on env none ch =
    ch_init_stream env (record ch { msg_seq = 0; state = connecting }) >>= λ ch'.
    start_connect env ch'

unfoldable pub with_token : Env → Option (List ℕ) → Channel → Option Channel
unfolding reconnect_on
with_token env none ch = some (reconnect_channel env false ch)
with_token env (some token) ch = reconnect_on env ch.connection ch

unfoldable pub reconnect_cb : Env → Channel → Option Channel
unfolding with_token
reconnect_cb env ch = with_token env env.api_session_token ch

unfoldable pub call_timeout : Env → TimeoutCb → Channel → Option Channel
call_timeout env reconnect_due ch = reconnect_cb env ch
call_timeout env connect_due ch = some (ch_connect_timeout env ch)
call_timeout env probe_due ch = send_latency_probe env ch
call_timeout env latency_due ch = latency_timeout env ch

-- What `ztx_process_deadlines` does with the deadline of the channel: it is unset before its function is called.
unfoldable pub expire : Env → Option Timer → Channel → Option Channel
unfolding call_timeout
expire env none ch = some ch
expire env (some t) ch = call_timeout env t.expire_cb (record ch { deadline = none })
