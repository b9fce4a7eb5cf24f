-- ===== src/Connect/Life.antt =====
-- The life of a connection: `close_conn_internal` of library/connect.c, and everything that can happen
-- to a connection from `ziti_conn_init` to its end. What a client asks for while it is called is an
-- event of its own.
pub mod Asked
pub mod Received
pub mod Connecting
pub mod Dispatched
pub mod Answered
use ziti_sdk_c.Base.{
  ℕ, ◌+◌, Bool, true, false, List, [], ◌∷◌, ◌++◌, Option, none, some, if◌then◌else◌,
}
use ziti_sdk_c.Errors.{ZitiError, invalid_state}
use ziti_sdk_c.Buffer.{new_buffer}
use ziti_sdk_c.Connect.State.{
  ConnState, initial, connecting, connected, accepting, close_write, timedout, disconnected, closed,
  EdgeMessage, WriteCb, client_cb, failed, Chained, ConnReq, Conn, Env, closed_cb, freed,
  rem_receiver, emit, ziti_conn_init, init_transport_conn,
}
use ziti_sdk_c.Connect.Requests.{ziti_write, ziti_close_write, ziti_close, ziti_conn_set_data_cb}
use ziti_sdk_c.Connect.Writes.{drop_waiter, fail_wreqs, on_write_completed, channel_closed}
use ziti_sdk_c.Connect.Dial.{
  Context, Session, process_connect, ServiceAnswer, connect_get_service_cb, SessionAnswer,
  connect_get_net_session_cb,
}
use ziti_sdk_c.Connect.Dispatch.{queue_edge_message, on_flush, connect_timeout, connect_reply_cb}

unfoldable pub call_closed : Bool → Conn → Conn
call_closed true c = emit closed_cb c
call_closed false c = c

unfoldable pub unregister : Option ℕ → Conn → Conn
unregister none c = c
unregister (some ch) c = emit (rem_receiver ch c.rt_conn_id) c

unfoldable pub free_req : Option ConnReq → Conn → Conn
free_req none c = c
free_req (some req) c = drop_waiter req.waiter (record c { conn_req = none })

abbrev pub emptied : Conn → Conn
emptied c = record c { rx = none; tx = []; flusher = false; in_q = []; inbound = new_buffer }

-- What is given back when no write is pending. A connection that a listener has accepted is also taken
-- off the listener's list.
unfoldable pub release : Conn → Conn
unfolding call_closed unregister free_req
release c =
    let left = unregister c.channel (call_closed c.close_cb c) in
    emit freed (emptied (free_req left.conn_req left))

unfoldable pub release_if : List Chained → Conn → Conn × Bool
unfolding release
release_if [] c = (release c, true)
release_if (p ∷ ps) c = (c, false)

unfoldable pub dispose_in : Env → ConnState → Conn → Conn × Bool
unfolding release_if
dispose_in env closed c =
    let c' = fail_wreqs env (failed invalid_state) c.wreqs c in release_if c'.pending_wreqs c'
dispose_in env initial c = (c, false)
dispose_in env connecting c = (c, false)
dispose_in env connected c = (c, false)
dispose_in env accepting c = (c, false)
dispose_in env close_write c = (c, false)
dispose_in env timedout c = (c, false)
dispose_in env disconnected c = (c, false)

-- The result says whether the connection is gone.
unfoldable pub close_conn_internal : Env → Conn → Conn × Bool
unfolding dispose_in
close_conn_internal env c = dispose_in env c.state c

-- What can happen to a connection: the calls of its client, then those of the channel, the loop, the
-- deadline and the controller, and an attempt of the context to dispose of it that fails.
pub data Event : Type 0 where
  write : List ℕ → WriteCb → Event
  end_writes : Event
  close : Bool → Event
  set_data_cb : Bool → Event
  flush : Context → Event
  write_done : ℕ → Option ℕ → Event
  message_came : EdgeMessage → Event
  channel_gone : ZitiError → Event
  reply_came : Context → Option EdgeMessage → Event
  timed_out : Event
  connect_on : Context → Option Session → Event
  service_came : Context → ServiceAnswer → Event
  session_came : Context → SessionAnswer → Event
  kept : Event

unfoldable pub step : Env → Event → Conn → Conn
unfolding close_conn_internal
step env (write buf cb) c = (ziti_write env buf cb c).0
step env end_writes c = ziti_close_write env c
step env (close cb) c = (ziti_close env cb c).0
step env (set_data_cb cb) c = (ziti_conn_set_data_cb env cb c).0
step env (flush ctx) c = on_flush env ctx c
step env (write_done id status) c = on_write_completed env id status c
step env (message_came m) c = queue_edge_message env m c
step env (channel_gone code) c = channel_closed env code c
step env (reply_came ctx m) c = connect_reply_cb env ctx m c
step env timed_out c = connect_timeout env c
step env (connect_on ctx session) c = process_connect env ctx session c
step env (service_came ctx a) c = connect_get_service_cb env ctx a c
step env (session_came ctx a) c = connect_get_net_session_cb env ctx a c
step env kept c = if (close_conn_internal env c).1 then c else (close_conn_internal env c).0

unfoldable pub run : List (Env × Event) → Conn → Conn
unfolding step
run [] c = c
run ((env, e) ∷ es) c = run es (step env e c)

-- Whether `ziti_write` takes a write.
abbrev pub is_ok : Option ZitiError → Bool
is_ok none = true
is_ok (some e) = false
