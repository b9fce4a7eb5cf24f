-- ===== src/Connect/Writes.antt =====
-- The writes of a connection on their way to its channel, in library/connect.c: messages made of
-- requests, the queue that is flushed, and the end of a write.
pub mod Ledger
pub mod Answered
use ziti_sdk_c.Base.{
  ℕ, zero, suc, ◌+◌, ◌/◌, ◌%◌, Bool, true, false, not, ◌&&◌, ◌||◌, List, [], ◌∷◌, ◌++◌, Option,
  none, some, ltb, leb, ◌==◌, if◌then◌else◌, length, take, drop, add32, add_size, write_u32,
  u32_mod,
}
use ziti_sdk_c.Errors.{ZitiError, invalid_state, connabort, timeout, gateway_unavailable}
use ziti_sdk_c.EdgeProtocol.ContentType.{data_type, state_closed}
use ziti_sdk_c.EdgeProtocol.HeaderId.{conn_id_header, seq_header, uuid_header, flags_header}
use ziti_sdk_c.Message.Hdrs.{Hdr}
use ziti_sdk_c.StringBuf.{StringBuf, string_buf_init_fixed, string_buf_appendn}
use ziti_sdk_c.Connect.State.{
  ConnState, initial, connecting, connected, accepting, close_write, timedout, disconnected, closed,
  rank, EdgeMessage, WriteCb, no_cb, on_disconnect_cb, client_cb, WriteStatus, written, uv_error,
  failed, WriteReq, Chained, ConnReq, Conn, Env, SendResult, taken, refused, refused_closing,
  edge_fin, edge_trace_uuid, edge_multipart, edge_stream, edge_multipart_msg, has_flag, set_flag,
  wrote, connect_done, client_code, conn_closed_sent, waiter_removed, left_waiting, closed_cb,
  freed, emit, conn_set_state, flush_connection,
}
use ziti_sdk_c.Connect.Requests.{on_disconnect, to_channel}

-- `req->cb(conn, status, req->ctx)`, if there is one.
unfoldable pub answer : Env → WriteStatus → WriteCb → Conn → Conn
answer env status no_cb c = c
answer env status on_disconnect_cb c = on_disconnect env c
answer env status (client_cb ctx) c = emit (wrote ctx status) c

-- The request with an address, and the others.
unfoldable pub remove_pending : ℕ → List Chained → Option (Chained × List Chained)
remove_pending id [] = none
remove_pending id (p ∷ ps) =
    if p.req.id == id
    then some (p, ps)
    else elim (remove_pending id ps) [ none ↦ none | some (q, qs) ↦ some (q, p ∷ qs) ]

-- `status ? status : (ssize_t) r->len`.
unfoldable pub status_of : Option ℕ → WriteReq → WriteStatus
status_of none r = written (length r.buf)
status_of (some e) r = uv_error e

-- The loop over a request and its chain.
unfoldable pub answer_all : Env → Option ℕ → List WriteReq → Conn → Conn
unfolding answer status_of
answer_all env status [] c = c
answer_all env status (r ∷ rs) c = answer_all env status rs (answer env (status_of status r) r.cb c)

unfoldable pub after_failure : Env → Option ℕ → Conn → Conn
after_failure env none c = c
after_failure env (some e) c = conn_set_state env disconnected c

unfoldable pub write_ended : Env → Option ℕ → Option (Chained × List Chained) → Conn → Conn
unfolding after_failure answer_all
write_ended env status none c = c
write_ended env status (some (p, ps)) c =
    answer_all env status (p.req ∷ p.chain)
      (record (after_failure env status c) { pending_wreqs = ps })

-- The address is that of a pending request; `status` is 0, or minus the number of an error.
unfoldable pub on_write_completed : Env → ℕ → Option ℕ → Conn → Conn
unfolding write_ended remove_pending
on_write_completed env id status c = write_ended env status (remove_pending id c.pending_wreqs) c

-- The loop that ends the requests of the queue.
unfoldable pub fail_wreqs : Env → WriteStatus → List WriteReq → Conn → Conn
unfolding answer
fail_wreqs env status [] c = c
fail_wreqs env status (r ∷ rs) c =
    fail_wreqs env status rs (answer env status r.cb (record c { wreqs = rs }))

abbrev pub failed_state : ZitiError → ConnState
failed_state timeout = timedout
failed_state _ = disconnected

unfoldable pub tell_closed : ZitiError → Option ℕ → Conn → Conn
tell_closed code none c = c
tell_closed gateway_unavailable (some ch) c = c
tell_closed _ (some ch) c = emit (conn_closed_sent ch c.conn_id) c

-- `ziti_channel_remove_waiter`, which does nothing without a channel.
unfoldable pub remove_waiter_of : Option ℕ → ℕ → Conn → Conn
remove_waiter_of none w c = c
remove_waiter_of (some ch) w c = emit (waiter_removed w) c

unfoldable pub drop_waiter : Option ℕ → Conn → Conn
unfolding remove_waiter_of
drop_waiter none c = c
drop_waiter (some w) c = remove_waiter_of c.channel w c

-- What an error does before the client hears of it.
unfoldable pub fail_conn : Env → Option ZitiError → Conn → Conn
unfolding tell_closed
fail_conn env none c = c
fail_conn env (some code) c =
    tell_closed code c.channel
      (record (conn_set_state env (failed_state code) c) { data_cb = false })

-- And what it does then.
unfoldable pub fail_queue : Env → Option ZitiError → Conn → Conn
unfolding fail_wreqs
fail_queue env none c = c
fail_queue env (some code) c = fail_wreqs env (failed code) c.wreqs c

unfoldable pub completed_req : Option ZitiError → ConnReq → ConnReq
completed_req code cr = record cr {
  cb = false;
  is_failed = elim code [ none ↦ cr.is_failed | some e ↦ true ];
  deadline = false;
  waiter = none;
}

-- Up to the call of `cr->cb`, and its reset.
unfoldable pub tell_done : Env → Option ZitiError → ConnReq → Conn → Conn
unfolding fail_conn drop_waiter completed_req
tell_done env code cr c = emit (connect_done code) (
    drop_waiter cr.waiter
      (record (fail_conn env code c) { conn_req = some (completed_req code cr) }))

unfoldable pub complete_with : Env → Option ZitiError → ConnReq → Conn → Conn
unfolding tell_done fail_queue
complete_with env code cr c =
    emit (left_waiting c.conn_id)
      (flush_connection env (fail_queue env code (tell_done env code cr c)))

unfoldable pub complete_if : Env → Option ZitiError → ConnReq → Bool → Conn → Conn
unfolding complete_with
complete_if env code cr true c = complete_with env code cr c
complete_if env code cr false c = c

unfoldable pub complete_req : Env → Option ZitiError → Option ConnReq → Conn → Conn
unfolding complete_if
complete_req env code none c = c
complete_req env code (some cr) c = complete_if env code cr cr.cb c

unfoldable pub complete_conn_req : Env → Option ZitiError → Conn → Conn
unfolding complete_req
complete_conn_req env code c = complete_req env code c.conn_req c

unfoldable pub tell_client : ZitiError → Bool → Conn → Conn
tell_client code true c = emit (client_code code) c
tell_client code false c = c

unfoldable pub closed_in : Env → ZitiError → ConnState → Conn → Conn
unfolding tell_client
closed_in env code connecting c = complete_conn_req env (some code) c
closed_in env code accepting c = complete_conn_req env (some code) c
closed_in env code connected c = tell_client code c.data_cb c
closed_in env code close_write c = tell_client code c.data_cb c
closed_in env code initial c = c
closed_in env code timedout c = c
closed_in env code disconnected c = c
closed_in env code closed c = c

-- `queue_edge_message` without a message: the channel has closed.
unfoldable pub channel_closed : Env → ZitiError → Conn → Conn
unfolding closed_in
channel_closed env code c = closed_in env code c.state (on_disconnect env c)
