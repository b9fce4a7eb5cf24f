-- ===== src/Connect/Requests.antt =====
-- What a client asks of a connection, in library/connect.c: writes, the end of its writes, the close,
-- and the disconnect behind it.
use ziti_sdk_c.Base.{
  ℕ, ◌+◌, Bool, true, false, not, ◌||◌, List, [], ◌∷◌, ◌++◌, Option, none, some, ltb, leb, ◌==◌,
  if◌then◌else◌, write_u32,
}
use ziti_sdk_c.Errors.{ZitiError, invalid_state, conn_closed, eof}
use ziti_sdk_c.EdgeProtocol.ContentType.{dial_failed}
use ziti_sdk_c.EdgeProtocol.HeaderId.{conn_id_header, seq_header, reply_for_header}
use ziti_sdk_c.Connect.State.{
  ConnState, initial, connecting, connected, accepting, close_write, timedout, disconnected, closed,
  rank, EdgeMessage, WriteCb, no_cb, on_disconnect_cb, Conn, Env, channel_send, fault, rem_receiver,
  emit, conn_set_state, flush_connection,
}

-- `TAILQ_INSERT_TAIL(&conn->wreqs, req, _next)` with a request from the allocator.
unfoldable pub queue_write : List ℕ → Bool → Bool → WriteCb → Conn → Conn
queue_write buf fin close cb c = record c {
  wreqs =
      c.wreqs
      ++ (record { id = c.next_req; buf = buf; eof = fin; close = close; message = none; cb = cb }
          ∷ []);
  next_req = c.next_req + 1;
}

-- `conn->state != Connected && conn->state != Connecting`.
abbrev pub takes_writes : ConnState → Bool
takes_writes connected = true
takes_writes connecting = true
takes_writes _ = false

unfoldable pub ziti_write : Env → List ℕ → WriteCb → Conn → Conn × Option ZitiError
unfolding queue_write
ziti_write env buf write_cb c =
    if c.fin_sent || not (takes_writes c.state)
    then (c, some invalid_state)
    else (flush_connection env (queue_write buf false false write_cb c), none)

unfoldable pub ziti_close_write : Env → Conn → Conn
unfolding queue_write
ziti_close_write env c =
    if c.fin_sent || leb (rank close_write) (rank c.state)
    then c
    else flush_connection env (record (queue_write [] true false no_cb c) { fin_sent = true })

-- Where the connection goes when it ends.
abbrev pub end_state : Bool → ConnState
end_state true = closed
end_state false = disconnected

unfoldable pub leave_channel : Option ℕ → Conn → Conn
leave_channel none c = c
leave_channel (some ch) c = emit (rem_receiver ch c.rt_conn_id) (record c { channel = none })

unfoldable pub on_disconnect : Env → Conn → Conn
unfolding leave_channel
on_disconnect env c = leave_channel c.channel (conn_set_state env (end_state c.close) c)

-- A request for the message that tells the peer.
unfoldable pub send_close : Env → Conn → Conn
unfolding queue_write
send_close env c = flush_connection env (queue_write [] false true on_disconnect_cb c)

unfoldable pub disconnect_in : Env → ConnState → Conn → Conn
unfolding on_disconnect send_close
disconnect_in env accepting c = send_close env c
disconnect_in env connecting c = send_close env c
disconnect_in env connected c = send_close env c
disconnect_in env close_write c = send_close env c
disconnect_in env timedout c = send_close env c
disconnect_in env initial c = on_disconnect env c
disconnect_in env disconnected c = on_disconnect env c
disconnect_in env closed c = on_disconnect env c

unfoldable pub without_channel : Env → Option ℕ → Conn → Conn
unfolding on_disconnect
without_channel env none c = on_disconnect env c
without_channel env (some ch) c = c

unfoldable pub ziti_disconnect_async : Env → Conn → Conn
unfolding without_channel disconnect_in
ziti_disconnect_async env c =
    let c' = without_channel env c.channel c in disconnect_in env c'.state c'

-- `ziti_channel_send_message` on `conn->channel`, whatever comes of it.
unfoldable pub to_channel : Option ℕ → EdgeMessage → Conn → Conn
to_channel none m c = emit fault c
to_channel (some ch) m c = emit (channel_send ch m) c

unfoldable pub reject_dial_request : ℕ → Option ℕ → ℕ → List ℕ → Conn → Conn
unfolding to_channel
reject_dial_request conn_id ch req_id reason c =
    to_channel ch
      (record {
        content = dial_failed;
        hdrs =
            record { header_id = conn_id_header; size = 4; value = write_u32 conn_id }
            ∷ record { header_id = seq_header; size = 4; value = write_u32 0 }
            ∷ record { header_id = reply_for_header; size = 4; value = write_u32 req_id }
            ∷ [];
        body = reason;
      })
      c

-- "rejected by application".
abbrev pub rejected_by_application : List ℕ
rejected_by_application =
    b'r' ∷ b'e' ∷ b'j' ∷ b'e' ∷ b'c' ∷ b't' ∷ b'e' ∷ b'd' ∷ b' ' ∷ b'b' ∷ b'y' ∷ b' ' ∷ b'a' ∷ b'p'
    ∷ b'p' ∷ b'l' ∷ b'i' ∷ b'c' ∷ b'a' ∷ b't' ∷ b'i' ∷ b'o' ∷ b'n' ∷ []

unfoldable pub disconnect_now : Env → ConnState → Conn → Conn
unfolding reject_dial_request
disconnect_now env accepting c =
    conn_set_state env (end_state c.close)
      (reject_dial_request c.conn_id c.channel c.dial_req_seq rejected_by_application c)
disconnect_now env disconnected c = conn_set_state env (end_state c.close) c
disconnect_now env closed c = conn_set_state env (end_state c.close) c
disconnect_now env initial c = ziti_disconnect_async env (record c { disconnecting = true })
disconnect_now env connecting c = ziti_disconnect_async env (record c { disconnecting = true })
disconnect_now env connected c = ziti_disconnect_async env (record c { disconnecting = true })
disconnect_now env close_write c = ziti_disconnect_async env (record c { disconnecting = true })
disconnect_now env timedout c = ziti_disconnect_async env (record c { disconnecting = true })

unfoldable pub unless_disconnecting : Env → Bool → Conn → Conn
unfolding disconnect_now
unless_disconnecting env true c = c
unless_disconnecting env false c = disconnect_now env c.state c

unfoldable pub ziti_disconnect : Env → Conn → Conn
unfolding unless_disconnecting
ziti_disconnect env c = unless_disconnecting env c.disconnecting c

unfoldable pub close_if_open : Env → Bool → Bool → Conn → Conn × Option ZitiError
close_if_open env true close_cb c = (c, some conn_closed)
close_if_open env false close_cb c =
    (ziti_disconnect env (record c { close = true; close_cb = close_cb; data_cb = false }), none)

-- For a connection of type `Transport`.
unfoldable pub ziti_close : Env → Bool → Conn → Conn × Option ZitiError
unfolding close_if_open
ziti_close env close_cb c = close_if_open env c.close close_cb c

-- `!TAILQ_EMPTY(&conn->in_q) || buffer_available(conn->inbound) > 0`.
abbrev pub has_input : Conn → Bool
has_input c = elim c.in_q [ [] ↦ ltb 0 c.inbound.available | m ∷ ms ↦ true ]

unfoldable pub ziti_conn_set_data_cb : Env → Bool → Conn → Conn × Option ZitiError
ziti_conn_set_data_cb env cb c =
    if leb (rank disconnected) (rank c.state)
    then (c, some conn_closed)
    else if c.fin_recv == 2
    then (c, some eof)
    else (if has_input c
        then (flush_connection env (record c { data_cb = cb }), none)
        else (record c { data_cb = cb }, none))
