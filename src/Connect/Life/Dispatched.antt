-- ===== src/Connect/Life/Dispatched.antt =====
-- The messages that reach a connection lose no callback of a write.
use ziti_sdk_c.Base.{
  ℕ, ◌≡◌, refl, ap, sym, ◌∙◌, subst, inl, inr, Bool, true, false, not, ◌&&◌, List, [], ◌∷◌, Option,
  none, some, arith, ◌==◌, if◌then◌else◌, Bool-cases, take,
}
use ziti_sdk_c.Errors.{ZitiError, conn_closed, timeout}
use ziti_sdk_c.EdgeProtocol.ContentType.{data_type, state_closed, state_connected}
use ziti_sdk_c.EdgeProtocol.HeaderId.{conn_id_header, public_key_header}
use ziti_sdk_c.Message.Query.{message_get_int32_header, message_get_bytes_header}
use ziti_sdk_c.Connect.State.{
  ConnState, initial, connecting, connected, accepting, close_write, timedout, disconnected, closed,
  EdgeMessage, ConnReq, Conn, Env, session_invalidated, rem_receiver, fault, conn_set_state,
  flush_connection,
}
use ziti_sdk_c.Connect.Writes.{complete_conn_req}
use ziti_sdk_c.Connect.Writes.Ledger.{balance, ledger, ledger_balance, emit-ledger}
use ziti_sdk_c.Connect.Writes.Answered.{complete_conn_req-balance}
use ziti_sdk_c.Connect.Service.{create_message, flush_to_service}
use ziti_sdk_c.Connect.Service.Flushed.{flush_to_service_lem}
use ziti_sdk_c.Connect.Receiving.{inbound_flags}
use ziti_sdk_c.Connect.Dial.{Context}
use ziti_sdk_c.Connect.Dispatch.{
  strncmp_eq, invalid_session, keys_set, crypto_with, crypto_in, establish_crypto, queue_header,
  send_crypto_header, connected_as, state_connected_in, forget_channel, invalidate, refused_as,
  state_closed_in, data_in, learn_caps, learn_seq, by_content, is_for, learned,
  process_edge_message, process_all, flush_if, flush_to_client, on_flush, timeout_in,
  connect_timeout, answered_req, reply_of, connect_reply_cb,
}
use ziti_sdk_c.Connect.Life.Asked.{ziti_disconnect-balance}
use ziti_sdk_c.Connect.Life.Received.{inbound-ledger, flush_data-ledger}
use ziti_sdk_c.Connect.Life.Connecting.{either, restart_connect-balance}

module _ (ctx : ℕ) (env : Env) where
  keys_set-ledger :
      (o : Option (List ℕ × List ℕ)) (c : Conn) → ledger ctx (keys_set o c).0 ≡ ledger ctx c
  unfolding keys_set
  keys_set-ledger none c = refl
  keys_set-ledger (some (rx, tx)) c = refl

  crypto_with-ledger :
      (b : Bool) (o : Option (ℕ × List ℕ)) (c : Conn)
      → ledger ctx (crypto_with env b o c).0 ≡ ledger ctx c
  unfolding crypto_with
  crypto_with-ledger b none c = refl
  crypto_with-ledger b (some (len, key)) c = keys_set-ledger (env.init_crypto (take len key) b) c

  crypto_in-ledger :
      (m : EdgeMessage) (st : ConnState) (c : Conn)
      → ledger ctx (crypto_in env m st c).0 ≡ ledger ctx c
  unfolding crypto_in
  crypto_in-ledger m connecting c =
      crypto_with-ledger false (message_get_bytes_header m.hdrs public_key_header) c
  crypto_in-ledger m accepting c =
      crypto_with-ledger true (message_get_bytes_header m.hdrs public_key_header) c
  crypto_in-ledger m initial c = refl
  crypto_in-ledger m connected c = refl
  crypto_in-ledger m close_write c = refl
  crypto_in-ledger m timedout c = refl
  crypto_in-ledger m disconnected c = refl
  crypto_in-ledger m closed c = refl

  establish_crypto-ledger :
      (m : EdgeMessage) (c : Conn) → ledger ctx (establish_crypto env m c).0 ≡ ledger ctx c
  unfolding establish_crypto
  establish_crypto-ledger m c = elim (Bool-cases c.encrypted) [
    | inl sealed ↦
        subst
          (λ (b : Bool).
            ledger ctx (if b then crypto_in env m c.state c else (c, none)).0 ≡ ledger ctx c)
          (sym sealed) (crypto_in-ledger m c.state c)
    | inr plain ↦
        subst
          (λ (b : Bool).
            ledger ctx (if b then crypto_in env m c.state c else (c, none)).0 ≡ ledger ctx c)
          (sym plain) refl
  ]

  send_crypto_header-balance : (c : Conn) → balance ctx (send_crypto_header env c) ≡ balance ctx c
  unfolding send_crypto_header queue_header create_message flush_connection
  send_crypto_header-balance c =
      either ctx c.encrypted (queue_header env (env.init_push c.tx) c) c c (omega arith) refl

  connected_as-balance :
      (c : Conn) (rc : Option ZitiError) → balance ctx (connected_as env (c, rc)) ≡ balance ctx c
  unfolding connected_as conn_set_state
  connected_as-balance c (some e) =
      complete_conn_req-balance ctx env (some e) (conn_set_state env disconnected c)
  connected_as-balance c none =
      complete_conn_req-balance ctx env none
        (conn_set_state env connected (send_crypto_header env c))
      ∙ send_crypto_header-balance c

  state_connected_in-balance :
      (m : EdgeMessage) (st : ConnState) (c : Conn)
      → balance ctx (state_connected_in env m st c) ≡ balance ctx c
  unfolding state_connected_in
  state_connected_in-balance m connecting c =
      let t = establish_crypto env m c in
      connected_as-balance t.0 t.1 ∙ ap (ledger_balance ctx) (establish_crypto-ledger m c)
  state_connected_in-balance m accepting c = connected_as-balance c none
  state_connected_in-balance m timedout c = ziti_disconnect-balance ctx env c
  state_connected_in-balance m disconnected c = ziti_disconnect-balance ctx env c
  state_connected_in-balance m closed c = ziti_disconnect-balance ctx env c
  state_connected_in-balance m initial c = refl
  state_connected_in-balance m connected c = refl
  state_connected_in-balance m close_write c = refl

  forget_channel-ledger :
      (ch : Option ℕ) (c : Conn) → ledger ctx (forget_channel ch c) ≡ ledger ctx c
  unfolding forget_channel
  forget_channel-ledger none c = refl
  forget_channel-ledger (some ch) c =
      emit-ledger ctx (rem_receiver ch c.rt_conn_id) (record c { channel = none }) refl

  invalidate-ledger : (r : Option ConnReq) (c : Conn) → ledger ctx (invalidate r c) ≡ ledger ctx c
  unfolding invalidate
  invalidate-ledger none c = emit-ledger ctx fault c refl
  invalidate-ledger (some req) c = emit-ledger ctx session_invalidated c refl

  -- An invalid session, up to the new attempt.
  session_lost-ledger :
      (c : Conn) → ledger ctx (forget_channel c.channel (invalidate c.conn_req c)) ≡ ledger ctx c
  session_lost-ledger c =
      forget_channel-ledger c.channel (invalidate c.conn_req c) ∙ invalidate-ledger c.conn_req c

  refused_as-balance :
      (x : Context) (b : Bool) (c : Conn) → balance ctx (refused_as env x b c) ≡ balance ctx c
  unfolding refused_as conn_set_state
  refused_as-balance x true c =
      restart_connect-balance ctx env x
        (conn_set_state env connecting (forget_channel c.channel (invalidate c.conn_req c)))
      ∙ ap (ledger_balance ctx) (session_lost-ledger c)
  refused_as-balance x false c =
      complete_conn_req-balance ctx env (some conn_closed) (conn_set_state env disconnected c)

  state_closed_in-balance :
      (x : Context) (m : EdgeMessage) (st : ConnState) (c : Conn)
      → balance ctx (state_closed_in env x m st c) ≡ balance ctx c
  unfolding state_closed_in conn_set_state
  state_closed_in-balance x m connecting c =
      refused_as-balance x (strncmp_eq invalid_session m.body) c
  state_closed_in-balance x m accepting c =
      refused_as-balance x (strncmp_eq invalid_session m.body) c
  state_closed_in-balance x m connected c = refl
  state_closed_in-balance x m close_write c = refl
  state_closed_in-balance x m initial c = refl
  state_closed_in-balance x m timedout c = refl
  state_closed_in-balance x m disconnected c = refl
  state_closed_in-balance x m closed c = refl

  data_in-balance :
      (m : EdgeMessage) (st : ConnState) (c : Conn)
      → balance ctx (data_in env m st c) ≡ balance ctx c
  unfolding data_in
  data_in-balance m connected c = ap (ledger_balance ctx) (inbound-ledger ctx env m c)
  data_in-balance m close_write c = ap (ledger_balance ctx) (inbound-ledger ctx env m c)
  data_in-balance m initial c = refl
  data_in-balance m connecting c = refl
  data_in-balance m accepting c = refl
  data_in-balance m timedout c = refl
  data_in-balance m disconnected c = refl
  data_in-balance m closed c = refl

  by_content-balance :
      (x : Context) (m : EdgeMessage) (c : Conn)
      → balance ctx (by_content env x m c) ≡ balance ctx c
  unfolding by_content
  by_content-balance x m c =
      either ctx (m.content == state_closed) _ _ c (state_closed_in-balance x m c.state c) (
        either ctx (m.content == data_type) _ _ c (data_in-balance m c.state c) (
          either ctx (m.content == state_connected) _ _ c (state_connected_in-balance m c.state c)
            refl))

  learn_seq-ledger :
      (b : Bool) (m : EdgeMessage) (c : Conn) → ledger ctx (learn_seq b m c) ≡ ledger ctx c
  unfolding learn_seq
  learn_seq-ledger true m c = refl
  learn_seq-ledger false m c = refl

  process_edge_message-balance :
      (x : Context) (m : EdgeMessage) (c : Conn)
      → balance ctx (process_edge_message env x m c) ≡ balance ctx c
  unfolding process_edge_message learned learn_caps
  process_edge_message-balance x m c =
      either ctx (is_for (message_get_int32_header m.hdrs conn_id_header) c.rt_conn_id) _ _ c
        (by_content-balance x m (learned m c)
          ∙ ap (ledger_balance ctx) (learn_seq-ledger _ m (learn_caps (inbound_flags m.hdrs) c)))
        (ap (ledger_balance ctx) (emit-ledger ctx fault c refl))

  process_all-balance :
      (x : Context) (ms : List EdgeMessage) (c : Conn)
      → balance ctx (process_all env x ms c) ≡ balance ctx c
  unfolding process_all
  process_all-balance x [] c = refl
  process_all-balance x (m ∷ ms) c =
      process_all-balance x ms (process_edge_message env x m (record c { in_q = ms }))
      ∙ process_edge_message-balance x m (record c { in_q = ms })

  flush_if-balance : (b : Bool) (c : Conn) → balance ctx (flush_if env b c).0 ≡ balance ctx c
  unfolding flush_if
  flush_if-balance true c = ap (ledger_balance ctx) (flush_data-ledger ctx env c)
  flush_if-balance false c = refl

  flush_to_client-balance :
      (x : Context) (c : Conn) → balance ctx (flush_to_client env x c).0 ≡ balance ctx c
  unfolding flush_to_client
  flush_to_client-balance x c =
      let c' : Conn = process_all env x c.in_q c in
      flush_if-balance c'.data_cb c' ∙ process_all-balance x c.in_q c

  pub on_flush-balance : (x : Context) (c : Conn) → balance ctx (on_flush env x c) ≡ balance ctx c
  unfolding on_flush
  on_flush-balance x c =
      let t = flush_to_client env x c in
      let u = flush_to_service env t.0 in
      either ctx (not t.1 && not u.1) (record (u.0) { flusher = false }) u.0 u.0 refl refl
      ∙ (flush_to_service_lem ctx env t.0).0
      ∙ flush_to_client-balance x c

  timeout_in-balance :
      (st : ConnState) (c : Conn) → balance ctx (timeout_in env st c) ≡ balance ctx c
  unfolding timeout_in
  timeout_in-balance connecting c =
      ziti_disconnect-balance ctx env (complete_conn_req env (some timeout) c)
      ∙ complete_conn_req-balance ctx env (some timeout) c
  timeout_in-balance accepting c =
      ziti_disconnect-balance ctx env (complete_conn_req env (some timeout) c)
      ∙ complete_conn_req-balance ctx env (some timeout) c
  timeout_in-balance initial c = refl
  timeout_in-balance connected c = refl
  timeout_in-balance close_write c = refl
  timeout_in-balance timedout c = refl
  timeout_in-balance disconnected c = refl
  timeout_in-balance closed c = refl

  pub connect_timeout-balance : (c : Conn) → balance ctx (connect_timeout env c) ≡ balance ctx c
  unfolding connect_timeout
  connect_timeout-balance c = timeout_in-balance c.state c

  reply_of-balance :
      (x : Context) (m : Option EdgeMessage) (c : Conn)
      → balance ctx (reply_of env x m c) ≡ balance ctx c
  unfolding reply_of conn_set_state
  reply_of-balance x none c =
      complete_conn_req-balance ctx env (some conn_closed) (conn_set_state env disconnected c)
  reply_of-balance x (some m) c =
      either ctx (m.content == state_closed) _ _ c
        (either ctx (strncmp_eq invalid_session m.body) _ _ c
          (restart_connect-balance ctx env x (forget_channel c.channel (invalidate c.conn_req c))
            ∙ ap (ledger_balance ctx) (session_lost-ledger c))
          (refused_as-balance x false c))
        (either ctx (m.content == state_connected) _ _ c (state_connected_in-balance m c.state c)
          (ziti_disconnect-balance ctx env c))

  pub connect_reply_cb-balance :
      (x : Context) (m : Option EdgeMessage) (c : Conn)
      → balance ctx (connect_reply_cb env x m c) ≡ balance ctx c
  unfolding connect_reply_cb
  connect_reply_cb-balance x m c =
      reply_of-balance x m (record c { conn_req = answered_req c.conn_req })
