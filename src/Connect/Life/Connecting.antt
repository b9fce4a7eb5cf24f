-- ===== src/Connect/Life/Connecting.antt =====
-- An attempt to connect, and the messages that end it, lose no callback of a write.
use ziti_sdk_c.Base.{
  ℕ, ◌+◌, ◌≡◌, refl, ap, ◌∙◌, Bool, true, false, List, [], ◌∷◌, Option, none, some, leb,
  if◌then◌else◌,
}
use ziti_sdk_c.Errors.{ZitiError, invalid_state, service_unavailable, gateway_unavailable}
use ziti_sdk_c.Connect.State.{
  ConnState, initial, connecting, connected, accepting, close_write, timedout, disconnected, closed,
  ConnReq, Conn, Env, add_receiver, connect_sent, force_connect, joined_waiting, service_asked,
  session_asked, session_refreshed, posture_sent, api_session_refreshed, fault, emit,
}
use ziti_sdk_c.Connect.Writes.Ledger.{balance, ledger, ledger_balance, emit-ledger}
use ziti_sdk_c.Connect.Writes.Answered.{complete_conn_req-balance}
use ziti_sdk_c.Connect.Dial.{
  Context, Session, Route, Choice, choose, first_choice, connect_message, start_with, start_in,
  ziti_channel_start_connection, force_all, connect_over, ziti_connect, refresh_if, with_deadline,
  connect_session, connect_with, ask_service, connect_service, connect_req, process_connect,
  max_connect_retry, retry_with, is_connecting, restart_connect, ServiceAnswer, service_found,
  service_failed, with_service, connect_get_service_cb, SessionAnswer, session_found,
  session_failed, session_error, connect_get_net_session_cb,
}

module _ (ctx : ℕ) where
  pub either :
      (b : Bool) (x y c : Conn)
      → balance ctx x ≡ balance ctx c
      → balance ctx y ≡ balance ctx c
      → balance ctx (if b then x else y) ≡ balance ctx c
  either true x y c p q = p
  either false x y c p q = q

  start_with-ledger :
      (x : Context) (s : Session) (ch : ℕ) (r : Option ConnReq) (c : Conn)
      → ledger ctx (start_with x s ch r c) ≡ ledger ctx c
  unfolding start_with
  start_with-ledger x s ch none c = emit-ledger ctx fault c refl
  start_with-ledger x s ch (some req) c =
      let linked : Conn = record c {
        channel = some ch;
        conn_req = some (record req { waiter = some x.waiter });
      } in
      emit-ledger ctx (connect_sent ch (connect_message x s req c))
        (emit (add_receiver ch c.rt_conn_id) linked) refl
      ∙ emit-ledger ctx (add_receiver ch c.rt_conn_id) linked refl

  start_in-ledger :
      (x : Context) (s : Session) (ch : ℕ) (st : ConnState) (c : Conn)
      → ledger ctx (start_in x s ch st c) ≡ ledger ctx c
  unfolding start_in
  start_in-ledger x s ch connecting c = start_with-ledger x s ch c.conn_req c
  start_in-ledger x s ch initial c = refl
  start_in-ledger x s ch connected c = refl
  start_in-ledger x s ch accepting c = refl
  start_in-ledger x s ch close_write c = refl
  start_in-ledger x s ch timedout c = refl
  start_in-ledger x s ch disconnected c = refl
  start_in-ledger x s ch closed c = refl

  force_all-ledger : (chs : List Route) (c : Conn) → ledger ctx (force_all chs c) ≡ ledger ctx c
  unfolding force_all
  force_all-ledger [] c = refl
  force_all-ledger (ch ∷ chs) c =
      force_all-ledger chs (emit (force_connect ch.channel) c)
      ∙ emit-ledger ctx (force_connect ch.channel) c refl

  connect_over-ledger :
      (x : Context) (s : Session) (t : Choice) (best : Option Route) (c : Conn)
      → ledger ctx (connect_over x s t best c).0 ≡ ledger ctx c
  unfolding connect_over ziti_channel_start_connection
  connect_over-ledger x s t (some best) c = start_in-ledger x s best.channel c.state c
  connect_over-ledger x s t none c =
      emit-ledger ctx (joined_waiting c.conn_id) (force_all t.disconnected c) refl
      ∙ force_all-ledger t.disconnected c

  refresh_if-ledger : (b : Bool) (c : Conn) → ledger ctx (refresh_if b c) ≡ ledger ctx c
  unfolding refresh_if
  refresh_if-ledger true c = emit-ledger ctx session_refreshed c refl
  refresh_if-ledger false c = refl

  ziti_connect-ledger :
      (x : Context) (s : Session) (c : Conn) → ledger ctx (ziti_connect x s c).0 ≡ ledger ctx c
  unfolding ziti_connect
  ziti_connect-ledger x s c =
      let t = choose x.channels s.edge_routers first_choice in
      connect_over-ledger x s t t.best (record c { channel = none })

  module _ (env : Env) where
    connect_session-balance :
        (x : Context) (s : Session) (ers : List ℕ) (c : Conn)
        → balance ctx (connect_session env x s ers c) ≡ balance ctx c
    unfolding connect_session
    connect_session-balance x s [] c =
        either s.refresh _ _ c (ap (ledger_balance ctx) (emit-ledger ctx session_asked c refl))
          (complete_conn_req-balance ctx env (some gateway_unavailable) c)
    connect_session-balance x s (er ∷ ers) c =
        let due : Conn = record c { conn_req = with_deadline c.conn_req } in
        ap (ledger_balance ctx) (refresh_if-ledger s.refresh (ziti_connect x s due).0)
        ∙ ap (ledger_balance ctx) (ziti_connect-ledger x s due)

    connect_with-balance :
        (x : Context) (s : Option Session) (c : Conn)
        → balance ctx (connect_with env x s c) ≡ balance ctx c
    unfolding connect_with
    connect_with-balance x none c = ap (ledger_balance ctx) (emit-ledger ctx session_asked c refl)
    connect_with-balance x (some s) c = connect_session-balance x s s.edge_routers c

    ask_service-balance :
        (rc : Option ZitiError) (c : Conn) → balance ctx (ask_service env rc c) ≡ balance ctx c
    unfolding ask_service
    ask_service-balance none c = ap (ledger_balance ctx) (emit-ledger ctx service_asked c refl)
    ask_service-balance (some rc) c =
        complete_conn_req-balance ctx env (some rc) (emit service_asked c)
        ∙ ap (ledger_balance ctx) (emit-ledger ctx service_asked c refl)

    connect_service-balance :
        (x : Context) (s : Option Session) (id : Option ℕ) (c : Conn)
        → balance ctx (connect_service env x s id c) ≡ balance ctx c
    unfolding connect_service
    connect_service-balance x s none c = ask_service-balance x.available c
    connect_service-balance x s (some id) c =
        connect_with-balance x _ (emit posture_sent c)
        ∙ ap (ledger_balance ctx) (emit-ledger ctx posture_sent c refl)

    connect_req-balance :
        (x : Context) (s : Option Session) (r : Option ConnReq) (c : Conn)
        → balance ctx (connect_req env x s r c) ≡ balance ctx c
    unfolding connect_req
    connect_req-balance x s none c = ap (ledger_balance ctx) (emit-ledger ctx fault c refl)
    connect_req-balance x s (some req) c =
        either x.authenticated _ _ c (connect_service-balance x s req.service_id c)
          (complete_conn_req-balance ctx env (some invalid_state) c)

    pub process_connect-balance :
        (x : Context) (s : Option Session) (c : Conn)
        → balance ctx (process_connect env x s c) ≡ balance ctx c
    unfolding process_connect
    process_connect-balance x s c = connect_req-balance x s c.conn_req c

    retry_with-balance :
        (x : Context) (r : Option ConnReq) (b : Bool) (c : Conn)
        → balance ctx (retry_with env x r b c) ≡ balance ctx c
    unfolding retry_with
    retry_with-balance x none b c = refl
    retry_with-balance x (some req) false c = refl
    retry_with-balance x (some req) true c =
        let again : Conn = record c {
          conn_req = some (record req { retry_count = req.retry_count + 1 });
        } in
        either (leb max_connect_retry (req.retry_count + 1)) _ _ c
          (complete_conn_req-balance ctx env (some service_unavailable) again)
          (process_connect-balance x none (record again { channel = none }))

    pub restart_connect-balance :
        (x : Context) (c : Conn) → balance ctx (restart_connect env x c) ≡ balance ctx c
    unfolding restart_connect
    restart_connect-balance x c = retry_with-balance x c.conn_req (is_connecting c.state) c

    pub get_service_cb-balance :
        (x : Context) (a : ServiceAnswer) (c : Conn)
        → balance ctx (connect_get_service_cb env x a c) ≡ balance ctx c
    unfolding connect_get_service_cb
    get_service_cb-balance x (service_found false id encryption) c =
        complete_conn_req-balance ctx env (some service_unavailable) c
    get_service_cb-balance x (service_found true id encryption) c =
        process_connect-balance x none
          (record c { conn_req = with_service id c.conn_req; encrypted = encryption })
    get_service_cb-balance x (service_failed code) c =
        complete_conn_req-balance ctx env (some code) c

    session_error-balance :
        (x : Context) (code : ZitiError) (c : Conn)
        → balance ctx (session_error env x code c) ≡ balance ctx c
    unfolding session_error
    session_error-balance x ZitiError.not_authorized c =
        restart_connect-balance x (emit api_session_refreshed c)
        ∙ ap (ledger_balance ctx) (emit-ledger ctx api_session_refreshed c refl)
    session_error-balance x ZitiError.not_found c =
        complete_conn_req-balance ctx env (some service_unavailable) c
    session_error-balance x code c = complete_conn_req-balance ctx env (some code) c

    pub get_net_session_cb-balance :
        (x : Context) (a : SessionAnswer) (c : Conn)
        → balance ctx (connect_get_net_session_cb env x a c) ≡ balance ctx c
    unfolding connect_get_net_session_cb
    get_net_session_cb-balance x (session_found s) c = process_connect-balance x (some s) c
    get_net_session_cb-balance x (session_failed code) c = session_error-balance x code c
