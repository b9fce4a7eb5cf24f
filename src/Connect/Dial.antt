-- ===== src/Connect/Dial.antt =====
-- How a connection finds a channel, in library/connect.c: `process_connect`, `ziti_connect` and
-- `ziti_channel_start_connection`, and the attempt that starts again.
pub mod Best
use ziti_sdk_c.Base.{
  ℕ, zero, suc, ◌+◌, ◌-◌, ◌^◌, Bool, true, false, List, [], ◌∷◌, ◌++◌, Option, none, some, ltb, leb,
  ◌==◌, if◌then◌else◌, length, write_u32,
}
use ziti_sdk_c.Errors.{
  ZitiError, invalid_state, service_unavailable, gateway_unavailable, not_authorized, not_found,
}
use ziti_sdk_c.EdgeProtocol.ContentType.{connect}
use ziti_sdk_c.EdgeProtocol.HeaderId.{
  conn_id_header, seq_header, caller_id_header, public_key_header, terminator_identity_header,
  app_data_header, connection_marker_header,
}
use ziti_sdk_c.Message.Hdrs.{Hdr}
use ziti_sdk_c.Channel.State.{ChannelState, uint64_max}
use ziti_sdk_c.Connect.State.{
  ConnState, initial, connecting, connected, accepting, close_write, timedout, disconnected, closed,
  EdgeMessage, ConnReq, Conn, Env, add_receiver, connect_sent, force_connect, joined_waiting,
  service_asked, session_asked, session_refreshed, api_session_refreshed, posture_sent, fault, emit,
  conn_set_state, set_flag, edge_stream, init_transport_conn,
}
use ziti_sdk_c.Connect.Writes.{complete_conn_req}

-- A channel of the context, by its address.
pub record Route : Type 0 where
  pub channel : ℕ
  pub state : ChannelState
  pub latency : ℕ

-- `ziti_session`; a router stands for its name.
pub record Session : Type 0 where
  pub token : List ℕ
  pub edge_routers : List ℕ
  pub refresh : Bool

-- What the attempt asks of the context, which keeps the sessions: whether it is authenticated, its session for the service, the
-- channel of a router, the result of `ziti_service_available`, the name of the identity, the
-- connection's marker and public key, and the address of the waiter.
pub record Context : Type 0 where
  pub authenticated : Bool
  pub session : Option Session
  pub channels : ℕ → Option Route
  pub available : Option ZitiError
  pub identity_name : List ℕ
  pub marker : List ℕ
  pub public_key : List ℕ
  pub waiter : ℕ

-- The variables of the loop in `ziti_connect`.
pub record Choice : Type 0 where
  pub best : Option Route
  pub best_latency : ℕ
  pub disconnected : List Route

unfoldable pub consider_in : ChannelState → Route → Choice → Choice
consider_in ChannelState.connected ch t =
    if ltb ch.latency t.best_latency
    then record t { best = some ch; best_latency = ch.latency }
    else t
consider_in ChannelState.disconnected ch t = record t { disconnected = t.disconnected ++ (ch ∷ []) }
consider_in ChannelState.initial ch t = t
consider_in ChannelState.connecting ch t = t
consider_in ChannelState.closed ch t = t

unfoldable pub consider : Option Route → Choice → Choice
unfolding consider_in
consider none t = t
consider (some ch) t = consider_in ch.state ch t

unfoldable pub choose : (ℕ → Option Route) → List ℕ → Choice → Choice
unfolding consider
choose channels [] t = t
choose channels (er ∷ ers) t = choose channels ers (consider (channels er) t)

unfoldable pub first_choice : Choice
first_choice = record { best = none; best_latency = uint64_max; disconnected = [] }

abbrev bytes_header : ℕ → List ℕ → Hdr
bytes_header id value = record { header_id = id; size = length value; value = value }

abbrev header_of : ℕ → Option (List ℕ) → List Hdr
header_of id none = []
header_of id (some value) = bytes_header id value ∷ []

abbrev key_header : Bool → List ℕ → List Hdr
key_header true key = bytes_header public_key_header key ∷ []
key_header false key = []

-- The request to an edge router.
unfoldable pub connect_message : Context → Session → ConnReq → Conn → EdgeMessage
connect_message ctx s req c = record {
  content = connect;
  hdrs =
      record { header_id = conn_id_header; size = 4; value = write_u32 c.rt_conn_id }
      ∷ bytes_header connection_marker_header ctx.marker
      ∷ record { header_id = seq_header; size = 4; value = write_u32 0 }
      ∷ bytes_header caller_id_header ctx.identity_name
      ∷ (key_header c.encrypted ctx.public_key
          ++ (header_of terminator_identity_header req.identity
              ++ header_of app_data_header req.app_data));
  body = s.token;
}

unfoldable pub start_with : Context → Session → ℕ → Option ConnReq → Conn → Conn
unfolding connect_message
start_with ctx s ch none c = emit fault c
start_with ctx s ch (some req) c = emit (connect_sent ch (connect_message ctx s req c)) (
    emit (add_receiver ch c.rt_conn_id)
      (record c { channel = some ch; conn_req = some (record req { waiter = some ctx.waiter }) }))

unfoldable pub start_in : Context → Session → ℕ → ConnState → Conn → Conn
unfolding start_with
start_in ctx s ch connecting c = start_with ctx s ch c.conn_req c
start_in ctx s ch initial c = c
start_in ctx s ch connected c = c
start_in ctx s ch accepting c = c
start_in ctx s ch close_write c = c
start_in ctx s ch timedout c = c
start_in ctx s ch disconnected c = c
start_in ctx s ch closed c = c

unfoldable pub ziti_channel_start_connection : Context → Session → ℕ → Conn → Conn
unfolding start_in
ziti_channel_start_connection ctx s ch c = start_in ctx s ch c.state c

unfoldable pub force_all : List Route → Conn → Conn
force_all [] c = c
force_all (ch ∷ chs) c = force_all chs (emit (force_connect ch.channel) c)

-- The result says whether a channel was found.
unfoldable pub connect_over : Context → Session → Choice → Option Route → Conn → Conn × Bool
unfolding force_all
connect_over ctx s t (some best) c = (ziti_channel_start_connection ctx s best.channel c, true)
connect_over ctx s t none c = (emit (joined_waiting c.conn_id) (force_all t.disconnected c), false)

unfoldable pub ziti_connect : Context → Session → Conn → Conn × Bool
unfolding choose connect_over
ziti_connect ctx s c =
    let t = choose ctx.channels s.edge_routers first_choice in
    connect_over ctx s t t.best (record c { channel = none })

unfoldable pub refresh_if : Bool → Conn → Conn
refresh_if true c = emit session_refreshed c
refresh_if false c = c

unfoldable pub with_deadline : Option ConnReq → Option ConnReq
with_deadline none = none
with_deadline (some req) =
    some (if req.connect_timeout_seconds == 0 then req else record req { deadline = true })

-- With a session: its routers, or the request for one that has some.
unfoldable pub connect_session : Env → Context → Session → List ℕ → Conn → Conn
unfolding refresh_if with_deadline
connect_session env ctx s [] c =
    if s.refresh then emit session_asked c else complete_conn_req env (some gateway_unavailable) c
connect_session env ctx s (er ∷ ers) c =
    refresh_if s.refresh (ziti_connect ctx s (record c { conn_req = with_deadline c.conn_req })).0

unfoldable pub connect_with : Env → Context → Option Session → Conn → Conn
unfolding connect_session
connect_with env ctx none c = emit session_asked c
connect_with env ctx (some s) c = connect_session env ctx s s.edge_routers c

abbrev first_some : Option Session → Option Session → Option Session
first_some none s = s
first_some (some t) s = some t

unfoldable pub ask_service : Env → Option ZitiError → Conn → Conn
ask_service env none c = emit service_asked c
ask_service env (some rc) c = complete_conn_req env (some rc) (emit service_asked c)

unfoldable pub connect_service : Env → Context → Option Session → Option ℕ → Conn → Conn
unfolding ask_service connect_with
connect_service env ctx session none c = ask_service env ctx.available c
connect_service env ctx session (some id) c =
    connect_with env ctx (first_some session ctx.session) (emit posture_sent c)

unfoldable pub connect_req : Env → Context → Option Session → Option ConnReq → Conn → Conn
unfolding connect_service
connect_req env ctx session none c = emit fault c
connect_req env ctx session (some req) c =
    if ctx.authenticated
    then connect_service env ctx session req.service_id c
    else complete_conn_req env (some invalid_state) c

-- What the controller and the context call back is an event of its own.
unfoldable pub process_connect : Env → Context → Option Session → Conn → Conn
unfolding connect_req
process_connect env ctx session c = connect_req env ctx session c.conn_req c

abbrev pub max_connect_retry : ℕ
max_connect_retry = 3

unfoldable pub retry_with : Env → Context → Option ConnReq → Bool → Conn → Conn
retry_with env ctx none st c = c
retry_with env ctx (some req) false c = c
retry_with env ctx (some req) true c =
    let counted = record c { conn_req = some (record req { retry_count = req.retry_count + 1 }) } in
    if leb max_connect_retry (req.retry_count + 1)
    then complete_conn_req env (some service_unavailable) counted
    else process_connect env ctx none (record counted { channel = none })

abbrev pub is_connecting : ConnState → Bool
is_connecting connecting = true
is_connecting _ = false

unfoldable pub restart_connect : Env → Context → Conn → Conn
unfolding retry_with
restart_connect env ctx c = retry_with env ctx c.conn_req (is_connecting c.state) c

-- What `ziti_service_available` calls back with: a service, whether the client may dial it, its id and
-- whether it encrypts, or an error.
pub data ServiceAnswer : Type 0 where
  service_found : Bool → ℕ → Bool → ServiceAnswer
  service_failed : ZitiError → ServiceAnswer

abbrev pub with_service : ℕ → Option ConnReq → Option ConnReq
with_service id none = none
with_service id (some req) = some (record req { service_id = some id })

unfoldable pub connect_get_service_cb : Env → Context → ServiceAnswer → Conn → Conn
connect_get_service_cb env ctx (service_found false id encryption) c =
    complete_conn_req env (some service_unavailable) c
connect_get_service_cb env ctx (service_found true id encryption) c =
    process_connect env ctx none
      (record c { conn_req = with_service id c.conn_req; encrypted = encryption })
connect_get_service_cb env ctx (service_failed code) c = complete_conn_req env (some code) c

-- What the controller answers to the request for a session.
pub data SessionAnswer : Type 0 where
  session_found : Session → SessionAnswer
  session_failed : ZitiError → SessionAnswer

-- A failure that means that the API session is to be renewed starts the attempt again.
unfoldable pub session_error : Env → Context → ZitiError → Conn → Conn
session_error env ctx not_authorized c = restart_connect env ctx (emit api_session_refreshed c)
session_error env ctx not_found c = complete_conn_req env (some service_unavailable) c
session_error env ctx code c = complete_conn_req env (some code) c

-- The context keeps the session.
unfoldable pub connect_get_net_session_cb : Env → Context → SessionAnswer → Conn → Conn
unfolding session_error
connect_get_net_session_cb env ctx (session_found s) c = process_connect env ctx (some s) c
connect_get_net_session_cb env ctx (session_failed code) c = session_error env ctx code c

-- What a client gives to a dial: the options, and whether the callbacks are there.
pub record DialOpts : Type 0 where
  pub stream : Bool
  pub connect_timeout_seconds : ℕ
  pub identity : Option (List ℕ)
  pub app_data : Option (List ℕ)
  pub conn_cb : Bool
  pub data_cb : Bool

-- `clone_ziti_dial_opts` leaves out a text that is empty.
abbrev nonempty : Option (List ℕ) → Option (List ℕ)
nonempty none = none
nonempty (some []) = none
nonempty (some (x ∷ xs)) = some (x ∷ xs)

unfoldable pub dialling : Env → DialOpts → Conn → Conn
dialling env opts c = conn_set_state env connecting (record c {
  conn_req = some (record {
    cb = true;
    is_failed = false;
    waiter = none;
    deadline = false;
    retry_count = 0;
    service_id = none;
    connect_timeout_seconds = opts.connect_timeout_seconds;
    identity = nonempty opts.identity;
    app_data = nonempty opts.app_data;
  });
  flags = if opts.stream then set_flag c.flags edge_stream else c.flags;
  data_cb = opts.data_cb;
})

unfoldable pub dial_in : Env → Context → DialOpts → ConnState → Conn → Conn × Option ZitiError
unfolding dialling
dial_in env ctx opts initial c =
    if opts.conn_cb
    then (process_connect env ctx none (record (dialling env opts c) { start = env.now }), none)
    else (c, some invalid_state)
dial_in env ctx opts connecting c = (c, some invalid_state)
dial_in env ctx opts connected c = (c, some invalid_state)
dial_in env ctx opts accepting c = (c, some invalid_state)
dial_in env ctx opts close_write c = (c, some invalid_state)
dial_in env ctx opts timedout c = (c, some invalid_state)
dial_in env ctx opts disconnected c = (c, some invalid_state)
dial_in env ctx opts closed c = (c, some invalid_state)

-- For a connection of type `None`, in a context that is enabled.
unfoldable pub do_ziti_dial : Env → Context → DialOpts → Conn → Conn × Option ZitiError
unfolding dial_in
do_ziti_dial env ctx opts c = dial_in env ctx opts c.state (init_transport_conn c)
