-- ===== src/Channel/State.antt =====
-- `struct ziti_channel` of inc_internal/zt_internal.h and the parts of library/channel.c that keep
-- its tables: the waiters, the receivers, the deadline and the TLS stream.
use ziti_sdk_c.Base.{
  ℕ, ◌-◌, ◌^◌, Bool, true, false, List, [], ◌∷◌, ◌++◌, Option, none, some, ◌==◌, if◌then◌else◌,
  add_size,
}
use ziti_sdk_c.Errors.{ZitiError}
use ziti_sdk_c.Buffer.{Buffer}
use ziti_sdk_c.Pool.{Pool}
use ziti_sdk_c.Message.Hdrs.{Hdr}
use ziti_sdk_c.Message.Build.{Message, Heap}

pub data ChannelState : Type 0 where
  initial connecting connected disconnected closed : ChannelState

-- `ziti_router_status` of includes/ziti/ziti_events.h.
pub data RouterStatus : Type 0 where
  router_added router_connected router_disconnected router_removed router_unavailable : RouterStatus

-- The functions that the deadline of a channel can call: `reconnect_cb`, `ch_connect_timeout`,
-- `send_latency_probe` and `latency_timeout`.
pub data TimeoutCb : Type 0 where
  reconnect_due connect_due probe_due latency_due : TimeoutCb

-- The functions that a waiter can call: `hello_reply_cb`, `latency_reply_cb`, `token_update_cb`, and
-- those of a client, told apart by their `reply_ctx`.
pub data ReplyCb : Type 0 where
  hello_reply latency_reply token_reply : ReplyCb
  client_reply : ℕ → ReplyCb

pub record Timer : Type 0 where
  pub expire_cb : TimeoutCb
  pub expiration : ℕ

-- `struct waiter_s`; `id` stands for its address.
pub record Waiter : Type 0 where
  pub id : ℕ
  pub seq : ℕ
  pub cb : ReplyCb

-- `struct msg_receiver`; `receiver` stands for the object and its function.
pub record Receiver : Type 0 where
  pub id : ℕ
  pub receiver : ℕ

-- What a channel does outside itself. A status of `none` is `ZITI_OK`.
pub data Action : Type 0 where
  notified : RouterStatus → Option ZitiError → Action
  replied : ℕ → Option Message → Option ZitiError → Action
  received : ℕ → Option Message → Option ZitiError → Action
  write_done : ℕ → Bool → Action
  returned : Message → Action
  stream_connect stream_close read_start read_stop : ℕ → Action
  stream_write : ℕ → Message → Action

-- The stream is known by its address. `next_waiter` is the allocator's: the address of the next
-- waiter. `log` is what the channel has done outside itself, oldest first.
pub record Channel : Type 0 where
  pub version : List ℕ
  pub token : List ℕ
  pub connection : Option ℕ
  pub reconnect : Bool
  pub deadline : Option Timer
  pub latency : ℕ
  pub latency_waiter : Option ℕ
  pub last_read : ℕ
  pub last_write : ℕ
  pub last_write_delay : ℕ
  pub out_q : ℕ
  pub out_q_bytes : ℕ
  pub state : ChannelState
  pub reconnect_count : ℕ
  pub msg_seq : ℕ
  pub incoming : Buffer
  pub in_msg_pool : Pool
  pub in_next : Option Message
  pub in_body_offset : ℕ
  pub receivers : List Receiver
  pub waiters : List Waiter
  pub next_waiter : ℕ
  pub log : List Action

-- What an operation asks of the code around the channel: `uv_now`, `uv_random`, the allocator, the
-- session token of the context, the address of a new stream, whether `tlsuv_stream_write` and
-- `tlsuv_stream_connect` return 0, the text that `snprintf` makes of a connection id, and the number
-- that the machine reads as the time of a probe where C leaves it undefined.
pub record Env : Type 0 where
  pub now : ℕ
  pub random : ℕ
  pub heap : Heap
  pub api_session_token : Option (List ℕ)
  pub new_stream : ℕ
  pub write_ok : Bool
  pub connect_ok : Bool
  pub invalid_conn_id : ℕ → List ℕ
  pub shifted_time : List Hdr → ℕ

abbrev pub uint64_max : ℕ
uint64_max = 2 ^ 64 - 1

abbrev pub connect_timeout : ℕ
connect_timeout = 20000

abbrev pub latency_timeout_ms : ℕ
latency_timeout_ms = 10000

abbrev pub latency_interval : ℕ
latency_interval = 60000

abbrev pub backoff_time : ℕ
backoff_time = 5000

abbrev pub max_backoff : ℕ
max_backoff = 5

abbrev pub emit : Action → Channel → Channel
emit a ch = record ch { log = ch.log ++ (a ∷ []) }

-- `ztx_set_deadline` on the deadline of the channel.
abbrev pub set_deadline : ℕ → ℕ → TimeoutCb → Channel → Channel
set_deadline now timeout cb ch = record ch {
  deadline = some (record { expire_cb = cb; expiration = add_size now timeout });
}

-- `model_map_setl` on the waiters: the value of a key that is there is replaced, a new one stands in
-- front.
abbrev pub has_waiter : ℕ → List Waiter → Bool
has_waiter seq [] = false
has_waiter seq (w ∷ ws) = if w.seq == seq then true else has_waiter seq ws

abbrev pub replace_waiter : Waiter → List Waiter → List Waiter
replace_waiter v [] = []
replace_waiter v (w ∷ ws) = (if w.seq == v.seq then v else w) ∷ replace_waiter v ws

unfoldable pub set_waiter : Waiter → List Waiter → List Waiter
set_waiter v ws = if has_waiter v.seq ws then replace_waiter v ws else v ∷ ws

-- `model_map_getl` and `model_map_removel` on the waiters.
unfoldable pub get_waiter : ℕ → List Waiter → Option Waiter
get_waiter seq [] = none
get_waiter seq (w ∷ ws) = if w.seq == seq then some w else get_waiter seq ws

unfoldable pub remove_waiter : ℕ → List Waiter → List Waiter
remove_waiter seq [] = []
remove_waiter seq (w ∷ ws) = if w.seq == seq then ws else w ∷ remove_waiter seq ws

-- The waiter at an address, if it is allocated.
unfoldable pub waiter_at : ℕ → List Waiter → Option Waiter
waiter_at id [] = none
waiter_at id (w ∷ ws) = if w.id == id then some w else waiter_at id ws

-- `find_receiver`.
unfoldable pub find_receiver : ℕ → List Receiver → Option Receiver
find_receiver conn_id [] = none
find_receiver conn_id (r ∷ rs) = if r.id == conn_id then some r else find_receiver conn_id rs

unfoldable pub replace_receiver : Receiver → List Receiver → List Receiver
replace_receiver v [] = []
replace_receiver v (r ∷ rs) = (if r.id == v.id then v else r) ∷ replace_receiver v rs

unfoldable pub set_receiver : Receiver → Option Receiver → List Receiver → List Receiver
unfolding replace_receiver
set_receiver v none rs = v ∷ rs
set_receiver v (some r) rs = replace_receiver v rs

unfoldable pub remove_receiver : ℕ → List Receiver → List Receiver
remove_receiver id [] = []
remove_receiver id (r ∷ rs) = if r.id == id then rs else r ∷ remove_receiver id rs

unfoldable pub ziti_channel_add_receiver : ℕ → ℕ → Channel → Channel
unfolding set_receiver find_receiver
ziti_channel_add_receiver id receiver ch =
    let r : Receiver = record { id = id; receiver = receiver } in
    record ch { receivers = set_receiver r (find_receiver id ch.receivers) ch.receivers }

unfoldable pub ziti_channel_rem_receiver : ℕ → Channel → Channel
unfolding remove_receiver
ziti_channel_rem_receiver id ch = record ch { receivers = remove_receiver id ch.receivers }

-- What `model_map_removel` has taken out is to be the waiter itself.
unfoldable pub drop_waiter : ℕ → ℕ → Channel → Option Waiter → Option Channel
unfolding remove_waiter
drop_waiter id seq ch none = none
drop_waiter id seq ch (some w) =
    if w.id == id then some (record ch { waiters = remove_waiter seq ch.waiters }) else none

unfoldable pub drop_at : ℕ → Channel → Option Waiter → Option Channel
unfolding drop_waiter get_waiter
drop_at id ch none = none
drop_at id ch (some waiter) = drop_waiter id waiter.seq ch (get_waiter waiter.seq ch.waiters)

-- `none` is an access to a waiter that has been freed, or a failed assert.
unfoldable pub ziti_channel_remove_waiter : Option ℕ → Channel → Option Channel
unfolding drop_at waiter_at
ziti_channel_remove_waiter none ch = some ch
ziti_channel_remove_waiter (some id) ch = drop_at id ch (waiter_at id ch.waiters)

unfoldable pub close_stream : Option ℕ → Channel → Channel
close_stream none ch = ch
close_stream (some tls) ch = emit (stream_close tls) ch

unfoldable pub close_connection : Channel → Channel
unfolding close_stream
close_connection ch = close_stream ch.connection (record ch { connection = none })

-- `none` is the failed assert.
unfoldable pub init_over : Option ℕ → ℕ → Channel → Option Channel
init_over (some tls) new ch = none
init_over none new ch = some (record ch { connection = some new; reconnect = false })

unfoldable pub ch_init_stream : Env → Channel → Option Channel
unfolding init_over
ch_init_stream env ch = init_over ch.connection env.new_stream ch
