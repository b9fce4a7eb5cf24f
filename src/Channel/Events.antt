-- ===== src/Channel/Events.antt =====
-- The life of a channel in library/channel.c: how it is made, what its clients ask of it, and what its
-- stream reports.
pub mod Tables
pub mod Invariant
pub mod Waiting
pub mod Sends
pub mod Requests
pub mod Expiry
pub mod Timeout
pub mod Arrival
pub mod Calls
pub mod Life
use ziti_sdk_c.Base.{
  ℕ, zero, suc, ◌+◌, ◌-◌, ◌*◌, ◌%◌, Bool, true, false, ◌||◌, List, [], ◌∷◌, ◌++◌, Option, none,
  some, ◌>>=◌, if◌then◌else◌,
}
use ziti_sdk_c.Errors.{ZitiError, connabort, invalid_config}
use ziti_sdk_c.Buffer.{new_buffer, buffer_append}
use ziti_sdk_c.Pool.{pool_new, pool_has_available}
use ziti_sdk_c.Message.Build.{Message}
use ziti_sdk_c.Channel.State.{
  ChannelState, initial, connecting, connected, closed, RouterStatus, router_added, Timer, Waiter,
  Receiver, Action, notified, read_start, read_stop, Channel, Env, emit,
}
use ziti_sdk_c.Channel.Closing.{reconnect_channel, on_channel_close}

abbrev pub pooled_message_size : ℕ
pooled_message_size = 32 * 1024

abbrev pub inbound_pool_size : ℕ
inbound_pool_size = 32

-- `ziti_channel_init` on the zeros of `calloc`. `token` is the text with the number and the host, `next_id` the
-- allocator's for the pool.
unfoldable pub new_ziti_channel : List ℕ → ℕ → Channel
new_ziti_channel token next_id = record {
  version = [];
  token = token;
  connection = none;
  reconnect = false;
  deadline = none;
  latency = 0;
  latency_waiter = none;
  last_read = 0;
  last_write = 0;
  last_write_delay = 0;
  out_q = 0;
  out_q_bytes = 0;
  state = initial;
  reconnect_count = 0;
  msg_seq = 0;
  incoming = new_buffer;
  in_msg_pool = pool_new pooled_message_size inbound_pool_size true next_id;
  in_next = none;
  in_body_offset = 0;
  receivers = [];
  waiters = [];
  next_waiter = 0;
  log = [];
}

-- The channel of the router's name, or a new one.
unfoldable pub existing : Option Channel → Channel → Channel
existing (some ch) fresh = ch
existing none fresh = emit (notified router_added none) fresh

-- `check_connecting_state` looks at a connecting channel and changes nothing.
unfoldable pub connect_from : Env → ChannelState → Channel → Channel
connect_from env initial ch = reconnect_channel env true ch
connect_from env ChannelState.disconnected ch = reconnect_channel env true ch
connect_from env connecting ch = ch
connect_from env connected ch = ch
connect_from env closed ch = ch

unfoldable pub connect_channel : Env → Channel → Channel
unfolding connect_from
connect_channel env ch = connect_from env ch.state ch

-- `tls` says whether the router has a TLS listener; `fresh` is what `new_ziti_channel` would return.
unfoldable pub ziti_channel_connect :
    Env → Bool → Option Channel → Channel → Option Channel × Option ZitiError
unfolding existing connect_channel
ziti_channel_connect env false ch fresh = (ch, some invalid_config)
ziti_channel_connect env true ch fresh = (some (connect_channel env (existing ch fresh)), none)

unfoldable pub is_some : Option Message → Bool
is_some none = false
is_some (some m) = true

-- `pool_has_available(ch->in_msg_pool) || ch->in_next != NULL`; `none` is its failed assert.
unfoldable pub can_read : Channel → Option Bool
unfolding is_some
can_read ch = pool_has_available ch.in_msg_pool >>= λ b. some (b || is_some ch.in_next)

unfoldable pub read_on : Option ℕ → Bool → Channel → Channel
read_on none b ch = ch
read_on (some tls) true ch = emit (read_start tls) ch
read_on (some tls) false ch = emit (read_stop tls) ch

-- `ziti_channel_prepare` after `process_inbound`.
unfoldable pub prepare_reading : Channel → Option Channel
unfolding can_read read_on
prepare_reading ch = elim ch.state [
  | connected ↦ can_read ch >>= λ b. some (read_on ch.connection b ch)
  | initial ↦ some ch
  | connecting ↦ some ch
  | ChannelState.disconnected ↦ some ch
  | closed ↦ some ch
]

-- The length of the buffer that is allocated, 0 without one.
unfoldable pub channel_alloc_cb : Env → ℕ → Channel → Option ℕ
unfolding can_read
channel_alloc_cb env suggested_size ch = can_read ch >>= λ b.
    some (if b then (if env.heap.malloc suggested_size then suggested_size else 0) else 0)

-- `len` and the buffer of a read: `UV_ENOBUFS`, another error, no data, data.
pub data ReadResult : Type 0 where
  no_buffers read_failed no_data : ReadResult
  read_data : List ℕ → ReadResult

-- The channel, and whether `process_inbound` is to run on it.
unfoldable pub on_channel_data : Env → ℕ → ReadResult → Channel → Channel × Bool
on_channel_data env tls no_buffers ch = (emit (read_stop tls) ch, false)
on_channel_data env tls read_failed ch = (on_channel_close env connabort ch, false)
on_channel_data env tls no_data ch = (ch, false)
on_channel_data env tls (read_data bytes) ch =
    (record ch { last_read = env.now; incoming = buffer_append ch.incoming bytes }, true)
