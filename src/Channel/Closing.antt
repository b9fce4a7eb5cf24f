-- ===== src/Channel/Closing.antt =====
-- How a connection ends, in library/channel.c: `reconnect_channel`, `on_channel_close`,
-- `ziti_channel_close` and `ziti_channel_force_connect`.
pub mod Down
pub mod Ends
use ziti_sdk_c.Base.{
  ℕ, zero, suc, ◌+◌, ◌-◌, ◌*◌, ◌%◌, ◌^◌, min, Bool, true, false, not, List, [], ◌∷◌, ◌++◌, Option,
  none, some, Result, ok, err, if◌then◌else◌, u32_mod, add32,
}
use ziti_sdk_c.Errors.{ZitiError, disabled, gateway_unavailable}
use ziti_sdk_c.Buffer.{new_buffer}
use ziti_sdk_c.Pool.{pool_destroy, pool_return_obj}
use ziti_sdk_c.Message.Build.{Message}
use ziti_sdk_c.Channel.State.{
  ChannelState, initial, connecting, connected, closed, RouterStatus, router_disconnected,
  router_removed, TimeoutCb, reconnect_due, connect_due, probe_due, latency_due, ReplyCb,
  hello_reply, latency_reply, token_reply, client_reply, Timer, Waiter, Receiver, Action, notified,
  replied, received, returned, Channel, Env, uint64_max, backoff_time, max_backoff, emit,
  set_deadline, close_connection,
}

-- `ch->deadline.expire_cb == reconnect_cb`
unfoldable pub is_reconnect : Option Timer → Bool
is_reconnect none = false
is_reconnect (some t) = elim t.expire_cb [
  | reconnect_due ↦ true
  | connect_due ↦ false
  | probe_due ↦ false
  | latency_due ↦ false
]

-- `random % ((1U << backoff) * BACKOFF_TIME)` for the count of the attempts.
unfoldable pub backoff_timeout : ℕ → ℕ → ℕ
backoff_timeout random reconnect_count =
    random % (2 ^ min reconnect_count max_backoff * backoff_time % u32_mod)

-- The reconnect is scheduled already, or is not.
unfoldable pub schedule_later : Env → Bool → Channel → Channel
unfolding backoff_timeout
schedule_later env true ch = ch
schedule_later env false ch =
    let count = add32 ch.reconnect_count 1 in
    set_deadline env.now (backoff_timeout env.random count) reconnect_due
      (record ch { reconnect_count = count })

unfoldable pub schedule : Env → Bool → Channel → Channel
unfolding is_reconnect schedule_later
schedule env true ch = set_deadline env.now 0 reconnect_due ch
schedule env false ch = schedule_later env (is_reconnect ch.deadline) ch

unfoldable pub reconnect_from : Env → Bool → ChannelState → Channel → Channel
unfolding schedule
reconnect_from env now closed ch = ch
reconnect_from env now initial ch = schedule env now ch
reconnect_from env now connecting ch = schedule env now ch
reconnect_from env now connected ch = schedule env now ch
reconnect_from env now ChannelState.disconnected ch = schedule env now ch

unfoldable pub reconnect_channel : Env → Bool → Channel → Channel
unfolding reconnect_from
reconnect_channel env now ch = reconnect_from env now ch.state ch

-- What the callback of a waiter does when the channel, disconnected by now, calls it without a
-- message: `hello_reply_cb` closes a channel that is closing already, and `token_update_cb` only writes
-- to the log file.
unfoldable pub cancel : ZitiError → ReplyCb → Channel → Channel
cancel e hello_reply ch = ch
cancel e latency_reply ch = record ch { latency = uint64_max }
cancel e token_reply ch = ch
cancel e (client_reply ctx) ch = emit (replied ctx none (some e)) ch

-- The loops over the waiters and the receivers: each is taken out, then called.
unfoldable pub cancel_waiters : ZitiError → List Waiter → Channel → Channel
unfolding cancel
cancel_waiters e [] ch = record ch { waiters = [] }
cancel_waiters e (w ∷ ws) ch = cancel_waiters e ws (cancel e w.cb (record ch { waiters = ws }))

unfoldable pub cancel_receivers : ZitiError → List Receiver → Channel → Channel
cancel_receivers e [] ch = record ch { receivers = [] }
cancel_receivers e (r ∷ rs) ch =
    cancel_receivers e rs (emit (received r.receiver none (some e)) (record ch { receivers = rs }))

-- `if (ch->in_next)`: the message that is partly read goes back to its pool.
unfoldable pub discard : Option Message → Channel → Channel
discard none ch = ch
discard (some m) ch =
    emit (returned m)
      (record ch { in_next = none; in_msg_pool = (pool_return_obj ch.in_msg_pool m.obj).0 })

-- `ziti_err == ZITI_DISABLED || ziti_err == ZITI_GATEWAY_UNAVAILABLE`
unfoldable pub stays_down : ZitiError → Bool
stays_down disabled = true
stays_down gateway_unavailable = true
stays_down _ = false

unfoldable pub marked_down : Channel → Channel
marked_down ch = record ch {
  state = ChannelState.disconnected;
  latency = uint64_max;
  deadline = none;
}

unfoldable pub answer_waiters : ZitiError → Channel → Channel
unfolding cancel_waiters
answer_waiters e ch = cancel_waiters e ch.waiters ch

unfoldable pub answer_receivers : ZitiError → Channel → Channel
unfolding cancel_receivers
answer_receivers e ch = cancel_receivers e ch.receivers ch

unfoldable pub dump_buffered : Channel → Channel
unfolding discard
dump_buffered ch = discard ch.in_next (record ch { incoming = new_buffer })

-- From `ch->state = Disconnected` to `close_connection`.
unfoldable pub take_down : ZitiError → Channel → Channel
unfolding marked_down answer_waiters answer_receivers dump_buffered
take_down e ch =
    close_connection (dump_buffered (answer_receivers e (answer_waiters e (marked_down ch))))

unfoldable pub come_back_unless : Env → Bool → Channel → Channel
come_back_unless env true ch = ch
come_back_unless env false ch = record (reconnect_channel env ch.reconnect ch) { reconnect = false }

unfoldable pub come_back : Env → ZitiError → Channel → Channel
unfolding stays_down come_back_unless
come_back env e ch = come_back_unless env (stays_down e) ch

unfoldable pub close_from : Env → ZitiError → ChannelState → Channel → Channel
unfolding take_down come_back
close_from env e closed ch = ch
close_from env e ChannelState.disconnected ch = ch
close_from env e connected ch =
    come_back env e (take_down e (emit (notified router_disconnected (some e)) ch))
close_from env e initial ch = come_back env e (take_down e ch)
close_from env e connecting ch = come_back env e (take_down e ch)

unfoldable pub on_channel_close : Env → ZitiError → Channel → Channel
unfolding close_from
on_channel_close env e ch = close_from env e ch.state ch

-- The stream's `data` is unset, too: see `on_tls_connect`.
unfoldable pub ziti_channel_free : Channel → Channel
ziti_channel_free ch = record ch {
  connection = none;
  deadline = none;
  incoming = new_buffer;
  in_msg_pool = (pool_destroy ch.in_msg_pool).0;
}

unfoldable pub close_open : Env → ZitiError → Channel → Channel
close_open env e ch =
    ziti_channel_free
      (emit (notified router_removed none) (record (on_channel_close env e ch) { state = closed }))

unfoldable pub close_channel_from : Env → ZitiError → ChannelState → Channel → Channel
unfolding close_open
close_channel_from env e closed ch = ch
close_channel_from env e initial ch = close_open env e ch
close_channel_from env e connecting ch = close_open env e ch
close_channel_from env e connected ch = close_open env e ch
close_channel_from env e ChannelState.disconnected ch = close_open env e ch

unfoldable pub ziti_channel_close : Env → ZitiError → Channel → Channel
unfolding close_channel_from
ziti_channel_close env e ch = close_channel_from env e ch.state ch

-- The channel is there: `ch == NULL` is `ZITI_INVALID_STATE`.
unfoldable pub force_from : Env → ChannelState → Channel → Channel × Option ZitiError
force_from env closed ch = (ch, some gateway_unavailable)
force_from env ChannelState.disconnected ch = (reconnect_channel env true ch, none)
force_from env initial ch = (ch, none)
force_from env connecting ch = (ch, none)
force_from env connected ch = (ch, none)

unfoldable pub ziti_channel_force_connect : Env → Channel → Channel × Option ZitiError
unfolding force_from
ziti_channel_force_connect env ch = force_from env ch.state ch
