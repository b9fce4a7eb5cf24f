-- ===== src/Channel/Replies/Cancelled.antt =====
-- What a waiter's callback does when its channel goes down.
use ziti_sdk_c.Base.{◌≡◌, refl, ap, none, some}
use ziti_sdk_c.Errors.{ZitiError, connabort}
use ziti_sdk_c.Channel.State.{
  ChannelState, ReplyCb, hello_reply, latency_reply, token_reply, client_reply, Channel, Env,
}
use ziti_sdk_c.Channel.Closing.{cancel}
use ziti_sdk_c.Channel.Closing.Ends.{is_down, close_idle}
use ziti_sdk_c.Channel.Replies.{call_reply, hello_reply_cb, latency_reply_cb}

-- On a channel that is disconnected, every callback of a waiter that is called with an error and without a
-- message does what the loop of `on_channel_close` is modelled to do with it.
pub call_reply-cancel :
    (env : Env) (e : ZitiError) (cb : ReplyCb) (ch : Channel)
    → ch.state ≡ ChannelState.disconnected
    → call_reply env cb none (some e) ch ≡ some (cancel e cb ch)
unfolding call_reply hello_reply_cb latency_reply_cb cancel
call_reply-cancel env e hello_reply ch s = ap some (close_idle env connabort ch (ap is_down s))
call_reply-cancel env e latency_reply ch s = refl
call_reply-cancel env e token_reply ch s = refl
call_reply-cancel env e (client_reply ctx) ch s = refl
