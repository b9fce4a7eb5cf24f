-- ===== src/Channel/Events/Calls.antt =====
-- The invariant of a channel across the calls of its clients and the reads of its stream.
use ziti_sdk_c.Base.{
  ℕ, ◌≡◌, refl, ap, ◌∙◌, subst, true, List, [], Option, none, some, arith, some_inj, bind-some,
  Bool-cases, inl, inr,
}
use ziti_sdk_c.Errors.{ZitiError, connabort, gateway_unavailable}
use ziti_sdk_c.EdgeProtocol.ContentType.{posture_response}
use ziti_sdk_c.Channel.State.{
  ChannelState, initial, connecting, connected, closed, TimeoutCb, Waiter, Channel, Env,
}
use ziti_sdk_c.Channel.Closing.{
  reconnect_channel, on_channel_close, ziti_channel_free, close_open, close_channel_from,
  force_from,
}
use ziti_sdk_c.Channel.Closing.{stays_down}
use ziti_sdk_c.Channel.Closing.Down.{View}
use ziti_sdk_c.Channel.Closing.Ends.{
  is_down, close_idle, on_channel_close-left, on_channel_close-rejoin,
}
use ziti_sdk_c.Channel.Sending.{ziti_channel_send, posture_from, forget}
use ziti_sdk_c.Channel.Events.{
  connect_from, ReadResult, no_buffers, read_failed, no_data, read_data, on_channel_data,
}
use ziti_sdk_c.Channel.Events.Invariant.{cb_of, Waits, Fits, IsValid, close-IsValid}
use ziti_sdk_c.Channel.Events.Expiry.{is_idle, reconnect-IsValid}
use ziti_sdk_c.Channel.Events.Arrival.{send-IsValid}

idle-Idle :
    (s : ChannelState) (c : Option ℕ) (d : Option TimeoutCb) (ws : List Waiter) (id : Option ℕ)
    → Fits true s c d ws id
    → is_idle s ≡ true
    → (c ≡ none) × Waits d × (ws ≡ [])
idle-Idle initial c d ws id f i = f
idle-Idle connecting c d ws id f i = absurd (ground arith)
idle-Idle connected c d ws id f i = absurd (ground arith)
idle-Idle ChannelState.disconnected c d ws id f i = f
idle-Idle closed c d ws id f i = absurd (ground arith)

idle_connect :
    (env : Env) (ch : Channel)
    → IsValid ch
    → is_idle ch.state ≡ true
    → IsValid (reconnect_channel env true ch)
idle_connect env ch v i =
    let (c, w, ws) =
      idle-Idle ch.state ch.connection (cb_of ch.deadline) ch.waiters ch.latency_waiter v.fits i in
    reconnect-IsValid env true ch
      (record { idle = i; no_stream = c; no_waiters = ws; quiet = v.quiet }) w

pub connect_from-IsValid :
    (env : Env) (s : ChannelState) (ch : Channel)
    → IsValid ch
    → ch.state ≡ s
    → IsValid (connect_from env s ch)
unfolding connect_from
connect_from-IsValid env initial ch v p = idle_connect env ch v (ap is_idle p)
connect_from-IsValid env ChannelState.disconnected ch v p = idle_connect env ch v (ap is_idle p)
connect_from-IsValid env connecting ch v p = v
connect_from-IsValid env connected ch v p = v
connect_from-IsValid env closed ch v p = v

pub force_from-IsValid :
    (env : Env) (s : ChannelState) (ch : Channel)
    → IsValid ch
    → ch.state ≡ s
    → IsValid (force_from env s ch).0
unfolding force_from
force_from-IsValid env initial ch v p = v
force_from-IsValid env ChannelState.disconnected ch v p = idle_connect env ch v (ap is_idle p)
force_from-IsValid env connecting ch v p = v
force_from-IsValid env connected ch v p = v
force_from-IsValid env closed ch v p = v

no_waiters :
    (s : ChannelState) (c : Option ℕ) (d : Option TimeoutCb) (ws : List Waiter) (id : Option ℕ)
    → Fits true s c d ws id
    → is_down s ≡ true
    → ws ≡ []
no_waiters initial c d ws id f e = absurd (ground arith)
no_waiters connecting c d ws id f e = absurd (ground arith)
no_waiters connected c d ws id f e = absurd (ground arith)
no_waiters ChannelState.disconnected c d ws id f e = f.2
no_waiters closed c d ws id f e = f.2

-- What has been closed is down.
close-down :
    (env : Env) (e : ZitiError) (ch : Channel)
    → IsValid ch
    → is_down (on_channel_close env e ch).state ≡ true
close-down env e ch v = elim (Bool-cases (is_down ch.state)) [
  | inl d ↦ ap (λ c. is_down (Channel.state c)) (close_idle env e ch d) ∙ d
  | inr u ↦ elim (Bool-cases (stays_down e)) [
    | inl b ↦ ap (λ w. is_down (View.state w)) (on_channel_close-left env e ch u b)
    | inr b ↦ ap (λ w. is_down (View.state w)) (on_channel_close-rejoin env e ch u b v.quiet)
  ]
]

close_open-IsValid :
    (env : Env) (e : ZitiError) (ch : Channel) → IsValid ch → IsValid (close_open env e ch)
unfolding close_open ziti_channel_free
close_open-IsValid env e ch v =
    let c = close-IsValid env e ch v in
    let ch1 = on_channel_close env e ch in
    record {
      fits = (
        refl,
        refl,
        no_waiters ch1.state ch1.connection (cb_of ch1.deadline) ch1.waiters ch1.latency_waiter
            c.fits (close-down env e ch v),
      );
      quiet = c.quiet;
      distinct = c.distinct;
    }

pub close_channel-IsValid :
    (env : Env) (e : ZitiError) (s : ChannelState) (ch : Channel)
    → IsValid ch
    → IsValid (close_channel_from env e s ch)
unfolding close_channel_from
close_channel-IsValid env e closed ch v = v
close_channel-IsValid env e initial ch v = close_open-IsValid env e ch v
close_channel-IsValid env e connecting ch v = close_open-IsValid env e ch v
close_channel-IsValid env e connected ch v = close_open-IsValid env e ch v
close_channel-IsValid env e ChannelState.disconnected ch v = close_open-IsValid env e ch v

pub posture_from-IsValid :
    (env : Env) (bytes : List ℕ) (s : ChannelState) (ch : Channel) (r : Channel × Option ZitiError)
    → IsValid ch
    → posture_from env bytes s ch ≡ some r
    → IsValid (r.0)
unfolding posture_from forget
posture_from-IsValid env bytes connected ch r v e =
    let ((ch1, rc), a, b) =
      bind-some (ziti_channel_send env posture_response [] bytes none ch) (λ r. some (forget r)) r
        e in
    subst (λ r. IsValid (r.0)) (some_inj (ch1, none) r b)
      (send-IsValid env posture_response [] bytes none ch ch1 rc v a)
posture_from-IsValid env bytes initial ch r v e =
    subst (λ r. IsValid (r.0)) (some_inj (ch, some gateway_unavailable) r e) v
posture_from-IsValid env bytes connecting ch r v e =
    subst (λ r. IsValid (r.0)) (some_inj (ch, some gateway_unavailable) r e) v
posture_from-IsValid env bytes ChannelState.disconnected ch r v e =
    subst (λ r. IsValid (r.0)) (some_inj (ch, some gateway_unavailable) r e) v
posture_from-IsValid env bytes closed ch r v e =
    subst (λ r. IsValid (r.0)) (some_inj (ch, some gateway_unavailable) r e) v

pub data-IsValid :
    (env : Env) (tls : ℕ) (r : ReadResult) (ch : Channel)
    → IsValid ch
    → IsValid (on_channel_data env tls r ch).0
unfolding on_channel_data
data-IsValid env tls no_buffers ch v = v
data-IsValid env tls read_failed ch v = close-IsValid env connabort ch v
data-IsValid env tls no_data ch v = v
data-IsValid env tls (read_data bytes) ch v = v
