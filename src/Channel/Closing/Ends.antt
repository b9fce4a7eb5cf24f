-- ===== src/Channel/Closing/Ends.antt =====
-- How `on_channel_close` ends: the channel is down, everybody was told, and it is to come back.
use ziti_sdk_c.Base.{
  ℕ, zero, suc, ◌*◌, ◌%◌, ◌^◌, ◌≤◌, ◌<◌, min, ◌≡◌, refl, ap, ◌∙◌, Bool, true, false, List, [], ◌∷◌,
  ◌++◌, append_assoc, some, arith, u32_mod, add32, add_size,
}
use ziti_sdk_c.Errors.{ZitiError}
use ziti_sdk_c.Channel.State.{
  ChannelState, initial, connecting, connected, closed, router_disconnected, reconnect_due, Timer,
  Action, notified, Channel, Env, backoff_time, max_backoff, emit,
}
use ziti_sdk_c.Channel.Closing.{
  is_reconnect, schedule, schedule_later, reconnect_from, reconnect_channel, stays_down, take_down,
  come_back, come_back_unless, close_from, on_channel_close, backoff_timeout,
}
use ziti_sdk_c.Channel.Closing.Down.{
  View, view, told_waiters, told_receivers, given_back, shut, down, view-take_down,
}

-- The states in which `on_channel_close` does nothing.
abbrev pub is_down : ChannelState → Bool
is_down initial = false
is_down connecting = false
is_down connected = false
is_down ChannelState.disconnected = true
is_down closed = true

-- The context is told when a connected channel goes down.
abbrev pub notice : ZitiError → ChannelState → List Action
notice e initial = []
notice e connecting = []
notice e connected = notified router_disconnected (some e) ∷ []
notice e ChannelState.disconnected = []
notice e closed = []

-- The deadline of a channel that is to come back.
abbrev pub back : Env → ℕ → Timer
back env count = record {
  expire_cb = reconnect_due;
  expiration = add_size env.now (backoff_timeout env.random count);
}

abbrev pub rejoin : Env → View → View
rejoin env v = record v {
  reconnect = false;
  reconnect_count = add32 v.reconnect_count 1;
  deadline = some (back env (add32 v.reconnect_count 1));
}

view-schedule :
    (env : Env) (ch : Channel)
    → is_reconnect ch.deadline ≡ false
    → view (record (schedule env false ch) { reconnect = false }) ≡ rejoin env (view ch)
unfolding schedule schedule_later
view-schedule env ch d = ap (λ b. view (record (schedule_later env b ch) { reconnect = false })) d

view-again :
    (env : Env) (ch : Channel)
    → ch.reconnect ≡ false
    → ch.state ≡ ChannelState.disconnected
    → is_reconnect ch.deadline ≡ false
    → view (come_back_unless env false ch) ≡ rejoin env (view ch)
unfolding come_back_unless reconnect_channel reconnect_from
view-again env ch r s d =
    ap (λ b. view (record (reconnect_from env b ch.state ch) { reconnect = false })) r
    ∙ ap (λ t. view (record (reconnect_from env false t ch) { reconnect = false })) s
    ∙ view-schedule env ch d

-- Everything that a channel does when it goes down: the context is told, then the waiters, then the
-- receivers, then the partly read message goes back and the stream is closed.
abbrev pub all_told : ZitiError → Channel → List Action
all_told e ch =
    notice e ch.state
    ++ (told_waiters e ch.waiters
        ++ (told_receivers e ch.receivers ++ (given_back ch.in_next ++ shut ch.connection)))

-- What is left, before it is to come back.
abbrev left_in : ZitiError → ChannelState → Channel → View
left_in e s ch = record (down e ch) {
  log =
      ch.log
      ++ (notice e s
          ++ (told_waiters e ch.waiters
              ++ (told_receivers e ch.receivers ++ (given_back ch.in_next ++ shut ch.connection))));
}

abbrev pub left : ZitiError → Channel → View
left e ch = left_in e ch.state ch

-- The channel that `take_down` is called on.
abbrev noticed : ZitiError → ChannelState → Channel → Channel
noticed e initial ch = ch
noticed e connecting ch = ch
noticed e connected ch = emit (notified router_disconnected (some e)) ch
noticed e ChannelState.disconnected ch = ch
noticed e closed ch = ch

close_up :
    (env : Env) (e : ZitiError) (s : ChannelState) (ch : Channel)
    → is_down s ≡ false
    → close_from env e s ch ≡ come_back env e (take_down e (noticed e s ch))
unfolding close_from
close_up env e initial ch u = refl
close_up env e connecting ch u = refl
close_up env e connected ch u = refl
close_up env e ChannelState.disconnected ch u = absurd (ground arith)
close_up env e closed ch u = absurd (ground arith)

view-noticed :
    (e : ZitiError) (s : ChannelState) (ch : Channel)
    → view (take_down e (noticed e s ch)) ≡ left_in e s ch
view-noticed e initial ch = view-take_down e ch
view-noticed e connecting ch = view-take_down e ch
view-noticed e connected ch =
    view-take_down e (emit (notified router_disconnected (some e)) ch)
    ∙ ap (λ l. record (down e ch) { log = l })
        (append_assoc ch.log (notified router_disconnected (some e) ∷ []) (
          told_waiters e ch.waiters
          ++ (told_receivers e ch.receivers ++ (given_back ch.in_next ++ shut ch.connection))))
view-noticed e ChannelState.disconnected ch = view-take_down e ch
view-noticed e closed ch = view-take_down e ch

noticed-reconnect :
    (e : ZitiError) (s : ChannelState) (ch : Channel) → (noticed e s ch).reconnect ≡ ch.reconnect
noticed-reconnect e initial ch = refl
noticed-reconnect e connecting ch = refl
noticed-reconnect e connected ch = refl
noticed-reconnect e ChannelState.disconnected ch = refl
noticed-reconnect e closed ch = refl

-- With an error that keeps a channel down.
view-close_stays :
    (env : Env) (e : ZitiError) (s : ChannelState) (ch : Channel)
    → is_down s ≡ false
    → stays_down e ≡ true
    → view (close_from env e s ch) ≡ left_in e s ch
unfolding come_back come_back_unless
view-close_stays env e s ch u b =
    ap view (close_up env e s ch u)
    ∙ ap (λ b. view (come_back_unless env b (take_down e (noticed e s ch)))) b
    ∙ view-noticed e s ch

view-close_returns :
    (env : Env) (e : ZitiError) (s : ChannelState) (ch : Channel)
    → is_down s ≡ false
    → stays_down e ≡ false
    → ch.reconnect ≡ false
    → view (close_from env e s ch) ≡ rejoin env (left_in e s ch)
unfolding come_back is_reconnect
view-close_returns env e s ch u b r =
    let v = view-noticed e s ch in
    ap view (close_up env e s ch u)
    ∙ ap (λ b. view (come_back_unless env b (take_down e (noticed e s ch)))) b
    ∙ view-again env (take_down e (noticed e s ch)) (ap View.reconnect v ∙ r) (ap View.state v)
        (ap (λ w. is_reconnect (View.deadline w)) v)
    ∙ ap (rejoin env) v

close_from_idle :
    (env : Env) (e : ZitiError) (s : ChannelState) (ch : Channel)
    → is_down s ≡ true
    → close_from env e s ch ≡ ch
unfolding close_from
close_from_idle env e initial ch d = absurd (ground arith)
close_from_idle env e connecting ch d = absurd (ground arith)
close_from_idle env e connected ch d = absurd (ground arith)
close_from_idle env e ChannelState.disconnected ch d = refl
close_from_idle env e closed ch d = refl

-- `on_channel_close` leaves a channel alone that is down or closed.
pub close_idle :
    (env : Env) (e : ZitiError) (ch : Channel)
    → is_down ch.state ≡ true
    → on_channel_close env e ch ≡ ch
unfolding on_channel_close
close_idle env e ch d = close_from_idle env e ch.state ch d

-- `on_channel_close` with ZITI_DISABLED or ZITI_GATEWAY_UNAVAILABLE, on a channel that is not down or closed, leaves
-- it disconnected, without a stream, a deadline, a waiter, a receiver or a partly read message; what it does
-- outside is, in this order: the context is told if the channel was connected, the client of
-- every waiter and every receiver gets the error once, the partly read message is returned and the stream is closed.
pub on_channel_close-left :
    (env : Env) (e : ZitiError) (ch : Channel)
    → is_down ch.state ≡ false
    → stays_down e ≡ true
    → view (on_channel_close env e ch) ≡ left e ch
unfolding on_channel_close
on_channel_close-left env e ch u b = view-close_stays env e ch.state ch u b

-- `on_channel_close` with an error other than ZITI_DISABLED and ZITI_GATEWAY_UNAVAILABLE, on a channel that is not
-- down or closed and whose `reconnect` is not set, leaves it disconnected, without a stream, a waiter, a receiver
-- or a partly read message, with one attempt more and with the deadline at which `reconnect_cb` is called after the
-- back-off; outside, the context is told if the channel was connected, then the client of every
-- waiter and every receiver gets the error once, the partly read message is returned and the stream is closed.
pub on_channel_close-rejoin :
    (env : Env) (e : ZitiError) (ch : Channel)
    → is_down ch.state ≡ false
    → stays_down e ≡ false
    → ch.reconnect ≡ false
    → view (on_channel_close env e ch) ≡ rejoin env (left e ch)
unfolding on_channel_close
on_channel_close-rejoin env e ch u b r = view-close_returns env e ch.state ch u b r

power_bound :
    (k : ℕ)
    → k ≤ 5
    → (2 ^ k * backoff_time % u32_mod ≤ 160000) × (0 < 2 ^ k * backoff_time % u32_mod)
power_bound zero l = omega arith
power_bound (suc zero) l = omega arith
power_bound (suc (suc zero)) l = omega arith
power_bound (suc (suc (suc zero))) l = omega arith
power_bound (suc (suc (suc (suc zero)))) l = omega arith
power_bound (suc (suc (suc (suc (suc zero))))) l = omega arith
power_bound (suc (suc (suc (suc (suc (suc k)))))) l = absurd (omega arith)

-- The back-off is below 160 seconds for every count of attempts and every random number.
pub backoff_timeout_lem : (random count : ℕ) → backoff_timeout random count < 160000
unfolding backoff_timeout
backoff_timeout_lem random count = omega (arith, power_bound (min count max_backoff) (omega arith))
