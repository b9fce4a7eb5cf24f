-- ===== src/Channel/Events/Expiry.antt =====
-- The invariant of a channel when its deadline has come or its stream has connected.
use ziti_sdk_c.Base.{
  ℕ, ◌≡◌, refl, sym, ap, ◌∙◌, subst, inl, inr, Bool, true, false, List, [], Option, none, some,
  arith, ==_refl, Bool-cases, if◌then◌else◌, bind-some, some_inj,
}
use ziti_sdk_c.Errors.{connabort}
use ziti_sdk_c.Channel.State.{
  ChannelState, initial, connecting, connected, closed, TimeoutCb, connect_due, Waiter,
  stream_connect, stream_close, read_start, Channel, Env, connect_timeout, emit, set_deadline,
  init_over, ch_init_stream,
}
use ziti_sdk_c.Channel.Closing.{
  reconnect_from, reconnect_channel, schedule, schedule_later, is_reconnect, on_channel_close,
}
use ziti_sdk_c.Channel.Closing.Ends.{is_down}
use ziti_sdk_c.Channel.Timers.{
  ConnectStatus, stream_ok, stream_canceled, stream_failed, tls_connected, same_stream,
  on_tls_connect, connect_result, start_connect, reconnect_on, with_token,
}
use ziti_sdk_c.Channel.Events.Tables.{Distinct, no_probe}
use ziti_sdk_c.Channel.Events.Invariant.{
  Summary, summary, is_open, cb_of, Waits, Fits, Valid, IsValid, none_open, close_up-IsValid,
  close-IsValid,
}
use ziti_sdk_c.Channel.Events.Requests.{Fresh, send_hello-IsValid}

-- A channel without a connection that can get one.
abbrev pub is_idle : ChannelState → Bool
is_idle initial = true
is_idle connecting = false
is_idle connected = false
is_idle ChannelState.disconnected = true
is_idle closed = false

pub record Idle (s : Summary) : Type 0 where
  pub idle : is_idle s.state ≡ true
  pub no_stream : s.connection ≡ none
  pub no_waiters : s.waiters ≡ []
  pub quiet : s.reconnect ≡ false

Fits-idle :
    (s : ChannelState) (c : Option ℕ) (d : Option TimeoutCb) (ws : List Waiter) (id : Option ℕ)
    → is_idle s ≡ true
    → c ≡ none
    → Waits d
    → ws ≡ []
    → Fits true s c d ws id
Fits-idle initial c d ws id i n w e = (n, w, e)
Fits-idle connecting c d ws id i n w e = absurd (ground arith)
Fits-idle connected c d ws id i n w e = absurd (ground arith)
Fits-idle ChannelState.disconnected c d ws id i n w e = (n, w, e)
Fits-idle closed c d ws id i n w e = absurd (ground arith)

pub Idle-Valid : (s : Summary) → Idle s → Waits (cb_of s.deadline) → Valid true s
Idle-Valid s i w = record {
  fits =
      Fits-idle s.state s.connection (cb_of s.deadline) s.waiters s.latency_waiter i.idle
        i.no_stream w i.no_waiters;
  quiet = i.quiet;
  distinct = subst Distinct (sym i.no_waiters) tt;
}

pub Idle-keep : (s t : Summary) → Idle s → t ≡ record s { deadline = t.deadline } → Idle t
Idle-keep s t i e =
    subst Idle (sym e) (record {
      idle = i.idle;
      no_stream = i.no_stream;
      no_waiters = i.no_waiters;
      quiet = i.quiet;
    })

schedule_later-IsValid :
    (env : Env) (pending : Bool) (ch : Channel)
    → Idle (summary ch)
    → Waits (cb_of ch.deadline)
    → IsValid (schedule_later env pending ch)
unfolding schedule_later
schedule_later-IsValid env true ch i w = Idle-Valid (summary ch) i w
schedule_later-IsValid env false ch i w =
    Idle-Valid (summary (schedule_later env false ch))
      (record {
        idle = i.idle;
        no_stream = i.no_stream;
        no_waiters = i.no_waiters;
        quiet = i.quiet;
      })
      tt

-- A reconnect is scheduled.
schedule-IsValid :
    (env : Env) (now : Bool) (ch : Channel)
    → Idle (summary ch)
    → Waits (cb_of ch.deadline)
    → IsValid (schedule env now ch)
unfolding schedule
schedule-IsValid env true ch i w =
    Idle-Valid (summary (schedule env true ch))
      (record {
        idle = i.idle;
        no_stream = i.no_stream;
        no_waiters = i.no_waiters;
        quiet = i.quiet;
      })
      tt
schedule-IsValid env false ch i w = schedule_later-IsValid env (is_reconnect ch.deadline) ch i w

reconnect_from-schedule :
    (env : Env) (now : Bool) (s : ChannelState) (ch : Channel)
    → is_idle s ≡ true
    → reconnect_from env now s ch ≡ schedule env now ch
unfolding reconnect_from
reconnect_from-schedule env now initial ch i = refl
reconnect_from-schedule env now connecting ch i = refl
reconnect_from-schedule env now connected ch i = refl
reconnect_from-schedule env now ChannelState.disconnected ch i = refl
reconnect_from-schedule env now closed ch i = absurd (ground arith)

pub reconnect-IsValid :
    (env : Env) (now : Bool) (ch : Channel)
    → Idle (summary ch)
    → Waits (cb_of ch.deadline)
    → IsValid (reconnect_channel env now ch)
unfolding reconnect_channel
reconnect-IsValid env now ch i w =
    subst IsValid (sym (reconnect_from-schedule env now ch.state ch i.idle))
      (schedule-IsValid env now ch i w)

tls_connected-IsValid :
    (env : Env) (tls : ℕ) (token : Option (List ℕ)) (ch ch' : Channel)
    → IsValid ch
    → Fresh ch
    → tls_connected env tls token ch ≡ some ch'
    → IsValid ch'
unfolding tls_connected
tls_connected-IsValid env tls none ch ch' v f e =
    subst IsValid (some_inj (on_channel_close env connabort ch) ch' e)
      (close-IsValid env connabort ch v)
tls_connected-IsValid env tls (some token) ch ch' v f e =
    send_hello-IsValid env token (record (emit (read_start tls) ch) { reconnect_count = 0 }) ch' v f
      e

-- What the stream of a channel reports keeps the invariant, if the number of the hello is not in use.
pub on_tls_connect-IsValid :
    (env : Env) (tls : ℕ) (status : ConnectStatus) (ch ch' : Channel)
    → IsValid ch
    → Fresh ch
    → on_tls_connect env tls status ch ≡ some ch'
    → IsValid ch'
unfolding on_tls_connect
on_tls_connect-IsValid env tls stream_canceled ch ch' v f e = subst IsValid (some_inj ch ch' e) v
on_tls_connect-IsValid env tls stream_ok ch ch' v f e =
    elim (Bool-cases (same_stream tls ch.connection)) [
      | inl b ↦ tls_connected-IsValid env tls env.api_session_token ch ch' v f (rw b at e)
      | inr b ↦
          subst (Valid true) (ap summary (some_inj (emit (stream_close tls) ch) ch' (rw b at e))) v
    ]
on_tls_connect-IsValid env tls stream_failed ch ch' v f e =
    elim (Bool-cases (same_stream tls ch.connection)) [
      | inl b ↦
          subst IsValid (some_inj (on_channel_close env connabort ch) ch' (rw b at e))
            (close-IsValid env connabort ch v)
      | inr b ↦
          subst (Valid true) (ap summary (some_inj (emit (stream_close tls) ch) ch' (rw b at e))) v
    ]

connecting-Valid :
    (s : Summary)
    → s.state ≡ connecting
    → is_open s.connection ≡ true
    → cb_of s.deadline ≡ some connect_due
    → s.waiters ≡ []
    → s.reconnect ≡ false
    → Valid true s
connecting-Valid s st o d w q = record {
  fits =
      subst (λ t. Fits true t s.connection (cb_of s.deadline) s.waiters s.latency_waiter) (sym st)
        (o, d, ap no_probe w);
  quiet = q;
  distinct = subst Distinct (sym w) tt;
}

-- A channel that has just got its stream.
connect_result-IsValid :
    (env : Env) (ok : Bool) (ch ch' : Channel)
    → ch.state ≡ connecting
    → ch.connection ≡ some env.new_stream
    → ch.waiters ≡ []
    → ch.reconnect ≡ false
    → connect_result env ok ch ≡ some ch'
    → IsValid ch'
unfolding connect_result on_tls_connect same_stream
connect_result-IsValid env true ch ch' s c w q e =
    let done = set_deadline env.now connect_timeout connect_due ch in
    subst IsValid (some_inj done ch' e) (connecting-Valid (summary done) s (ap is_open c) refl w q)
connect_result-IsValid env false ch ch' s c w q e =
    let done = on_channel_close env connabort ch in
    let same = ap (same_stream env.new_stream) c ∙ ==_refl env.new_stream in
    let reported =
      ap (λ b. if b then some done else some (emit (stream_close env.new_stream) ch)) (sym same)
      ∙ e in
    subst IsValid (some_inj done ch' reported) (close_up-IsValid env connabort ch (ap is_down s) q)

start_connect-IsValid :
    (env : Env) (ch ch' : Channel)
    → ch.state ≡ connecting
    → ch.connection ≡ some env.new_stream
    → ch.waiters ≡ []
    → ch.reconnect ≡ false
    → start_connect env ch ≡ some ch'
    → IsValid ch'
unfolding start_connect
start_connect-IsValid env ch ch' s c w q e =
    connect_result-IsValid env env.connect_ok (emit (stream_connect env.new_stream) ch) ch' s c w q
      e

reconnect_on-IsValid :
    (env : Env) (c : Option ℕ) (ch ch' : Channel)
    → Idle (summary ch)
    → ch.connection ≡ c
    → reconnect_on env c ch ≡ some ch'
    → IsValid ch'
unfolding reconnect_on ch_init_stream init_over
reconnect_on-IsValid env (some tls) ch ch' i p e =
    absurd (none_open ch.connection i.no_stream (ap is_open p))
reconnect_on-IsValid env none ch ch' i p e =
    let ch1 = record ch { msg_seq = 0; state = connecting } in
    let (ch2, a, b) =
      bind-some (init_over ch.connection env.new_stream ch1) (λ ch'. start_connect env ch') ch' e in
    let inited = sym (ap (λ c. init_over c env.new_stream ch1) p) ∙ a in
    let ch3 = record ch1 { connection = some env.new_stream; reconnect = false } in
    start_connect-IsValid env ch3 ch' refl refl i.no_waiters refl
      (ap (start_connect env) (some_inj ch3 ch2 inited) ∙ b)

pub with_token-IsValid :
    (env : Env) (token : Option (List ℕ)) (ch ch' : Channel)
    → Idle (summary ch)
    → Waits (cb_of ch.deadline)
    → with_token env token ch ≡ some ch'
    → IsValid ch'
unfolding with_token
with_token-IsValid env none ch ch' i w e =
    subst IsValid (some_inj (reconnect_channel env false ch) ch' e)
      (reconnect-IsValid env false ch i w)
with_token-IsValid env (some token) ch ch' i w e =
    reconnect_on-IsValid env ch.connection ch ch' i refl e
