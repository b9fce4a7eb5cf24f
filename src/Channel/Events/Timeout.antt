-- ===== src/Channel/Events/Timeout.antt =====
-- The invariant of a channel when its deadline has come.
use ziti_sdk_c.Base.{
  ℕ, ◌≡◌, refl, sym, ap, ◌∙◌, subst, inl, inr, true, false, List, [], Option, none, some, ◌>>=◌,
  arith, ltb, ==_iff, Bool-cases, if◌then◌else◌, max, sub_size, bind-some, some_inj,
}
use ziti_sdk_c.Errors.{timeout}
use ziti_sdk_c.EdgeProtocol.ContentType.{latency_type}
use ziti_sdk_c.Channel.State.{
  ChannelState, initial, connecting, connected, closed, TimeoutCb, reconnect_due, connect_due,
  probe_due, latency_due, Timer, Waiter, Channel, Env, uint64_max, latency_timeout_ms, set_deadline,
  remove_waiter, ziti_channel_remove_waiter, drop_at, drop_waiter, latency_reply,
}
use ziti_sdk_c.Channel.Closing.{on_channel_close}
use ziti_sdk_c.Channel.Closing.Ends.{is_down}
use ziti_sdk_c.Channel.Replies.{ziti_channel_send_for_reply}
use ziti_sdk_c.Channel.Timers.{
  probe_hdrs, send_latency_probe, give_up, latency_timeout, ch_connect_timeout, reconnect_cb,
  call_timeout, expire,
}
use ziti_sdk_c.Channel.Events.Tables.{Distinct, waiter_at-probing, get-waiter_at}
use ziti_sdk_c.Channel.Events.Invariant.{
  summary, is_open, cb_of, Stands, Fits, IsValid, close_up-IsValid,
}
use ziti_sdk_c.Channel.Events.Waiting.{probing-Valid}
use ziti_sdk_c.Channel.Events.Requests.{probe-IsValid}
use ziti_sdk_c.Channel.Events.Expiry.{is_idle, with_token-IsValid}

-- What the function of the deadline says of the state.
reconnect-state :
    (s : ChannelState) (c : Option ℕ) (ws : List Waiter) (id : Option ℕ)
    → Fits true s c (some reconnect_due) ws id
    → (is_idle s ≡ true) × (c ≡ none) × (ws ≡ [])
reconnect-state initial c ws id f = (refl, f.0, f.2)
reconnect-state connecting c ws id f = absurd (other f.1)
  where
    other : some reconnect_due ≡ some connect_due → ⊥
    other q = ground arith
reconnect-state connected c ws id f = absurd (f.1)
reconnect-state ChannelState.disconnected c ws id f = (refl, f.0, f.2)
reconnect-state closed c ws id f = absurd (other f.1)
  where
    other : some reconnect_due ≡ none → ⊥
    other q = ground arith

connect-state :
    (s : ChannelState) (c : Option ℕ) (ws : List Waiter) (id : Option ℕ)
    → Fits true s c (some connect_due) ws id
    → is_down s ≡ false
connect-state initial c ws id f = refl
connect-state connecting c ws id f = refl
connect-state connected c ws id f = refl
connect-state ChannelState.disconnected c ws id f = absurd (f.1)
connect-state closed c ws id f = absurd (other f.1)
  where
    other : some connect_due ≡ none → ⊥
    other q = ground arith

probe-state :
    (s : ChannelState) (c : Option ℕ) (ws : List Waiter) (id : Option ℕ)
    → Fits true s c (some probe_due) ws id
    → (s ≡ connected) × (is_open c ≡ true)
probe-state initial c ws id f = absurd (f.1)
probe-state connecting c ws id f = absurd (other f.1)
  where
    other : some probe_due ≡ some connect_due → ⊥
    other q = ground arith
probe-state connected c ws id f = (refl, f.0)
probe-state ChannelState.disconnected c ws id f = absurd (f.1)
probe-state closed c ws id f = absurd (other f.1)
  where
    other : some probe_due ≡ none → ⊥
    other q = ground arith

latency-state :
    (s : ChannelState) (c : Option ℕ) (ws : List Waiter) (id : Option ℕ)
    → Fits true s c (some latency_due) ws id
    → (s ≡ connected) × (is_open c ≡ true) × Stands true id ws
latency-state initial c ws id f = absurd (f.1)
latency-state connecting c ws id f = absurd (other f.1)
  where
    other : some latency_due ≡ some connect_due → ⊥
    other q = ground arith
latency-state connected c ws id f = (refl, f.0, f.1)
latency-state ChannelState.disconnected c ws id f = absurd (f.1)
latency-state closed c ws id f = absurd (other f.1)
  where
    other : some latency_due ≡ none → ⊥
    other q = ground arith

-- The waiter of a probe that is dropped is there.
remove_waiter-total :
    (id : Option ℕ) (ch : Channel)
    → Stands true id ch.waiters
    → Distinct ch.waiters
    → (ws : List Waiter) × (ziti_channel_remove_waiter id ch ≡ some (record ch { waiters = ws }))
unfolding ziti_channel_remove_waiter drop_at drop_waiter
remove_waiter-total none ch p d = (ch.waiters, refl)
remove_waiter-total (some id) ch p d =
    let (w, at, i) = waiter_at-probing id ch.waiters p in
    let dropped = record ch { waiters = remove_waiter w.seq ch.waiters } in
    (
      remove_waiter w.seq ch.waiters,
      ap (drop_at id ch) at
          ∙ ap (drop_waiter id w.seq ch) (get-waiter_at id w ch.waiters d at)
          ∙ ap (λ b. if b then some dropped else none) ((==_iff w.id id).1 i),
    )

-- The probe's deadline: it is set again, or the channel is closed without touching freed memory.
latency_timeout-total :
    (env : Env) (ch : Channel)
    → ch.state ≡ connected
    → is_open ch.connection ≡ true
    → Stands true ch.latency_waiter ch.waiters
    → Distinct ch.waiters
    → ch.reconnect ≡ false
    → (ch' : Channel) × (latency_timeout env ch ≡ some ch') × IsValid ch'
unfolding latency_timeout give_up
latency_timeout-total env ch s o p d q =
    elim (Bool-cases (ltb (sub_size env.now (max ch.last_read ch.last_write)) latency_timeout_ms)) [
      | inl b ↦
          let again = set_deadline env.now latency_timeout_ms latency_due ch in
          (again, rw b refl, probing-Valid true (summary again) s o refl q d p)
      | inr b ↦
          let (ws, r) = remove_waiter-total ch.latency_waiter ch p d in
          let gone = record ch { waiters = ws; latency_waiter = none; latency = uint64_max } in
          (
            on_channel_close env timeout gone,
            rw b (
                ap
                  (λ o. o >>= λ ch'. some (
                    on_channel_close env timeout
                      (record ch' { latency_waiter = none; latency = uint64_max })))
                  r),
            close_up-IsValid env timeout gone (ap is_down s) q,
          )
    ]

-- The deadline's function runs with the deadline unset.
call-IsValid :
    (env : Env) (cb : TimeoutCb) (ch ch' : Channel)
    → Fits true ch.state ch.connection (some cb) ch.waiters ch.latency_waiter
    → ch.reconnect ≡ false
    → Distinct ch.waiters
    → call_timeout env cb (record ch { deadline = none }) ≡ some ch'
    → IsValid ch'
unfolding call_timeout reconnect_cb ch_connect_timeout send_latency_probe
call-IsValid env reconnect_due ch ch' f q d e =
    let (i, c, w) = reconnect-state ch.state ch.connection ch.waiters ch.latency_waiter f in
    with_token-IsValid env env.api_session_token (record ch { deadline = none }) ch'
      (record { idle = i; no_stream = c; no_waiters = w; quiet = q }) tt e
call-IsValid env connect_due ch ch' f q d e =
    let ch0 = record ch { deadline = none } in
    subst IsValid (some_inj (on_channel_close env timeout ch0) ch' e) (
      close_up-IsValid env timeout ch0
        (connect-state ch.state ch.connection ch.waiters ch.latency_waiter f) q)
call-IsValid env probe_due ch ch' f q d e =
    let (s, o) = probe-state ch.state ch.connection ch.waiters ch.latency_waiter f in
    let ch0 = set_deadline env.now latency_timeout_ms latency_due ch in
    let ((ch1, w), a, b) =
      bind-some
        (ziti_channel_send_for_reply env latency_type (probe_hdrs env.now) [] latency_reply ch0)
        (λ (ch', waiter). some (record ch' { latency_waiter = waiter })) ch' e in
    subst IsValid (some_inj (record ch1 { latency_waiter = w }) ch' b) (
      probe-IsValid env latency_type (probe_hdrs env.now) [] ch0 (ch1, w)
        (probing-Valid false (summary ch0) s o refl q d tt) s refl a)
call-IsValid env latency_due ch ch' f q d e =
    let (s, o, p) = latency-state ch.state ch.connection ch.waiters ch.latency_waiter f in
    let (ch1, r, v) = latency_timeout-total env (record ch { deadline = none }) s o p d q in
    subst IsValid (some_inj ch1 ch' (sym r ∙ e)) v

expire_from-IsValid :
    (env : Env) (t : Option Timer) (ch ch' : Channel)
    → IsValid ch
    → ch.deadline ≡ t
    → expire env t ch ≡ some ch'
    → IsValid ch'
unfolding expire
expire_from-IsValid env none ch ch' v p e = subst IsValid (some_inj ch ch' e) v
expire_from-IsValid env (some t) ch ch' v p e =
    call-IsValid env t.expire_cb ch ch'
      (subst (λ d. Fits true ch.state ch.connection (cb_of d) ch.waiters ch.latency_waiter) p
        v.fits)
      v.quiet v.distinct e

pub expire-IsValid :
    (env : Env) (ch ch' : Channel) → IsValid ch → expire env ch.deadline ch ≡ some ch' → IsValid ch'
expire-IsValid env ch ch' v e = expire_from-IsValid env ch.deadline ch ch' v refl e

-- In a channel that fits the invariant, a probe's timeout that has come always ends, without an access to
-- a freed waiter and without a failed assert, and the channel fits the invariant again.
pub latency_timeout_lem :
    (env : Env) (ch : Channel)
    → IsValid ch
    → cb_of ch.deadline ≡ some latency_due
    → (ch' : Channel) × (call_timeout env latency_due (record ch { deadline = none }) ≡ some ch')
      × IsValid ch'
unfolding call_timeout
latency_timeout_lem env ch v e =
    let f = subst (λ d. Fits true ch.state ch.connection d ch.waiters ch.latency_waiter) e v.fits in
    let (s, o, p) = latency-state ch.state ch.connection ch.waiters ch.latency_waiter f in
    latency_timeout-total env (record ch { deadline = none }) s o p v.distinct v.quiet
