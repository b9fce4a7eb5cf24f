-- ===== src/Channel/Events/Requests.antt =====
-- The invariant of a channel across the requests that wait for a reply.
use ziti_sdk_c.Base.{
  ℕ, ◌+◌, ◌≡◌, refl, sym, ap, ◌∙◌, subst, true, false, List, [], Option, none, some, ◌>>=◌, add32,
  bind-some, some_inj,
}
use ziti_sdk_c.Errors.{ZitiError, connabort, gateway_unavailable, not_authorized}
use ziti_sdk_c.EdgeProtocol.ContentType.{hello_type, update_token}
use ziti_sdk_c.Message.Hdrs.{Hdr}
use ziti_sdk_c.Channel.State.{
  ChannelState, initial, connecting, connected, closed, TimeoutCb, reconnect_due, connect_due,
  probe_due, latency_due, Waiter, ReplyCb, hello_reply, latency_reply, token_reply, client_reply,
  replied, Channel, Env, uint64_max, emit, has_waiter, set_waiter,
}
use ziti_sdk_c.Channel.Closing.{on_channel_close}
use ziti_sdk_c.Channel.Sending.{ziti_channel_send_message, numbered}
use ziti_sdk_c.Channel.Replies.{
  hello_reply_cb, latency_reply_cb, call_reply, await, ziti_channel_send_for_reply, hello_hdrs,
  send_hello, token_from, ziti_channel_update_token,
}
use ziti_sdk_c.Channel.Events.Tables.{is_latency, Distinct, set-Distinct, probing-set_new}
use ziti_sdk_c.Channel.Events.Invariant.{
  Summary, summary, is_open, cb_of, Watched, Fits, Valid, IsValid, close-IsValid,
}
use ziti_sdk_c.Channel.Events.Waiting.{set-Valid, probing-Valid}
use ziti_sdk_c.Channel.Events.Sends.{Sent, send_message-Sent, numbered_lem}

-- The next number of the channel is not in use.
abbrev pub Fresh : Channel → Type 0
Fresh ch = has_waiter (add32 ch.msg_seq 1) ch.waiters ≡ false

-- A callback that is told that the send has failed.
refused-IsValid :
    (env : Env) (cb : ReplyCb) (rc : ZitiError) (ch ch' : Channel)
    → IsValid ch
    → call_reply env cb none (some rc) ch ≡ some ch'
    → IsValid ch'
unfolding call_reply hello_reply_cb latency_reply_cb
refused-IsValid env hello_reply rc ch ch' v e =
    subst IsValid (some_inj (on_channel_close env connabort ch) ch' e)
      (close-IsValid env connabort ch v)
refused-IsValid env latency_reply rc ch ch' v e =
    subst (Valid true) (ap summary (some_inj (record ch { latency = uint64_max }) ch' e)) v
refused-IsValid env token_reply rc ch ch' v e =
    subst (Valid true) (ap summary (some_inj ch ch' e)) v
refused-IsValid env (client_reply ctx) rc ch ch' v e =
    subst (Valid true) (ap summary (some_inj (emit (replied ctx none (some rc)) ch) ch' e)) v

await-IsValid :
    (env : Env) (cb : ReplyCb) (seq : ℕ) (ch0 ch : Channel) (rc : Option ZitiError)
    (r : Channel × Option ℕ)
    → Sent true ch0 ch rc
    → is_latency cb ≡ false
    → has_waiter seq ch0.waiters ≡ false
    → await env cb seq (ch, rc) ≡ some r
    → IsValid (r.0)
unfolding await
await-IsValid env cb seq ch0 ch none r s n h e =
    let same = s.went_out refl in
    let w : Waiter = record { id = ch.next_waiter; seq = seq; cb = cb } in
    let added : Channel = record ch {
      waiters = set_waiter w ch.waiters;
      next_waiter = ch.next_waiter + 1;
    } in
    subst (λ r. IsValid (r.0)) (some_inj (added, some ch.next_waiter) r e)
      (set-Valid true (summary ch) w s.valid
        (ap (λ t. is_open (Summary.connection t)) same ∙ s.on_stream) n
        (ap (λ t. has_waiter seq (Summary.waiters t)) same ∙ h))
await-IsValid env cb seq ch0 ch (some rc) r s n h e =
    let (ch', c, q) =
      bind-some (call_reply env cb none (some rc) ch) (λ ch'. some (ch', none)) r e in
    subst (λ r. IsValid (r.0)) (some_inj (ch', none) r q)
      (refused-IsValid env cb rc ch ch' s.valid c)

-- A request whose number is not in use.
pub request-IsValid :
    (env : Env) (content : ℕ) (hdrs : List Hdr) (body : List ℕ) (cb : ReplyCb) (ch : Channel)
    (r : Channel × Option ℕ)
    → IsValid ch
    → Fresh ch
    → is_latency cb ≡ false
    → ziti_channel_send_for_reply env content hdrs body cb ch ≡ some r
    → IsValid (r.0)
unfolding ziti_channel_send_for_reply
request-IsValid env content hdrs body cb ch r v f n e =
    let ((m, seq), a, b) =
      bind-some (numbered env content hdrs body ch)
        (λ (m, seq). ziti_channel_send_message env none m (record ch { msg_seq = seq }) >>= λ r.
          await env cb m.header.seq r)
        r e in
    let ((ch1, rc), c, d) =
      bind-some (ziti_channel_send_message env none m (record ch { msg_seq = seq }))
        (λ r. await env cb m.header.seq r) r b in
    await-IsValid env cb m.header.seq (record ch { msg_seq = seq }) ch1 rc r
      (send_message-Sent true env none m (record ch { msg_seq = seq }) ch1 rc v c) n
      (ap (λ s. has_waiter s ch.waiters) (numbered_lem env content hdrs body ch m seq a) ∙ f) d

pub send_hello-IsValid :
    (env : Env) (token : List ℕ) (ch ch' : Channel)
    → IsValid ch
    → Fresh ch
    → send_hello env token ch ≡ some ch'
    → IsValid ch'
unfolding send_hello
send_hello-IsValid env token ch ch' v f e =
    let ((ch1, w), a, b) =
      bind-some
        (ziti_channel_send_for_reply env hello_type (hello_hdrs token) ch.token hello_reply
          (record ch { latency = env.now }))
        (λ (ch', waiter). some ch') ch' e in
    subst IsValid (some_inj ch1 ch' b) (
      request-IsValid env hello_type (hello_hdrs token) ch.token hello_reply
        (record ch { latency = env.now }) (ch1, w) v f refl a)

Watched-forget :
    (d : Option TimeoutCb) (id : Option ℕ) (ws : List Waiter)
    → Watched false d id ws
    → Watched true d none ws
Watched-forget none id ws x = x
Watched-forget (some reconnect_due) id ws x = x
Watched-forget (some connect_due) id ws x = x
Watched-forget (some probe_due) id ws x = x
Watched-forget (some latency_due) id ws x = tt

Fits-forget :
    (s : ChannelState) (c : Option ℕ) (d : Option TimeoutCb) (ws : List Waiter) (id : Option ℕ)
    → Fits false s c d ws id
    → Fits true s c d ws none
Fits-forget initial c d ws id f = f
Fits-forget connecting c d ws id f = f
Fits-forget connected c d ws id f = (f.0, Watched-forget d id ws f.1)
Fits-forget ChannelState.disconnected c d ws id f = f
Fits-forget closed c d ws id f = f

-- A probe that was not sent has no waiter.
forget-Valid : (s : Summary) → Valid false s → Valid true (record s { latency_waiter = none })
forget-Valid s v = record {
  fits = Fits-forget s.state s.connection (cb_of s.deadline) s.waiters s.latency_waiter v.fits;
  quiet = v.quiet;
  distinct = v.distinct;
}

await_probe-Valid :
    (env : Env) (seq : ℕ) (ch0 ch : Channel) (rc : Option ZitiError) (r : Channel × Option ℕ)
    → Valid false (summary ch0)
    → ch0.state ≡ connected
    → cb_of ch0.deadline ≡ some latency_due
    → Sent false ch0 ch rc
    → await env latency_reply seq (ch, rc) ≡ some r
    → IsValid (record (r.0) { latency_waiter = r.1 })
unfolding await call_reply latency_reply_cb
await_probe-Valid env seq ch0 ch none r v st d s e =
    let same = s.went_out refl in
    let w : Waiter = record { id = ch.next_waiter; seq = seq; cb = latency_reply } in
    let added : Channel = record ch {
      waiters = set_waiter w ch.waiters;
      next_waiter = ch.next_waiter + 1;
    } in
    subst (λ r. IsValid (record (r.0) { latency_waiter = r.1 }))
      (some_inj (added, some ch.next_waiter) r e)
      (probing-Valid true (summary (record added { latency_waiter = some ch.next_waiter }))
        (ap Summary.state same ∙ st) (ap (λ t. is_open (Summary.connection t)) same ∙ s.on_stream)
        (ap (λ t. cb_of (Summary.deadline t)) same ∙ d) (ap Summary.reconnect same ∙ v.quiet)
        (set-Distinct w ch.waiters
          (subst (λ t. Distinct (Summary.waiters t)) (sym same) v.distinct))
        (probing-set_new w ch.waiters refl))
await_probe-Valid env seq ch0 ch (some rc) r v st d s e =
    subst (λ r. IsValid (record (r.0) { latency_waiter = r.1 }))
      (some_inj (record ch { latency = uint64_max }, none) r e) (forget-Valid (summary ch) s.valid)

-- A probe, whatever waiter the last one had.
pub probe-IsValid :
    (env : Env) (content : ℕ) (hdrs : List Hdr) (body : List ℕ) (ch : Channel)
    (r : Channel × Option ℕ)
    → Valid false (summary ch)
    → ch.state ≡ connected
    → cb_of ch.deadline ≡ some latency_due
    → ziti_channel_send_for_reply env content hdrs body latency_reply ch ≡ some r
    → IsValid (record (r.0) { latency_waiter = r.1 })
unfolding ziti_channel_send_for_reply
probe-IsValid env content hdrs body ch r v st d e =
    let ((m, seq), a, b) =
      bind-some (numbered env content hdrs body ch)
        (λ (m, seq). ziti_channel_send_message env none m (record ch { msg_seq = seq }) >>= λ r.
          await env latency_reply m.header.seq r)
        r e in
    let ((ch1, rc), c, q) =
      bind-some (ziti_channel_send_message env none m (record ch { msg_seq = seq }))
        (λ r. await env latency_reply m.header.seq r) r b in
    await_probe-Valid env m.header.seq (record ch { msg_seq = seq }) ch1 rc r v st d
      (send_message-Sent false env none m (record ch { msg_seq = seq }) ch1 rc v c) q

token_from-IsValid :
    (env : Env) (token : List ℕ) (s : ChannelState) (ch : Channel) (r : Channel × Option ZitiError)
    → IsValid ch
    → Fresh ch
    → token_from env token s ch ≡ some r
    → IsValid (r.0)
unfolding token_from
token_from-IsValid env token connected ch r v f e =
    let ((ch1, w), a, b) =
      bind-some (ziti_channel_send_for_reply env update_token [] token token_reply ch)
        (λ (ch', waiter). some (ch', none)) r e in
    subst (λ r. IsValid (r.0)) (some_inj (ch1, none) r b)
      (request-IsValid env update_token [] token token_reply ch (ch1, w) v f refl a)
token_from-IsValid env token initial ch r v f e =
    subst (λ r. IsValid (r.0)) (some_inj (ch, some gateway_unavailable) r e) v
token_from-IsValid env token connecting ch r v f e =
    subst (λ r. IsValid (r.0)) (some_inj (ch, some gateway_unavailable) r e) v
token_from-IsValid env token ChannelState.disconnected ch r v f e =
    subst (λ r. IsValid (r.0)) (some_inj (ch, some gateway_unavailable) r e) v
token_from-IsValid env token closed ch r v f e =
    subst (λ r. IsValid (r.0)) (some_inj (ch, some gateway_unavailable) r e) v

pub update_token-IsValid :
    (env : Env) (token : Option (List ℕ)) (ch : Channel) (r : Channel × Option ZitiError)
    → IsValid ch
    → Fresh ch
    → ziti_channel_update_token env token ch ≡ some r
    → IsValid (r.0)
unfolding ziti_channel_update_token
update_token-IsValid env none ch r v f e =
    subst (λ r. IsValid (r.0)) (some_inj (ch, some not_authorized) r e) v
update_token-IsValid env (some token) ch r v f e = token_from-IsValid env token ch.state ch r v f e
