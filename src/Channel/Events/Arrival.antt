-- ===== src/Channel/Events/Arrival.antt =====
-- The invariant of a channel when a message comes in.
use ziti_sdk_c.Base.{
  ℕ, ◌≡◌, refl, sym, ap, ◌∙◌, subst, inl, inr, write_u32, Bool, true, false, List, [], ◌∷◌, Option,
  none, some, ◌>>=◌, ◌==◌, Bool-cases, length, bind-some, some_inj,
}
use ziti_sdk_c.Errors.{ZitiError, connabort}
use ziti_sdk_c.EdgeProtocol.ContentType.{result_type, state_closed, conn_inspect_request}
use ziti_sdk_c.EdgeProtocol.HeaderId.{reply_for_header, conn_id_header}
use ziti_sdk_c.Message.Hdrs.{Hdr}
use ziti_sdk_c.Message.Query.{message_get_int32_header}
use ziti_sdk_c.Message.Build.{Message, new_inspect_result}
use ziti_sdk_c.Channel.State.{
  ChannelState, initial, connecting, connected, closed, TimeoutCb, probe_due, ReplyCb, hello_reply,
  latency_reply, token_reply, client_reply, Waiter, Receiver, replied, received, Channel, Env,
  latency_interval, emit, set_deadline, get_waiter, remove_waiter,
}
use ziti_sdk_c.Channel.Sending.{
  ziti_channel_send_message, ziti_channel_send, ch_send_conn_closed, numbered,
}
use ziti_sdk_c.Channel.Replies.{
  measure, probe_time, measured, latency_reply_cb, hello_success, hello_done, hello_reply_cb,
  call_reply,
}
use ziti_sdk_c.Channel.Dispatch.{
  is_edge, return_message, conn_type_invalid, conn_id_of, answer_unknown, receiver_of, deliver,
  by_content, lost_hello, unclaimed_in, unclaimed, answered, dispatch_from, dispatch_message,
}
use ziti_sdk_c.Channel.Events.Tables.{is_latency, Distinct, remove-Distinct}
use ziti_sdk_c.Channel.Events.Invariant.{
  Summary, summary, is_open, cb_of, Fits, Valid, IsValid, close-IsValid,
}
use ziti_sdk_c.Channel.Events.Waiting.{remove-Valid, latency-connected, probe-Valid, no_waiter}
use ziti_sdk_c.Channel.Events.Sends.{send_message-Sent}

return-IsValid : (m : Message) (ch : Channel) → IsValid ch → IsValid (return_message m ch)
unfolding return_message
return-IsValid m ch v = v

-- What is sent without waiting for a reply.
pub send-IsValid :
    (env : Env) (content : ℕ) (hdrs : List Hdr) (body : List ℕ) (conn : Option ℕ) (ch ch' : Channel)
    (rc : Option ZitiError)
    → IsValid ch
    → ziti_channel_send env content hdrs body conn ch ≡ some (ch', rc)
    → IsValid ch'
unfolding ziti_channel_send
send-IsValid env content hdrs body conn ch ch' rc v e =
    let ((m, seq), a, b) =
      bind-some (numbered env content hdrs body ch)
        (λ (m, seq). ziti_channel_send_message env conn m (record ch { msg_seq = seq })) (ch', rc)
        e in
    (send_message-Sent true env conn m (record ch { msg_seq = seq }) ch' rc v b).valid

hello_done-IsValid :
    (env : Env) (m : Message) (success : Bool) (ch : Channel)
    → IsValid ch
    → is_open ch.connection ≡ true
    → IsValid (hello_done env m success ch)
unfolding hello_done
hello_done-IsValid env m true ch v o =
    probe-Valid true (summary (hello_done env m true ch)) refl o refl v.quiet v.distinct
hello_done-IsValid env m false ch v o = close-IsValid env connabort ch v

hello-IsValid :
    (env : Env) (m : Message) (ch ch' : Channel)
    → IsValid ch
    → is_open ch.connection ≡ true
    → hello_reply_cb env (some m) ch ≡ some ch'
    → IsValid ch'
unfolding hello_reply_cb
hello-IsValid env m ch ch' v o e =
    let (success, a, b) =
      bind-some (hello_success m) (λ success. some (hello_done env m success ch)) ch' e in
    subst IsValid (some_inj (hello_done env m success ch) ch' b)
      (hello_done-IsValid env m success ch v o)

measure-summary :
    (env : Env) (ts : Option ℕ) (ch : Channel) → summary (measure env ts ch) ≡ summary ch
unfolding measure
measure-summary env none ch = refl
measure-summary env (some ts) ch = refl

measured-summary :
    (env : Env) (m : Message) (ch : Channel) → summary (measured env m ch) ≡ summary ch
unfolding measured
measured-summary env m ch = elim (Bool-cases (m.header.content == result_type)) [
  | inl b ↦ rw b (measure-summary env (probe_time env m.hdrs) ch)
  | inr b ↦ rw b refl
]

-- The reply to a probe, on a connected channel.
latency-IsValid :
    (env : Env) (m : Message) (ch ch' : Channel)
    → ch.state ≡ connected
    → is_open ch.connection ≡ true
    → ch.reconnect ≡ false
    → Distinct ch.waiters
    → latency_reply_cb env (some m) none ch ≡ some ch'
    → IsValid ch'
unfolding latency_reply_cb
latency-IsValid env m ch ch' s o q d e =
    let same = measured-summary env m ch in
    let done = set_deadline env.now latency_interval probe_due (measured env m ch) in
    subst IsValid (some_inj done ch' e) (
      probe-Valid true (summary done) (ap Summary.state same ∙ s)
        (ap (λ t. is_open (Summary.connection t)) same ∙ o) refl (ap Summary.reconnect same ∙ q)
        (subst (λ t. Distinct (Summary.waiters t)) (sym same) d))

-- A channel with a waiter has a stream.
waiter-open :
    (s : ChannelState) (c : Option ℕ) (d : Option TimeoutCb) (ws : List Waiter) (id : Option ℕ)
    (seq : ℕ) (w : Waiter)
    → Fits true s c d ws id
    → get_waiter seq ws ≡ some w
    → is_open c ≡ true
waiter-open initial c d ws id seq w f g = absurd (no_waiter seq w ws f.2 g)
waiter-open connecting c d ws id seq w f g = f.0
waiter-open connected c d ws id seq w f g = f.0
waiter-open ChannelState.disconnected c d ws id seq w f g = absurd (no_waiter seq w ws f.2 g)
waiter-open closed c d ws id seq w f g = absurd (no_waiter seq w ws f.2 g)

call_reply-IsValid :
    (env : Env) (m : Message) (seq : ℕ) (w : Waiter) (cb : ReplyCb) (ch ch' : Channel)
    → IsValid ch
    → get_waiter seq ch.waiters ≡ some w
    → w.cb ≡ cb
    → call_reply env cb (some m) none (record ch { waiters = remove_waiter seq ch.waiters })
      ≡ some ch'
    → IsValid ch'
unfolding call_reply
call_reply-IsValid env m seq w hello_reply ch ch' v g c e =
    hello-IsValid env m (record ch { waiters = remove_waiter seq ch.waiters }) ch'
      (remove-Valid (summary ch) seq w v g (ap is_latency c))
      (waiter-open ch.state ch.connection (cb_of ch.deadline) ch.waiters ch.latency_waiter seq w
        v.fits g)
      e
call_reply-IsValid env m seq w latency_reply ch ch' v g c e =
    let (s, o) =
      latency-connected ch.state ch.connection (cb_of ch.deadline) ch.waiters ch.latency_waiter seq
        w v.fits g (ap is_latency c) in
    latency-IsValid env m (record ch { waiters = remove_waiter seq ch.waiters }) ch' s o v.quiet
      (remove-Distinct seq ch.waiters v.distinct) e
call_reply-IsValid env m seq w token_reply ch ch' v g c e =
    subst IsValid (some_inj (record ch { waiters = remove_waiter seq ch.waiters }) ch' e)
      (remove-Valid (summary ch) seq w v g (ap is_latency c))
call_reply-IsValid env m seq w (client_reply ctx) ch ch' v g c e =
    subst (Valid true)
      (ap summary (
        some_inj
          (emit (replied ctx (some m) none) (record ch { waiters = remove_waiter seq ch.waiters }))
          ch' e))
      (remove-Valid (summary ch) seq w v g (ap is_latency c))

answer_unknown-IsValid :
    (env : Env) (conn_id : ℕ) (m : Message) (ch ch' : Channel)
    → IsValid ch
    → answer_unknown env conn_id m ch ≡ some ch'
    → IsValid ch'
unfolding answer_unknown ch_send_conn_closed
answer_unknown-IsValid env conn_id m ch ch' v e =
    elim (Bool-cases (m.header.content == conn_inspect_request)) [
      | inl b ↦
          let msg = env.invalid_conn_id conn_id in
          let (reply, a, f) =
            bind-some
              (new_inspect_result env.heap m.header.seq conn_id conn_type_invalid msg (length msg))
              (λ reply. ziti_channel_send_message env none reply ch >>= λ (ch', rc). some ch') ch'
              (rw b at e) in
          let ((ch1, rc), c, g) =
            bind-some (ziti_channel_send_message env none reply ch) (λ (ch', rc). some ch') ch' f in
          subst IsValid (some_inj ch1 ch' g)
            (send_message-Sent true env none reply ch ch1 rc v c).valid
      | inr b ↦ elim (Bool-cases (m.header.content == state_closed)) [
        | inl c ↦ subst IsValid (some_inj ch ch' (rw (b, c) at e)) v
        | inr c ↦
            let ((ch1, rc), f, g) =
              bind-some (ch_send_conn_closed env conn_id ch) (λ (ch', rc). some ch') ch'
                (rw (b, c) at e) in
            subst IsValid (some_inj ch1 ch' g) (closed-IsValid ch1 rc f)
      ]
    ]
  where
    closed-IsValid :
        (ch1 : Channel) (rc : Option ZitiError)
        → ch_send_conn_closed env conn_id ch ≡ some (ch1, rc)
        → IsValid ch1
    closed-IsValid ch1 rc f =
        send-IsValid env state_closed
          (record { header_id = conn_id_header; size = 4; value = write_u32 conn_id } ∷ []) [] none
          ch ch1 rc v f

deliver-IsValid :
    (env : Env) (conn_id : Option ℕ) (r : Option Receiver) (m : Message) (ch ch' : Channel)
    → IsValid ch
    → deliver env conn_id r m ch ≡ some ch'
    → IsValid ch'
unfolding deliver
deliver-IsValid env conn_id (some r) m ch ch' v e =
    subst (Valid true) (ap summary (some_inj (emit (received r.receiver (some m) none) ch) ch' e)) v
deliver-IsValid env conn_id none m ch ch' v e =
    let (ch1, a, b) =
      bind-some (answer_unknown env (conn_id_of conn_id) m ch) (λ ch'. some (return_message m ch'))
        ch' e in
    subst IsValid (some_inj (return_message m ch1) ch' b)
      (return-IsValid m ch1 (answer_unknown-IsValid env (conn_id_of conn_id) m ch ch1 v a))

by_content-IsValid :
    (env : Env) (m : Message) (ch ch' : Channel)
    → IsValid ch
    → by_content env m ch ≡ some ch'
    → IsValid ch'
unfolding by_content
by_content-IsValid env m ch ch' v e = elim (Bool-cases (is_edge m.header.content)) [
  | inl b ↦
      let conn_id = message_get_int32_header m.hdrs conn_id_header in
      deliver-IsValid env conn_id (receiver_of conn_id ch.receivers) m ch ch' v (rw b at e)
  | inr b ↦ subst IsValid (some_inj (return_message m ch) ch' (rw b at e)) (return-IsValid m ch v)
]

unclaimed-IsValid :
    (env : Env) (m : Message) (s : ChannelState) (ch ch' : Channel)
    → IsValid ch
    → ch.state ≡ s
    → unclaimed_in env m s ch ≡ some ch'
    → IsValid ch'
unfolding unclaimed_in lost_hello
unclaimed-IsValid env m initial ch ch' v p e = by_content-IsValid env m ch ch' v e
unclaimed-IsValid env m connected ch ch' v p e = by_content-IsValid env m ch ch' v e
unclaimed-IsValid env m ChannelState.disconnected ch ch' v p e = by_content-IsValid env m ch ch' v e
unclaimed-IsValid env m closed ch ch' v p e = by_content-IsValid env m ch ch' v e
unclaimed-IsValid env m connecting ch ch' v p e =
    elim (Bool-cases (m.header.content == result_type)) [
      | inl b ↦
          let (ch1, a, q) =
            bind-some (hello_reply_cb env (some m) ch) (λ ch'. some (return_message m ch')) ch'
              (rw b at e) in
          let f =
            subst (λ s. Fits true s ch.connection (cb_of ch.deadline) ch.waiters ch.latency_waiter)
              p v.fits in
          subst IsValid (some_inj (return_message m ch1) ch' q)
            (return-IsValid m ch1 (hello-IsValid env m ch ch1 v f.0 a))
      | inr b ↦ by_content-IsValid env m ch ch' v (rw b at e)
    ]

answered-IsValid :
    (env : Env) (m : Message) (seq : ℕ) (w : Option Waiter) (ch ch' : Channel)
    → IsValid ch
    → get_waiter seq ch.waiters ≡ w
    → answered env m seq w ch ≡ some ch'
    → IsValid ch'
unfolding answered unclaimed
answered-IsValid env m seq none ch ch' v g e = unclaimed-IsValid env m ch.state ch ch' v refl e
answered-IsValid env m seq (some w) ch ch' v g e =
    let ch0 = record ch { waiters = remove_waiter seq ch.waiters } in
    let (ch1, a, b) =
      bind-some (call_reply env w.cb (some m) none ch0) (λ ch'. some (return_message m ch')) ch'
        e in
    subst IsValid (some_inj (return_message m ch1) ch' b)
      (return-IsValid m ch1 (call_reply-IsValid env m seq w w.cb ch ch1 v g refl a))

dispatch_from-IsValid :
    (env : Env) (m : Message) (reply_to : Option ℕ) (ch ch' : Channel)
    → IsValid ch
    → dispatch_from env m reply_to ch ≡ some ch'
    → IsValid ch'
unfolding dispatch_from unclaimed
dispatch_from-IsValid env m none ch ch' v e = unclaimed-IsValid env m ch.state ch ch' v refl e
dispatch_from-IsValid env m (some seq) ch ch' v e =
    answered-IsValid env m seq (get_waiter seq ch.waiters) ch ch' v refl e

pub dispatch-IsValid :
    (env : Env) (m : Message) (ch ch' : Channel)
    → IsValid ch
    → dispatch_message env m ch ≡ some ch'
    → IsValid ch'
unfolding dispatch_message
dispatch-IsValid env m ch ch' v e =
    dispatch_from-IsValid env m (message_get_int32_header m.hdrs reply_for_header) ch ch' v e
