-- ===== src/Channel/Events/Sends.antt =====
-- The invariant of a channel across its sends.
use ziti_sdk_c.Base.{
  ℕ, ◌≡◌, refl, sym, ap, ◌∙◌, subst, ◌⊎◌, inl, inr, Bool, true, false, List, Option, none, some,
  ◌>>=◌, arith, ◌==◌, length, add32, bind-some, some_inj,
}
use ziti_sdk_c.Errors.{ZitiError, connabort, gateway_unavailable}
use ziti_sdk_c.Message.Hdrs.{Hdr}
use ziti_sdk_c.Message.Build.{Message, message_new, message_set_seq, write_body}
use ziti_sdk_c.Message.Build.Unnumbered.{message_new-seq, numbered-seq}
use ziti_sdk_c.Channel.State.{
  ChannelState, initial, connecting, connected, closed, TimeoutCb, Waiter, Channel, Env,
}
use ziti_sdk_c.Channel.Closing.{on_channel_close}
use ziti_sdk_c.Channel.Sending.{
  WriteReq, completed, sent, close_if, failed, after_write, on_channel_send, queued, write_on,
  ziti_channel_send_message, numbered,
}
use ziti_sdk_c.Channel.Events.Invariant.{
  Summary, summary, is_open, cb_of, Fits, Valid, IsValid, open-up, close_up-IsValid, close-IsValid,
}
use ziti_sdk_c.Channel.Events.Waiting.{Watched-loose}

completed-summary :
    (conn : Option ℕ) (ok : Bool) (ch : Channel) → summary (completed conn ok ch) ≡ summary ch
unfolding completed
completed-summary none ok ch = refl
completed-summary (some c) ok ch = refl

sent-summary :
    (env : Env) (w : WriteReq) (ok : Bool) (ch : Channel) → summary (sent env w ok ch) ≡ summary ch
unfolding sent
sent-summary env w ok ch = completed-summary w.conn ok _

-- A channel whose connection is there can be closed, whatever its deadline was.
close_open-Valid :
    (b : Bool) (env : Env) (e : ZitiError) (ch : Channel)
    → Valid b (summary ch)
    → is_open ch.connection ≡ true
    → IsValid (on_channel_close env e ch)
close_open-Valid b env e ch v o =
    close_up-IsValid env e ch
      (open-up b ch.state ch.connection (cb_of ch.deadline) ch.waiters ch.latency_waiter v.fits o)
      v.quiet

Fits-loose :
    (s : ChannelState) (c : Option ℕ) (d : Option TimeoutCb) (ws : List Waiter) (id : Option ℕ)
    → Fits true s c d ws id
    → Fits false s c d ws id
Fits-loose initial c d ws id f = f
Fits-loose connecting c d ws id f = f
Fits-loose connected c d ws id f = (f.0, Watched-loose d id ws ws f.1)
Fits-loose ChannelState.disconnected c d ws id f = f
Fits-loose closed c d ws id f = f

-- What fits strictly, fits loosely.
strict_loose : (b : Bool) (s : Summary) → Valid true s → Valid b s
strict_loose true s v = v
strict_loose false s v = record {
  fits = Fits-loose s.state s.connection (cb_of s.deadline) s.waiters s.latency_waiter v.fits;
  quiet = v.quiet;
  distinct = v.distinct;
}

failed-Valid :
    (b : Bool) (env : Env) (empty : Bool) (ch : Channel)
    → Valid b (summary ch)
    → (b ≡ true) ⊎ (is_open ch.connection ≡ true)
    → Valid b (summary (close_if env empty ch))
unfolding close_if
failed-Valid b env false ch v o = v
failed-Valid b env true ch v (inr o) =
    strict_loose b (summary (on_channel_close env connabort ch))
      (close_open-Valid b env connabort ch v o)
failed-Valid b env true ch v (inl e) =
    strict_loose b (summary (on_channel_close env connabort ch))
      (close-IsValid env connabort ch (subst (λ b. Valid b (summary ch)) e v))

-- The end of a write, good or bad.
pub on_channel_send-Valid :
    (b : Bool) (env : Env) (w : WriteReq) (ok : Bool) (ch : Channel)
    → Valid b (summary ch)
    → (b ≡ true) ⊎ (is_open ch.connection ≡ true)
    → Valid b (summary (on_channel_send env w ok ch))
unfolding on_channel_send failed
on_channel_send-Valid b env w true ch v o = subst (Valid b) (sym (sent-summary env w true ch)) v
on_channel_send-Valid b env w false ch v o =
    let same = sent-summary env w false ch in
    failed-Valid b env ((sent env w false ch).out_q == 0) (sent env w false ch)
      (subst (Valid b) (sym same) v) (still same o)
  where
    still :
        summary (sent env w false ch) ≡ summary ch
        → (b ≡ true) ⊎ (is_open ch.connection ≡ true)
        → (b ≡ true) ⊎ (is_open (sent env w false ch).connection ≡ true)
    still same (inl e) = inl e
    still same (inr e) = inr (ap (λ s. is_open (Summary.connection s)) same ∙ e)

-- What a send does: there was a stream; either it went out, and the channel is as it was, or it failed.
pub record Sent (b : Bool) (ch ch' : Channel) (rc : Option ZitiError) : Type 0 where
  pub on_stream : is_open ch.connection ≡ true
  pub valid : Valid b (summary ch')
  pub went_out : rc ≡ none → summary ch' ≡ summary ch

after_write-Sent :
    (b : Bool) (env : Env) (ok : Bool) (w : WriteReq) (ch ch' : Channel) (rc : Option ZitiError)
    → Valid b (summary ch)
    → is_open ch.connection ≡ true
    → after_write env ok w ch ≡ (ch', rc)
    → Sent b ch ch' rc
unfolding after_write
after_write-Sent b env true w ch ch' rc v o e = record {
  on_stream = o;
  valid = subst (Valid b) (ap (λ r. summary (r.0)) e) v;
  went_out = λ n. sym (ap (λ r. summary (r.0)) e);
}
after_write-Sent b env false w ch ch' rc v o e = record {
  on_stream = o;
  valid =
      subst (Valid b) (ap (λ r. summary (r.0)) e)
        (on_channel_send-Valid b env w false ch v (inr o));
  went_out = λ n. absurd (some_none (ap (λ r. r.1) e ∙ n));
}
  where
    some_none : some gateway_unavailable ≡ none → ⊥
    some_none q = ground arith

write_on-Sent :
    (b : Bool) (env : Env) (c conn : Option ℕ) (m : Message) (ch ch' : Channel)
    (rc : Option ZitiError)
    → Valid b (summary ch)
    → ch.connection ≡ c
    → write_on env c conn m ch ≡ some (ch', rc)
    → Sent b ch ch' rc
unfolding write_on queued
write_on-Sent b env none conn m ch ch' rc v p e = absurd (ground arith)
write_on-Sent b env (some tls) conn m ch ch' rc v p e =
    let w : WriteReq = record { conn = conn; message = m; start_ts = env.now } in
    let q = queued env tls conn m m.msgbuflen ch in
    let s =
      after_write-Sent b env env.write_ok w q ch' rc v (ap is_open p)
        (some_inj (after_write env env.write_ok w q) (ch', rc) e) in
    record { on_stream = s.on_stream; valid = s.valid; went_out = s.went_out }

pub send_message-Sent :
    (b : Bool) (env : Env) (conn : Option ℕ) (m : Message) (ch ch' : Channel)
    (rc : Option ZitiError)
    → Valid b (summary ch)
    → ziti_channel_send_message env conn m ch ≡ some (ch', rc)
    → Sent b ch ch' rc
unfolding ziti_channel_send_message
send_message-Sent b env conn m ch ch' rc v e =
    let r = message_set_seq m ch.msg_seq in
    let s =
      write_on-Sent b env ch.connection conn (r.0) (record ch { msg_seq = r.1 }) ch' rc v refl e in
    record { on_stream = s.on_stream; valid = s.valid; went_out = s.went_out }

-- The number of a request is the next one of the channel.
pub numbered_lem :
    (env : Env) (content : ℕ) (hdrs : List Hdr) (body : List ℕ) (ch : Channel) (m : Message)
    (seq : ℕ)
    → numbered env content hdrs body ch ≡ some (m, seq)
    → m.header.seq ≡ add32 ch.msg_seq 1
unfolding numbered
numbered_lem env content hdrs body ch m seq e =
    let ((pool, m0), made, f) =
      bind-some (message_new env.heap none content hdrs (length body))
        (λ (pool, m).
          (let (m', seq) = message_set_seq m ch.msg_seq in
            write_body m' body >>= λ m''. some (m'', seq)))
        (m, seq) e in
    let r = message_set_seq m0 ch.msg_seq in
    let (m1, w, h) = bind-some (write_body (r.0) body) (λ m''. some (m'', r.1)) (m, seq) f in
    ap (λ r. (r.0).header.seq) (sym (some_inj (m1, r.1) (m, seq) h))
    ∙ numbered-seq m0 m1 ch.msg_seq body
        (message_new-seq env.heap content hdrs (length body) (pool, m0) made) w
