-- ===== src/Channel/Events/Life.antt =====
-- Every event in the life of a channel, as a step relation, and what holds after any of them.
use ziti_sdk_c.Base.{
  ℕ, ◌≡◌, refl, subst, Bool, true, false, List, Option, none, some, ◌⊎◌, inl, inr,
}
use ziti_sdk_c.Errors.{ZitiError}
use ziti_sdk_c.Message.Hdrs.{Hdr}
use ziti_sdk_c.Message.Build.{Message}
use ziti_sdk_c.Channel.State.{
  connecting, connected, TimeoutCb, reconnect_due, connect_due, probe_due, latency_due, ReplyCb,
  Waiter, Channel, Env, ziti_channel_add_receiver, ziti_channel_rem_receiver,
}
use ziti_sdk_c.Channel.Closing.{on_channel_close, ziti_channel_close, ziti_channel_force_connect}
use ziti_sdk_c.Channel.Sending.{
  WriteReq, on_channel_send, ziti_channel_send, ziti_channel_update_posture,
}
use ziti_sdk_c.Channel.Replies.{ziti_channel_send_for_reply, ziti_channel_update_token}
use ziti_sdk_c.Channel.Timers.{ConnectStatus, on_tls_connect, expire}
use ziti_sdk_c.Channel.Dispatch.{dispatch_message}
use ziti_sdk_c.Channel.Events.{new_ziti_channel, connect_channel, ReadResult, on_channel_data}
use ziti_sdk_c.Channel.Events.Tables.{is_latency}
use ziti_sdk_c.Channel.Events.Invariant.{is_open, cb_of, Watched, Fits, IsValid, close-IsValid}
use ziti_sdk_c.Channel.Events.Sends.{on_channel_send-Valid}
use ziti_sdk_c.Channel.Events.Requests.{Fresh, request-IsValid, update_token-IsValid}
use ziti_sdk_c.Channel.Events.Expiry.{on_tls_connect-IsValid}
use ziti_sdk_c.Channel.Events.Timeout.{expire-IsValid}
use ziti_sdk_c.Channel.Events.Arrival.{send-IsValid, dispatch-IsValid}
use ziti_sdk_c.Channel.Events.Calls.{
  connect_from-IsValid, force_from-IsValid, close_channel-IsValid, posture_from-IsValid,
  data-IsValid,
}

-- One event: a call of a client, the deadline, the stream, a message, the end of a write. A request takes
-- a number that is not in use, and `failure` is a frame that `process_inbound` refuses.
pub data Event : Channel → Channel → Type 0 where
  connect_call : {ch : Channel} (env : Env) → Event ch (connect_channel env ch)
  force_call : {ch : Channel} (env : Env) → Event ch (ziti_channel_force_connect env ch).0
  close_call : {ch : Channel} (env : Env) (e : ZitiError) → Event ch (ziti_channel_close env e ch)
  timer : {ch ch' : Channel} (env : Env) → expire env ch.deadline ch ≡ some ch' → Event ch ch'
  stream :
      {ch ch' : Channel} (env : Env) (tls : ℕ) (status : ConnectStatus)
      → Fresh ch
      → on_tls_connect env tls status ch ≡ some ch'
      → Event ch ch'
  data_read :
      {ch : Channel} (env : Env) (tls : ℕ) (r : ReadResult)
      → Event ch (on_channel_data env tls r ch).0
  failure : {ch : Channel} (env : Env) (e : ZitiError) → Event ch (on_channel_close env e ch)
  arrival :
      {ch ch' : Channel} (env : Env) (m : Message)
      → dispatch_message env m ch ≡ some ch'
      → Event ch ch'
  written :
      {ch : Channel} (env : Env) (w : WriteReq) (ok : Bool) → Event ch (on_channel_send env w ok ch)
  send_call :
      {ch ch' : Channel} (env : Env) (content : ℕ) (hdrs : List Hdr) (body : List ℕ)
      (conn : Option ℕ) (rc : Option ZitiError)
      → ziti_channel_send env content hdrs body conn ch ≡ some (ch', rc)
      → Event ch ch'
  request_call :
      {ch ch' : Channel} (env : Env) (content : ℕ) (hdrs : List Hdr) (body : List ℕ) (cb : ReplyCb)
      (w : Option ℕ)
      → Fresh ch
      → is_latency cb ≡ false
      → ziti_channel_send_for_reply env content hdrs body cb ch ≡ some (ch', w)
      → Event ch ch'
  token_call :
      {ch ch' : Channel} (env : Env) (token : Option (List ℕ)) (rc : Option ZitiError)
      → Fresh ch
      → ziti_channel_update_token env token ch ≡ some (ch', rc)
      → Event ch ch'
  posture_call :
      {ch ch' : Channel} (env : Env) (bytes : List ℕ) (rc : Option ZitiError)
      → ziti_channel_update_posture env bytes ch ≡ some (ch', rc)
      → Event ch ch'
  add_call : {ch : Channel} (id receiver : ℕ) → Event ch (ziti_channel_add_receiver id receiver ch)
  rem_call : {ch : Channel} (id : ℕ) → Event ch (ziti_channel_rem_receiver id ch)

-- One event after the other.
pub data Life : Channel → Channel → Type 0 where
  still : {ch : Channel} → Life ch ch
  then : {ch ch' ch'' : Channel} → Life ch ch' → Event ch' ch'' → Life ch ch''

-- Every event, a request or a hello with a number that is not in use, keeps the invariant: a channel has a
-- stream exactly while it is connecting or connected; while it is connecting its deadline is the connect timeout,
-- while it is connected the next probe or the timeout of one whose waiter, if it has one, is there, otherwise a
-- reconnect or nothing, and nothing once it is closed; only a connected channel has the waiter of a probe, only
-- one that is connecting or connected has waiters at all, no two of them have the same number, and
-- `reconnect` is not set.
pub Event-IsValid : (ch ch' : Channel) → Event ch ch' → IsValid ch → IsValid ch'
unfolding connect_channel ziti_channel_force_connect ziti_channel_close ziti_channel_update_posture
    ziti_channel_add_receiver ziti_channel_rem_receiver
Event-IsValid ch ch' (connect_call env) v = connect_from-IsValid env ch.state ch v refl
Event-IsValid ch ch' (force_call env) v = force_from-IsValid env ch.state ch v refl
Event-IsValid ch ch' (close_call env e) v = close_channel-IsValid env e ch.state ch v
Event-IsValid ch ch' (timer env p) v = expire-IsValid env ch ch' v p
Event-IsValid ch ch' (stream env tls status f p) v =
    on_tls_connect-IsValid env tls status ch ch' v f p
Event-IsValid ch ch' (data_read env tls r) v = data-IsValid env tls r ch v
Event-IsValid ch ch' (failure env e) v = close-IsValid env e ch v
Event-IsValid ch ch' (arrival env m p) v = dispatch-IsValid env m ch ch' v p
Event-IsValid ch ch' (written env w ok) v = on_channel_send-Valid true env w ok ch v (inl refl)
Event-IsValid ch ch' (send_call env content hdrs body conn rc p) v =
    send-IsValid env content hdrs body conn ch ch' rc v p
Event-IsValid ch ch' (request_call env content hdrs body cb w f n p) v =
    request-IsValid env content hdrs body cb ch (ch', w) v f n p
Event-IsValid ch ch' (token_call env token rc f p) v =
    update_token-IsValid env token ch (ch', rc) v f p
Event-IsValid ch ch' (posture_call env bytes rc p) v =
    posture_from-IsValid env bytes ch.state ch (ch', rc) v p
Event-IsValid ch ch' (add_call id receiver) v = v
Event-IsValid ch ch' (rem_call id) v = v

pub Life-IsValid : (ch ch' : Channel) → Life ch ch' → IsValid ch → IsValid ch'
Life-IsValid ch ch' still v = v
Life-IsValid ch ch'' (then {ch' = ch'} l e) v = Event-IsValid ch' ch'' e (Life-IsValid ch ch' l v)

pub new-IsValid : (token : List ℕ) (next_id : ℕ) → IsValid (new_ziti_channel token next_id)
unfolding new_ziti_channel
new-IsValid token next_id = record { fits = (refl, tt, refl); quiet = refl; distinct = tt }

-- After any events on a new channel: while it is connecting it waits for the connect timeout.
pub connecting_watched :
    (token : List ℕ) (next_id : ℕ) (ch : Channel)
    → Life (new_ziti_channel token next_id) ch
    → ch.state ≡ connecting
    → (is_open ch.connection ≡ true) × (cb_of ch.deadline ≡ some connect_due)
connecting_watched token next_id ch l s =
    let v = Life-IsValid (new_ziti_channel token next_id) ch l (new-IsValid token next_id) in
    let f =
      subst (λ s. Fits true s ch.connection (cb_of ch.deadline) ch.waiters ch.latency_waiter) s
        v.fits in
    (f.0, f.1)

Watched-cases :
    (d : Option TimeoutCb) (id : Option ℕ) (ws : List Waiter)
    → Watched true d id ws
    → (d ≡ some probe_due) ⊎ (d ≡ some latency_due)
Watched-cases none id ws w = absurd w
Watched-cases (some reconnect_due) id ws w = absurd w
Watched-cases (some connect_due) id ws w = absurd w
Watched-cases (some probe_due) id ws w = inl refl
Watched-cases (some latency_due) id ws w = inr refl

-- After any events on a new channel, each request with a number that is not in use and each event
-- with a defined outcome: while the channel is connected it has a stream, and its deadline is that of
-- the next latency probe or of the timeout of the last one. Replies to probes are among the events,
-- with whatever number the machine reads as their time.
pub connected_watched :
    (token : List ℕ) (next_id : ℕ) (ch : Channel)
    → Life (new_ziti_channel token next_id) ch
    → ch.state ≡ connected
    → (is_open ch.connection ≡ true)
      × ((cb_of ch.deadline ≡ some probe_due) ⊎ (cb_of ch.deadline ≡ some latency_due))
connected_watched token next_id ch l s =
    let v = Life-IsValid (new_ziti_channel token next_id) ch l (new-IsValid token next_id) in
    let f =
      subst (λ s. Fits true s ch.connection (cb_of ch.deadline) ch.waiters ch.latency_waiter) s
        v.fits in
    (f.0, Watched-cases (cb_of ch.deadline) ch.latency_waiter ch.waiters f.1)
