-- ===== src/Channel/Replies.antt =====
-- Requests on a channel that wait for a reply, in library/channel.c: `hello_reply_cb`,
-- `latency_reply_cb`, `ziti_channel_send_for_reply`, `send_hello` and `ziti_channel_update_token`.
pub mod Cancelled
use ziti_sdk_c.Base.{
  ℕ, ◌+◌, Bool, true, false, List, [], ◌∷◌, Option, none, some, ◌>>=◌, ◌==◌, if◌then◌else◌, length,
  sub_size,
}
use ziti_sdk_c.Errors.{ZitiError, connabort, gateway_unavailable, not_authorized}
use ziti_sdk_c.EdgeProtocol.ContentType.{hello_type, result_type, update_token}
use ziti_sdk_c.EdgeProtocol.HeaderId.{
  result_success_header, hello_version_header, latency_probe_time, session_token_header,
  supports_inspect_header,
}
use ziti_sdk_c.Message.Hdrs.{Hdr}
use ziti_sdk_c.Message.Query.{
  message_get_bool_header, message_get_uint64_header, message_get_bytes_header,
}
use ziti_sdk_c.Message.Build.{Message}
use ziti_sdk_c.Channel.State.{
  ChannelState, initial, connecting, connected, closed, router_connected, probe_due, ReplyCb,
  hello_reply, latency_reply, token_reply, client_reply, Waiter, notified, replied, Channel, Env,
  uint64_max, latency_interval, emit, set_deadline, set_waiter,
}
use ziti_sdk_c.Channel.Closing.{on_channel_close}
use ziti_sdk_c.Channel.Sending.{numbered, ziti_channel_send_message}

-- `ch->latency` after a reply with its time stamp, if it has one.
unfoldable pub measure : Env → Option ℕ → Channel → Channel
measure env none ch = ch
measure env (some ts) ch = record ch { latency = sub_size env.now ts }

-- The time stamp of a reply. From its fifth byte on C leaves the shifts of
-- `message_get_uint64_header` undefined; the number is then the one that the machine gives.
unfoldable pub probe_time : Env → List Hdr → Option ℕ
probe_time env hdrs = elim (message_get_uint64_header hdrs latency_probe_time) [
  | none ↦ some (env.shifted_time hdrs)
  | some ts ↦ ts
]

unfoldable pub measured : Env → Message → Channel → Channel
unfolding measure probe_time
measured env reply ch =
    if reply.header.content == result_type then measure env (probe_time env reply.hdrs) ch else ch

-- A reply without an error has a message.
unfoldable pub latency_reply_cb : Env → Option Message → Option ZitiError → Channel → Option Channel
unfolding measured
latency_reply_cb env reply (some e) ch = some (record ch { latency = uint64_max })
latency_reply_cb env none none ch = none
latency_reply_cb env (some reply) none ch =
    some (set_deadline env.now latency_interval probe_due (measured env reply ch))

-- "<unknown>"
abbrev pub unknown_version : List ℕ
unknown_version = 60 ∷ 117 ∷ 110 ∷ 107 ∷ 110 ∷ 111 ∷ 119 ∷ 110 ∷ 62 ∷ []

unfoldable pub version_of : Option (ℕ × List ℕ) → List ℕ
version_of none = unknown_version
version_of (some (len, version)) = version

-- `success` is set from the header, if it is there.
unfoldable pub success_of : Option Bool → Bool
success_of none = false
success_of (some success) = success

unfoldable pub hello_success : Message → Option Bool
unfolding success_of
hello_success msg =
    if msg.header.content == result_type
    then (message_get_bool_header msg.hdrs result_success_header >>= λ b. some (success_of b))
    else some false

unfoldable pub hello_done : Env → Message → Bool → Channel → Channel
unfolding version_of
hello_done env msg true ch =
    let ch1 = record ch {
      state = connected;
      version = version_of (message_get_bytes_header msg.hdrs hello_version_header);
    } in
    let ch2 = emit (notified router_connected none) ch1 in
    set_deadline env.now latency_interval probe_due
      (record ch2 { latency = sub_size env.now ch2.latency })
hello_done env msg false ch = on_channel_close env connabort ch

unfoldable pub hello_reply_cb : Env → Option Message → Channel → Option Channel
unfolding hello_success hello_done
hello_reply_cb env none ch = some (on_channel_close env connabort ch)
hello_reply_cb env (some msg) ch =
    hello_success msg >>= λ success. some (hello_done env msg success ch)

-- `w->cb(w->reply_ctx, m, err)`; `token_update_cb` only writes to the log file.
unfoldable pub call_reply :
    Env → ReplyCb → Option Message → Option ZitiError → Channel → Option Channel
call_reply env hello_reply m e ch = hello_reply_cb env m ch
call_reply env latency_reply m e ch = latency_reply_cb env m e ch
call_reply env token_reply m e ch = some ch
call_reply env (client_reply ctx) m e ch = some (emit (replied ctx m e) ch)

-- After the send: either the waiter is registered, and is the result, or its callback is called.
unfoldable pub await : Env → ReplyCb → ℕ → Channel × Option ZitiError → Option (Channel × Option ℕ)
await env cb seq (ch, none) =
    let w : Waiter = record { id = ch.next_waiter; seq = seq; cb = cb } in
    some (
      record ch { waiters = set_waiter w ch.waiters; next_waiter = ch.next_waiter + 1 },
      some ch.next_waiter,
    )
await env cb seq (ch, some rc) = call_reply env cb none (some rc) ch >>= λ ch'. some (ch', none)

unfoldable pub ziti_channel_send_for_reply :
    Env → ℕ → List Hdr → List ℕ → ReplyCb → Channel → Option (Channel × Option ℕ)
unfolding await
ziti_channel_send_for_reply env content hdrs body cb ch =
    numbered env content hdrs body ch >>= λ (m, seq).
    ziti_channel_send_message env none m (record ch { msg_seq = seq }) >>= λ r.
    await env cb m.header.seq r

unfoldable pub hello_hdrs : List ℕ → List Hdr
hello_hdrs token =
    record { header_id = session_token_header; size = length token; value = token }
    ∷ record { header_id = supports_inspect_header; size = 1; value = 1 ∷ [] }
    ∷ []

unfoldable pub send_hello : Env → List ℕ → Channel → Option Channel
unfolding hello_hdrs
send_hello env token ch =
    ziti_channel_send_for_reply env hello_type (hello_hdrs token) ch.token hello_reply
      (record ch { latency = env.now })
    >>= λ (ch', waiter). some ch'

unfoldable pub token_from :
    Env → List ℕ → ChannelState → Channel → Option (Channel × Option ZitiError)
token_from env token connected ch =
    ziti_channel_send_for_reply env update_token [] token token_reply ch >>= λ (ch', waiter).
    some (ch', none)
token_from env token initial ch = some (ch, some gateway_unavailable)
token_from env token connecting ch = some (ch, some gateway_unavailable)
token_from env token ChannelState.disconnected ch = some (ch, some gateway_unavailable)
token_from env token closed ch = some (ch, some gateway_unavailable)

-- The channel is there: `ch == NULL` is `ZITI_INVALID_STATE`.
unfoldable pub ziti_channel_update_token :
    Env → Option (List ℕ) → Channel → Option (Channel × Option ZitiError)
unfolding token_from
ziti_channel_update_token env none ch = some (ch, some not_authorized)
ziti_channel_update_token env (some token) ch = token_from env token ch.state ch
