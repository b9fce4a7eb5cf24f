-- ===== src/Channel/Sending.antt =====
-- Sending on a channel, in library/channel.c: `ziti_channel_send_message`, `ziti_channel_send`,
-- `on_channel_send`, and the operations that only send. `none` is a use of a connection that is not
-- there, or a message that cannot be built.
use ziti_sdk_c.Base.{
  ℕ, Bool, true, false, List, [], ◌∷◌, Option, none, some, ◌>>=◌, ◌==◌, length, add_size, sub_size,
  write_u32,
}
use ziti_sdk_c.Errors.{ZitiError, connabort, gateway_unavailable}
use ziti_sdk_c.EdgeProtocol.ContentType.{state_closed, posture_response}
use ziti_sdk_c.EdgeProtocol.HeaderId.{conn_id_header}
use ziti_sdk_c.Message.Hdrs.{Hdr}
use ziti_sdk_c.Message.Build.{Message, message_new, message_set_seq, write_body}
use ziti_sdk_c.Channel.State.{
  ChannelState, initial, connecting, connected, closed, write_done, returned, stream_write, Channel,
  Env, emit,
}
use ziti_sdk_c.Channel.Closing.{on_channel_close}

-- `struct ziti_write_req_s`, as far as a channel uses it.
pub record WriteReq : Type 0 where
  pub conn : Option ℕ
  pub message : Message
  pub start_ts : ℕ

-- `on_write_completed` of the connection, if there is one.
unfoldable pub completed : Option ℕ → Bool → Channel → Channel
completed none status ch = ch
completed (some conn) status ch = emit (write_done conn status) ch

-- The counters, and the message that is given back.
unfoldable pub sent : Env → WriteReq → Bool → Channel → Channel
unfolding completed
sent env w status ch = completed w.conn status (
    emit (returned w.message) (record ch {
      last_write = env.now;
      last_write_delay = sub_size env.now w.start_ts;
      out_q = sub_size ch.out_q 1;
      out_q_bytes = sub_size ch.out_q_bytes w.message.msgbuflen;
    }))

-- A write has failed: the channel is closed when it was the last one.
unfoldable pub close_if : Env → Bool → Channel → Channel
close_if env true ch = on_channel_close env connabort ch
close_if env false ch = ch

unfoldable pub failed : Env → Channel → Channel
unfolding close_if
failed env ch = close_if env (ch.out_q == 0) ch

-- `status` says whether it is not negative.
unfoldable pub on_channel_send : Env → WriteReq → Bool → Channel → Channel
unfolding sent failed
on_channel_send env w true ch = sent env w true ch
on_channel_send env w false ch = failed env (sent env w false ch)

-- What is in flight, and how much of it.
unfoldable pub queued : Env → ℕ → Option ℕ → Message → ℕ → Channel → Channel
queued env tls conn m len ch =
    emit (stream_write tls m)
      (record ch { out_q = add_size ch.out_q 1; out_q_bytes = add_size ch.out_q_bytes len })

-- The result of `tlsuv_stream_write`: 0, or an error.
unfoldable pub after_write : Env → Bool → WriteReq → Channel → Channel × Option ZitiError
after_write env true w ch = (ch, none)
after_write env false w ch = (on_channel_send env w false ch, some gateway_unavailable)

unfoldable pub write_on :
    Env → Option ℕ → Option ℕ → Message → Channel → Option (Channel × Option ZitiError)
unfolding queued after_write
write_on env none conn m ch = none
write_on env (some tls) conn m ch = some (
    after_write env env.write_ok (record { conn = conn; message = m; start_ts = env.now })
      (queued env tls conn m m.msgbuflen ch))

unfoldable pub ziti_channel_send_message :
    Env → Option ℕ → Message → Channel → Option (Channel × Option ZitiError)
unfolding write_on
ziti_channel_send_message env conn msg ch =
    let (m, seq) = message_set_seq msg ch.msg_seq in
    write_on env ch.connection conn m (record ch { msg_seq = seq })

-- The message before it is sent, with its number, and the counter.
unfoldable pub numbered : Env → ℕ → List Hdr → List ℕ → Channel → Option (Message × ℕ)
numbered env content hdrs body ch =
    message_new env.heap none content hdrs (length body) >>= λ (pool, m).
    (let (m', seq) = message_set_seq m ch.msg_seq in write_body m' body >>= λ m''. some (m'', seq))

unfoldable pub ziti_channel_send :
    Env → ℕ → List Hdr → List ℕ → Option ℕ → Channel → Option (Channel × Option ZitiError)
unfolding numbered
ziti_channel_send env content hdrs body conn ch = numbered env content hdrs body ch >>= λ (m, seq).
    ziti_channel_send_message env conn m (record ch { msg_seq = seq })

unfoldable pub ch_send_conn_closed : Env → ℕ → Channel → Option (Channel × Option ZitiError)
ch_send_conn_closed env conn_id ch =
    ziti_channel_send env state_closed
      (record { header_id = conn_id_header; size = 4; value = write_u32 conn_id } ∷ []) [] none ch

-- The result of the send is dropped.
unfoldable pub forget : Channel × Option ZitiError → Channel × Option ZitiError
forget (ch, rc) = (ch, none)

unfoldable pub posture_from :
    Env → List ℕ → ChannelState → Channel → Option (Channel × Option ZitiError)
unfolding forget
posture_from env bytes connected ch =
    ziti_channel_send env posture_response [] bytes none ch >>= λ r. some (forget r)
posture_from env bytes initial ch = some (ch, some gateway_unavailable)
posture_from env bytes connecting ch = some (ch, some gateway_unavailable)
posture_from env bytes ChannelState.disconnected ch = some (ch, some gateway_unavailable)
posture_from env bytes closed ch = some (ch, some gateway_unavailable)

unfoldable pub ziti_channel_update_posture :
    Env → List ℕ → Channel → Option (Channel × Option ZitiError)
unfolding posture_from
ziti_channel_update_posture env bytes ch = posture_from env bytes ch.state ch
