-- ===== src/Channel/Dispatch.antt =====
-- `dispatch_message` of library/channel.c: what becomes of a message that has come in.
use ziti_sdk_c.Base.{ℕ, Bool, ◌||◌, List, Option, none, some, ◌>>=◌, ◌==◌, if◌then◌else◌, length}
use ziti_sdk_c.EdgeProtocol.ContentType.{
  result_type, connect, state_connected, state_closed, data_type, dial, dial_success, dial_failed,
  bind, unbind, conn_inspect_request,
}
use ziti_sdk_c.EdgeProtocol.HeaderId.{reply_for_header, conn_id_header}
use ziti_sdk_c.Pool.{pool_return_obj}
use ziti_sdk_c.Message.Query.{message_get_int32_header}
use ziti_sdk_c.Message.Build.{Message, new_inspect_result}
use ziti_sdk_c.Channel.State.{
  ChannelState, initial, connecting, connected, closed, Waiter, Receiver, received, returned,
  Channel, Env, emit, get_waiter, remove_waiter, find_receiver,
}
use ziti_sdk_c.Channel.Sending.{ziti_channel_send_message, ch_send_conn_closed}
use ziti_sdk_c.Channel.Replies.{hello_reply_cb, call_reply}

unfoldable pub is_edge : ℕ → Bool
is_edge content =
    content == connect
    || content == state_connected
    || content == state_closed
    || content == data_type
    || content == dial
    || content == dial_success
    || content == dial_failed
    || content == bind
    || content == unbind
    || content == conn_inspect_request

-- `pool_return_obj(m)` for a message of the channel's pool.
unfoldable pub return_message : Message → Channel → Channel
return_message m ch =
    emit (returned m) (record ch { in_msg_pool = (pool_return_obj ch.in_msg_pool m.obj).0 })

-- `ConnTypeInvalid`
abbrev pub conn_type_invalid : ℕ
conn_type_invalid = 0

-- `conn_id` is 0 if the message has none.
unfoldable pub conn_id_of : Option ℕ → ℕ
conn_id_of none = 0
conn_id_of (some conn_id) = conn_id

-- What the edge router is told about a connection that is not there.
unfoldable pub answer_unknown : Env → ℕ → Message → Channel → Option Channel
answer_unknown env conn_id m ch =
    if m.header.content == conn_inspect_request
    then (let msg = env.invalid_conn_id conn_id in
        new_inspect_result env.heap m.header.seq conn_id conn_type_invalid msg (length msg)
        >>= λ reply. ziti_channel_send_message env none reply ch >>= λ (ch', rc). some ch')
    else if m.header.content == state_closed
    then some ch
    else (ch_send_conn_closed env conn_id ch >>= λ (ch', rc). some ch')

unfoldable pub receiver_of : Option ℕ → List Receiver → Option Receiver
receiver_of none rs = none
receiver_of (some conn_id) rs = find_receiver conn_id rs

unfoldable pub deliver : Env → Option ℕ → Option Receiver → Message → Channel → Option Channel
unfolding conn_id_of answer_unknown return_message
deliver env conn_id (some conn) m ch = some (emit (received conn.receiver (some m) none) ch)
deliver env conn_id none m ch =
    answer_unknown env (conn_id_of conn_id) m ch >>= λ ch'. some (return_message m ch')

-- The message is no reply to a waiter, and no lost reply to the hello.
unfoldable pub by_content : Env → Message → Channel → Option Channel
unfolding receiver_of deliver
by_content env m ch =
    if is_edge m.header.content
    then (let conn_id = message_get_int32_header m.hdrs conn_id_header in
        deliver env conn_id (receiver_of conn_id ch.receivers) m ch)
    else some (return_message m ch)

unfoldable pub lost_hello : Env → Message → Channel → Option Channel
lost_hello env m ch = hello_reply_cb env (some m) ch >>= λ ch'. some (return_message m ch')

unfoldable pub unclaimed_in : Env → Message → ChannelState → Channel → Option Channel
unfolding by_content lost_hello
unclaimed_in env m connecting ch =
    if m.header.content == result_type then lost_hello env m ch else by_content env m ch
unclaimed_in env m initial ch = by_content env m ch
unclaimed_in env m connected ch = by_content env m ch
unclaimed_in env m ChannelState.disconnected ch = by_content env m ch
unclaimed_in env m closed ch = by_content env m ch

unfoldable pub unclaimed : Env → Message → Channel → Option Channel
unfolding unclaimed_in
unclaimed env m ch = unclaimed_in env m ch.state ch

-- The result of `model_map_removel(&ch->waiters, reply_to)`.
unfoldable pub answered : Env → Message → ℕ → Option Waiter → Channel → Option Channel
unfolding unclaimed
answered env m reply_to none ch = unclaimed env m ch
answered env m reply_to (some w) ch =
    call_reply env w.cb (some m) none (record ch { waiters = remove_waiter reply_to ch.waiters })
    >>= λ ch'. some (return_message m ch')

unfoldable pub dispatch_from : Env → Message → Option ℕ → Channel → Option Channel
unfolding answered
dispatch_from env m none ch = unclaimed env m ch
dispatch_from env m (some reply_to) ch = answered env m reply_to (get_waiter reply_to ch.waiters) ch

unfoldable pub dispatch_message : Env → Message → Channel → Option Channel
unfolding dispatch_from
dispatch_message env m ch =
    dispatch_from env m (message_get_int32_header m.hdrs reply_for_header) ch
