-- ===== src/Connect/Receiving.antt =====
-- The bytes that come in on a connection, in library/connect.c: `conn_inbound_data_msg`, which puts
-- them into the buffer, and `flush_to_client`, which hands them to the client.
pub mod Parts
pub mod Taken
pub mod Flags
pub mod Opened
pub mod Delivered
pub mod Signals
pub mod Offered
pub mod Overread
use ziti_sdk_c.Base.{
  ℕ, zero, suc, ◌+◌, ◌-◌, ◌*◌, ◌/◌, ◌%◌, Bool, true, false, not, ◌&&◌, ◌||◌, List, [], ◌∷◌, ◌++◌,
  Option, none, some, ltb, leb, ◌==◌, if◌then◌else◌, length, take, drop, add_size,
}
use ziti_sdk_c.Errors.{ZitiError, eof, conn_closed, crypto_fail}
use ziti_sdk_c.EdgeProtocol.HeaderId.{flags_header}
use ziti_sdk_c.Message.Hdrs.{Hdr}
use ziti_sdk_c.Message.Query.{message_get_int32_header}
use ziti_sdk_c.Buffer.{Buffer, buffer_append, buffer_append_copy, buffer_get_next, buffer_push_back}
use ziti_sdk_c.Connect.State.{
  ConnState, initial, connecting, connected, accepting, close_write, timedout, disconnected, closed,
  rank, EdgeMessage, Conn, Env, edge_fin, edge_multipart_msg, has_flag, client_data, client_code,
  fault, emit, conn_set_state,
}

-- The flags of a message, 0 if it has none.
unfoldable pub inbound_flags : List Hdr → ℕ
inbound_flags hdrs = elim (message_get_int32_header hdrs flags_header) [ none ↦ 0 | some n ↦ n ]

-- The loop over the parts of a multipart message: the list is what stands from `p` to `end`, and the
-- length of a part is not compared with it. `none` is a read past `end`.
unfoldable pub append_parts : ℕ → List ℕ → Buffer → Option Buffer
append_parts zero p b = none
append_parts (suc fuel) [] b = none
append_parts (suc fuel) (x ∷ []) b = none
append_parts (suc fuel) (x ∷ y ∷ p) b =
    let partlen = x + 256 * y in
    let rest = append_parts fuel (drop partlen p) (buffer_append_copy b (take partlen p)) in
    if ltb (length p) partlen
    then none
    else if leb (length p) partlen
    then some (buffer_append_copy b (take partlen p))
    else rest

-- What decrypting a message leaves: nothing, a text, an error, or the failed assert on `malloc`.
pub data Plain : Type 0 where
  no_text crypto_error no_memory : Plain
  text : List ℕ → Plain

unfoldable pub header_pulled : Option (List ℕ) → Conn → Plain × Conn
header_pulled none c = (crypto_error, c)
header_pulled (some state) c = (no_text, record c { crypt_i = state; rx = none })

-- The first message is the header of the peer's cipher.
unfoldable pub pull_header : Env → List ℕ → List ℕ → Conn → Plain × Conn
unfolding header_pulled
pull_header env key body c =
    if length body == env.header_bytes
    then header_pulled (env.init_pull body key) c
    else (crypto_error, c)

unfoldable pub pulled : Option (List ℕ × List ℕ) → Conn → Plain × Conn
pulled none c = (crypto_error, c)
pulled (some (plain, state)) c = (text plain, record c { crypt_i = state })

-- `body_len - ABYTES` is the size of the allocation, in 32 bits: for a shorter text it wraps to nearly
-- 4 GB, and if `malloc` gives them the text is still too short to be decrypted.
unfoldable pub pull_short : Bool → Conn → Plain × Conn
pull_short true c = (crypto_error, c)
pull_short false c = (no_memory, c)

unfoldable pub pull_text : Env → List ℕ → Conn → Plain × Conn
unfolding pulled pull_short
pull_text env [] c = (no_text, c)
pull_text env (x ∷ xs) c =
    if ltb (length (x ∷ xs)) env.abytes
    then pull_short env.short_text c
    else pulled (env.pull c.crypt_i (x ∷ xs)) c

unfoldable pub pull_with : Env → Option (List ℕ) → List ℕ → Conn → Plain × Conn
unfolding pull_header pull_text
pull_with env (some key) body c = pull_header env key body c
pull_with env none body c = pull_text env body c

abbrev pub plain_of : List ℕ → Plain
plain_of [] = no_text
plain_of (x ∷ xs) = text (x ∷ xs)

unfoldable pub decrypt : Env → Bool → List ℕ → Conn → Plain × Conn
unfolding pull_with
decrypt env true body c = pull_with env c.rx body c
decrypt env false body c = (plain_of body, c)

unfoldable pub appended_parts : Option Buffer → Conn → Conn
appended_parts none c = emit fault c
appended_parts (some b) c = record c { inbound = b }

-- `true` is a multipart message. The loop takes two bytes at least in each round.
unfoldable pub take_text : Bool → List ℕ → Conn → Conn
unfolding append_parts appended_parts
take_text true plain c = appended_parts (append_parts (suc (length plain)) plain c.inbound) c
take_text false plain c = record c {
  inbound = buffer_append c.inbound plain;
  received = add_size c.received (length plain);
}

unfoldable pub take_fin : Bool → Conn → Conn
take_fin true c = record c { fin_recv = 1 }
take_fin false c = c

-- `data_cb` is called even if it is not set.
unfoldable pub client_call : ZitiError → Bool → Conn → Conn
client_call code true c = emit (client_code code) c
client_call code false c = emit fault c

unfoldable pub take_plain : Env → ℕ → Plain → Conn → Conn
unfolding take_text take_fin client_call
take_plain env flags no_text c = take_fin (has_flag flags edge_fin) c
take_plain env flags (text plain) c =
    take_fin (has_flag flags edge_fin) (take_text (has_flag flags edge_multipart_msg) plain c)
take_plain env flags no_memory c = emit fault c
take_plain env flags crypto_error c =
    client_call crypto_fail c.data_cb (conn_set_state env disconnected c)

unfoldable pub conn_inbound_data_msg : Env → EdgeMessage → Conn → Conn
unfolding inbound_flags decrypt take_plain
conn_inbound_data_msg env m c =
    if leb (rank disconnected) (rank c.state) || not (c.fin_recv == 0)
    then c
    else (let (plain, c') = decrypt env c.encrypted m.body c in
        take_plain env (inbound_flags m.hdrs) plain c')

abbrev pub chunk_size : ℕ
chunk_size = 16 * 1024

-- What the client took of a chunk, `len` bytes at `chunk`: the connection, and whether to go on.
unfoldable pub after_client : Option ℕ → ℕ → Conn → Conn × Bool
after_client none len c = (c, false)
after_client (some consumed) len c =
    if ltb consumed len
    then (record c { inbound = buffer_push_back c.inbound (len - consumed) }, false)
    else (c, true)

unfoldable pub hand_out : Env → ℕ → Option (ℕ × List ℕ) → Buffer → Conn → Conn × Bool
unfolding after_client
hand_out env round none b c = (record c { inbound = b }, true)
hand_out env round (some (len, chunk)) b c =
    after_client (env.consumes round (take len chunk)) len
      (emit (client_data (take len chunk)) (record c { inbound = b }))

unfoldable pub flush_chunk : Env → ℕ → Conn → Conn × Bool
unfolding hand_out
flush_chunk env round c =
    let (r, b) = buffer_get_next c.inbound chunk_size in hand_out env round r b c

-- The next round, unless the loop is left.
unfoldable pub continue : (Conn → Conn) → Conn × Bool → Conn
continue next (c, true) = next c
continue next (c, false) = c

-- The loop over the chunks; the number is `flushes`.
unfoldable pub flush_chunks : ℕ → Env → Conn → Conn
unfolding continue flush_chunk
flush_chunks zero env c = c
flush_chunks (suc flushes) env c =
    if ltb 0 c.inbound.available
    then continue (flush_chunks flushes env) (flush_chunk env flushes c)
    else c

-- The end of the data, once.
unfoldable pub signal_eof : Bool → Conn → Conn
signal_eof true c = emit (client_code eof) (record c { fin_recv = 2 })
signal_eof false c = c

unfoldable pub signal_closed : ConnState → Conn → Conn
signal_closed disconnected c = emit (client_code conn_closed) c
signal_closed initial c = c
signal_closed connecting c = c
signal_closed connected c = c
signal_closed accepting c = c
signal_closed close_write c = c
signal_closed timedout c = c
signal_closed closed c = c

unfoldable pub flush_data : Env → Conn → Conn × Bool
unfolding flush_chunks signal_eof signal_closed
flush_data env c =
    let c' = flush_chunks 128 env c in
    if ltb 0 c'.inbound.available
    then (c', true)
    else (signal_closed c'.state (signal_eof (c'.fin_recv == 1) c'), false)
