-- ===== src/Channel/Inbound.antt =====
-- `process_inbound` of library/channel.c: the bytes that have come in are cut into messages.
pub mod Frames
pub mod Rounds
pub mod Start
pub mod Run
pub mod Stream
pub mod Empty
use ziti_sdk_c.Base.{
  ℕ, zero, suc, ◌+◌, ◌-◌, ◌%◌, Bool, true, false, List, [], ◌∷◌, ◌++◌, Option, none, some, Result,
  ok, err, ltb, ◌==◌, if◌then◌else◌, length, take, drop, u32_mod, size_mod, add32, add_size,
}
use ziti_sdk_c.Errors.{ZitiError}
use ziti_sdk_c.Buffer.{Buffer, buffer_get_next, buffer_append, buffer_cleanup, buffer_available}
use ziti_sdk_c.Pool.{Pool, pool_has_available, pool_return_obj}
use ziti_sdk_c.Message.Header.{header_size}
use ziti_sdk_c.Message.Hdrs.{Hdr, parse_hdrs}
use ziti_sdk_c.Message.Build.{Message, Made, Heap, room, message_new_from_header}

-- The fields of `struct ziti_channel` that `process_inbound` works on, and the messages that it has
-- handed to `dispatch_message`, oldest first.
pub record Inbound : Type 0 where
  pub incoming : Buffer
  pub pool : Pool
  pub in_next : Option Message
  pub in_body_offset : ℕ
  pub delivered : List Message

-- How the loop ends: by a `break`, with `rc` as the error if it is not 0; at an access outside an
-- allocation or a failed assert; or not within the fuel.
pub data Exit : Type 0 where
  stop : Option ZitiError → Inbound → Exit
  fault : Exit
  unfinished : Exit

-- `while (header_read < HEADER_SIZE)`: `missing` bytes are still to be read. A result of -1 is
-- passed to `memcpy`, a fault.
pub read_header : ℕ → Buffer → ℕ → List ℕ → Option (List ℕ × Buffer)
read_header fuel b zero got = some (got, b)
read_header zero b (suc missing) got = none
read_header (suc fuel) b (suc missing) got =
    let (r, b') = buffer_get_next b (suc missing) in
    elim r [
      | none ↦ none
      | some (len, ptr) ↦ read_header fuel b' (suc missing - len) (got ++ take len ptr)
    ]

-- The first half of a round: `inl` ends the loop.
pub data Round : Type 0 where
  ends : Exit → Round
  goes_on : Inbound → Round

-- What the section's functions stand for: `heap` is the allocator, `dispatch` what becomes of the
-- pool when a message is handed to `dispatch_message`.
module _ (heap : Heap) (dispatch : Pool → Message → Pool) where
  pub accept : Inbound → Buffer → Option Made → Round
  accept s b none = ends fault
  accept s b (some made) =
      let pool : Pool = elim made.pool [ none ↦ s.pool | some p ↦ p ] in
      elim made.result [
        | err e ↦ ends (stop (some e) (record s { incoming = b; pool = pool }))
        | ok m ↦
            goes_on (record s { incoming = b; pool = pool; in_next = some m; in_body_offset = 0 })
      ]

  -- There is no message and the pool has one.
  pub start_message : Inbound → Round
  unfolding accept
  start_message s =
      if ltb (buffer_available (some s.incoming)) header_size
      then ends (stop none s)
      else elim (read_header header_size s.incoming header_size []) [
        | none ↦ ends fault
        | some (buf, b) ↦ accept s b (message_new_from_header heap (some s.pool) buf)
      ]

  pub next_message : Inbound → Option Message → Round
  unfolding start_message
  next_message s (some m) = goes_on s
  next_message s none = elim (pool_has_available s.pool) [
    | none ↦ ends fault
    | some false ↦ goes_on s
    | some true ↦ start_message s
  ]

  -- The message is complete: its headers are parsed and it is handed on.
  pub complete : Inbound → Message → Round
  complete s m =
      let region = drop header_size m.mem in
      let s' = record s { in_next = none } in
      if ltb (length region) m.header.headers_len
      then ends fault
      else elim (parse_hdrs heap.malloc (take m.header.headers_len region)) [
        | none ↦ ends fault
        | some (err e) ↦
            ends (stop (some e) (record s' { pool = (pool_return_obj s.pool m.obj).0 }))
        | some (ok (nhdrs, hdrs)) ↦
            let msg = record m { hdrs = hdrs } in
            goes_on
              (record s' { pool = dispatch s.pool msg; delivered = s.delivered ++ (msg ∷ []) })
      ]

  -- `memcpy` to `headers + in_body_offset`, and the test for the end of the message.
  pub store : Inbound → Message → ℕ → ℕ → List ℕ → Round
  unfolding complete
  store s m total len ptr =
      let m' = record m { mem = take (header_size + s.in_body_offset) m.mem ++ take len ptr } in
      let offset = add_size s.in_body_offset len in
      let s' = record s { in_next = some m'; in_body_offset = offset } in
      if ltb (room m) (header_size + s.in_body_offset + len)
      then ends fault
      else if offset == total
      then complete s' m'
      else goes_on s'

  -- What `buffer_get_next` gave is looked at.
  pub got_next : Inbound → Message → ℕ → Option (ℕ × List ℕ) → Round
  unfolding store
  got_next s m total none = ends (stop none s)
  got_next s m total (some (len, ptr)) = if ltb 0 len then store s m total len ptr else goes_on s

  -- The second half of a round. `total` and `want` are `uint32_t`.
  pub continue_message : Inbound → Option Message → Round
  unfolding got_next
  continue_message s none = ends (stop none s)
  continue_message s (some m) =
      let total = add32 m.header.body_len m.header.headers_len in
      let want = (total + size_mod - s.in_body_offset) % u32_mod in
      let (r, b) = buffer_get_next s.incoming want in got_next (record s { incoming = b }) m total r

  pub second_half : Round → Round
  unfolding continue_message
  second_half (ends e) = ends e
  second_half (goes_on s) = continue_message s s.in_next

  -- The loop, `fuel` rounds at most.
  pub rounds : ℕ → Inbound → Exit
  unfolding next_message second_half
  rounds zero s = unfinished
  rounds (suc fuel) s = elim (second_half (next_message s s.in_next)) [
    | ends e ↦ e
    | goes_on s' ↦ rounds fuel s'
  ]

  cleaned : Exit → Exit
  cleaned (stop rc s) = stop rc (record s { incoming = buffer_cleanup s.incoming })
  cleaned fault = fault
  cleaned unfinished = unfinished

  -- The error with which `stop` ends is the one that `on_channel_close` is called with.
  unfoldable pub process_inbound : ℕ → Inbound → Exit
  unfolding rounds cleaned
  process_inbound fuel s = cleaned (rounds fuel s)

  -- `on_channel_data` with data: the chunk is appended and `process_inbound` runs, with more rounds
  -- than there are bytes.
  unfoldable pub receive_chunk : Inbound → List ℕ → Exit
  unfolding process_inbound
  receive_chunk s buf =
      let b = buffer_append s.incoming buf in
      process_inbound (suc (buffer_available (some b))) (record s { incoming = b })

  -- One chunk after the other, until a run ends with an error.
  pub receive : Inbound → List (List ℕ) → Exit
  unfolding receive_chunk
  receive s [] = stop none s
  receive s (buf ∷ bufs) = elim (receive_chunk s buf) [
    | stop none s' ↦ receive s' bufs
    | stop (some e) s' ↦ stop (some e) s'
    | fault ↦ fault
    | unfinished ↦ unfinished
  ]
