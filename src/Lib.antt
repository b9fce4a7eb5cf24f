-- ===== src/Lib.antt =====
-- Verification of the core of the Ziti C SDK: the path of bytes from a channel's socket to the
-- messages that the SDK works with, the life of a channel to an edge router, and the matching of
-- intercepted addresses.
--
-- Parts, and the files that model them (paths from the repository's root):
-- - Base: shared names, lists over native numbers, 32-bit and 64-bit words, little-endian words.
-- - Errors: the status codes of includes/ziti/errors.h.
-- - EdgeProtocol: content types and header ids of library/edge_protocol.h, with the values of the
--   generated protocol header.
-- - Buffer: the queue of byte chunks of library/buffer.c. `buffer_get_next` returns its length and
--   what stands at its pointer; `none` is -1. Buffer/Contents holds the invariant and the bytes
--   that a buffer stands for.
-- - Pool: library/pool.c. An object's address is an id that the allocator gives; the functions
--   return, besides the new state, the calls and frees that they cause. Pool/Lending adds the
--   clients: a step relation over who holds which object.
-- - Message: library/message.c and library/message.h. Message/Header is the 20-byte header,
--   Message/Hdrs the list of typed headers behind it, Message/Query the lookups, Message/Build the
--   messages themselves, inbound and outbound. Memory is the list of bytes written so far, and
--   `room` the size of the allocation: an access outside it is a fault (`none`).
-- - Channel: library/channel.c. Channel/Inbound is `process_inbound`, which takes bytes from the
--   buffer, objects from the pool and hands messages to `dispatch_message`. Its state is the part
--   of `struct ziti_channel` that the function works on, and the list of the messages handed on.
--   Channel/Inbound/Frames has the wire form of a stream of messages and where a channel can stand
--   in it, Rounds, Start, Run and Stream follow the loop through it, Empty is the case in which the
--   loop does not end. The rest is the life of a channel, over the whole of `struct ziti_channel`
--   and a log of what the channel does outside itself: Channel/State has the tables,
--   Channel/Closing `on_channel_close`, `ziti_channel_close` and the reconnect, Channel/Sending the
--   writes, Channel/Replies the requests and their replies, Channel/Timers the functions of the
--   deadline and `on_tls_connect`, Channel/Dispatch `dispatch_message`, Channel/Events the rest and
--   the step relation over all of them. A call back into a client is an entry of the log; what
--   the client then asks of the channel is an event of its own.
-- - StringBuf: the string buffers of library/buffer.c, on top of the queue of Buffer.
-- - Utils: `hexify` and `str_split` of library/utils.c; a text is its list of characters without
--   the zero at its end.
-- - Deadlines: inc_internal/deadline.h and the deadlines of a context in library/ziti.c. A channel
--   keeps its own deadline as a field, which stands for the entry that the list has for it.
-- - Intercept: library/internal_model.c. Intercept/Address is `ziti_address_match`,
--   Intercept/Score the choice of the best score among addresses and ports, and both in one number. The result -1 is
--   `none`.
--   Intercept/Parse is `parse_ziti_address_str`, which makes addresses of texts.
-- - Collections: library/model_collections.c, the hash map `model_map` that the SDK keeps its
--   connections, services and sessions in. An entry stands in the list of all entries and in its
--   bucket; Collections/ModelMap/Invariant is what ties the two together.
--   Collections/ModelList is the list `model_list`.
-- - Connect: library/connect.c, a connection that is dialled, over the channels below it. Its state is
--   `struct ziti_conn` and a log of what it does outside itself. Connect/State has the records,
--   Connect/Requests what a client asks (`ziti_write`, `ziti_close_write`, `ziti_close`) and the
--   disconnect, Connect/Writes the end of writes and of the attempt to connect, Connect/Service
--   `flush_to_service` with the chains of writes that share a message, Connect/Receiving
--   `conn_inbound_data_msg` and the flush to the client, Connect/Dial `process_connect` and the choice
--   of a channel, Connect/Dispatch the messages of the channel, and Connect/Life
--   `close_conn_internal` and all that can happen to a connection. A call of a client or of the
--   controller is an entry of the log, and what it calls back is an event of its own: a client that
--   closes the connection or clears its `data_cb` while data is handed to it is not modelled inside
--   that loop. What `ziti_channel_send_message` does with a message is an argument, its result; that
--   it reports a refused write, and the closing of the channel, at once is part of the model.
-- - Tests: the theorems at concrete inputs.
--
-- Bounds and fuel: `uint32_t` and `size_t` wrap as in C on an LP64 machine, and an `int` that holds a
-- length is converted as there. `process_inbound` has one round more than the buffer has bytes as
-- its fuel; each round that goes on takes a byte, so for non-empty messages this is enough, which
-- the theorem on the stream includes. The loops of `parse_hdrs` have one round more than there are
-- bytes, and each takes at least eight; the loop over the labels of a host name has one more than
-- the name has characters, and each takes at least one.
-- `str_split` has one round more than the text has characters.
-- The loops of `string_buf_appendn` and `string_buf_append` have two rounds more than the text has
-- bytes: each but the first two takes one. The loop over the deadlines has its fuel as an
-- argument, and one round more than the deadlines that have come weigh is enough, the weights being
-- those of the theorem on it: what a callback sets for a time that has come weighs less than the
-- callback. A reconnect that is set with no delay is such a deadline; the theorem says nothing of
-- callbacks that set themselves at once again and again.
--
-- `flush_to_service` has a round for each request of the queue, and a round takes at least one; the
-- theorem on it says that the queue is empty then. The loop over the parts of a multipart message
-- has a round more than there are bytes, and each takes two. `flush_to_client` makes the 128 rounds
-- of the source.
--
-- Parameters: the allocator (which sizes `malloc` and `calloc` can serve, and the next address) and
-- for `process_inbound` what `dispatch_message` does to the pool; for the life of a channel the
-- fields of `Env`: the clock, `uv_random`, the session token, the number that the machine reads as the
-- time of a probe's reply, which C leaves undefined, and the results of `tlsuv_stream_write`
-- and `tlsuv_stream_connect`, of which each operation makes one call at most; for the
-- deadlines what their callbacks do to the list. The text functions of the C library (`strcasecmp`,
-- `strchr`, `strncpy`, `memcmp`) are written out for the C locale; `strtoul` and `inet_pton` are
-- parameters, the fields of `TextReader`. For a connection they are the fields of its `Env`, with the
-- cipher, the hash and the client's answers, and of `Context`, with what the context and the
-- controller know.
--
-- Not modelled: the listeners with the connections that they accept, the contexts, the controller client,
-- the JSON models, enrollment and authentication, which are callbacks around an event loop, HTTP
-- and third-party libraries; the generated protocol code; logging. The pointers `headers` and
-- `body` of a message are offsets into its memory. Of a channel, the URL, which tlsuv parses, and
-- the run of `process_inbound` inside `on_channel_data` and `ziti_channel_prepare` together with the
-- dispatch of its messages are left out: the two are modelled one by one.
pub mod Base
pub mod Errors
pub mod Buffer
pub mod StringBuf
pub mod Deadlines
pub mod Utils
pub mod Connect
pub mod Pool
pub mod EdgeProtocol
pub mod Message
pub mod Channel
pub mod Intercept
pub mod Collections
pub mod Tests
