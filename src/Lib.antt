-- ===== src/Lib.antt =====
-- lightmqtt, an MQTT 3.1.1 client library in C: the packet store, the encoders of the outgoing and the
-- decoders of the incoming packets, the two buffers and the client. Paths are relative to the
-- repository's root.
--
-- The program. A client (src/lmqtt_client.c) puts requests of the application into a store
-- (src/lmqtt_store.c), an array of packets that wait to be sent or, once sent, for their response.
-- `lmqtt_tx_buffer_encode` (src/lmqtt_packet.c) takes the packets from the store in order and writes
-- them part by part into a buffer of the caller; a finder names the encoder of each part. Small parts
-- are built in an encode buffer of 16 bytes, texts and payloads are strings that stand in memory or
-- come from a callback. Incoming bytes go through `lmqtt_rx_buffer_decode`: `fixed_header_decode`, the
-- decoder of the packet's type, and the callback of the request that the packet answers, which is
-- taken from the store. Messages go to the application; the ids of those of QoS 2 are kept in an id
-- set. The client calls both buffers with the bytes of a connection, keeps one store for CONNECT and
-- one for all else, and closes a connection that fails or stays silent. Timeouts are computed in
-- src/lmqtt_time.c.
--
-- The files.
--   Prelude     the names of the library that all files use, Boolean tests, lists and arrays, signed
--               integers (Int), bytes (Bytes) and what is or-ed into them (Shifts).
--   Core        the enumerations of include/lightmqtt/core.h and packet.h.
--   Time        `lmqtt_time_get_timeout_to`, `lmqtt_time_touch`. Remaining: in nanoseconds.
--   Store       Defs: the functions of src/lmqtt_store.c, one definition each, named without `lmqtt_`.
--               Queue: what a store promises, two queues. Valid: the invariant of the array, and its
--               two queues. Refine, Sessions: single calls and sequences of calls. Timer: the timeout.
--               Arrays: lemmas.
--   IdSet       `lmqtt_id_set_t`. Laws: a finite set. Overrun: the memory behind the array.
--   Header      `encode_remaining_length` and `fixed_header_decode`. Bytes: one byte at a time.
--               Types: the first byte. Rounds, RoundTrip: the length.
--   Encode      `encode_buffer_encode` and `encode_buffer_encode_packet_id`. Pieces: parts sent in
--               pieces. PacketId: headers with a packet id.
--   Strings     `string_move`, `string_read`, `string_write`, `string_encode`. Encoding and Whole: a
--               string in memory, sent in pieces or at once. Split: an empty string. Moving: writing.
--   Packet      what the encoders of all packets share.
--   Connect, Subscribe, Publish, Acks
--               the builders, encoders and validations of the outgoing packets, by the names of the C
--               functions.
--   Tx          Parts: the encoders as values. Finders: `tx_buffer_finder_*`. Loop: the two loops of
--               `lmqtt_tx_buffer_encode_impl`. Weights, Bounds, Leads, Ends: the fuel. Rounds,
--               PublishParts, Publishing: a whole PUBLISH.
--   Rx          `lmqtt_rx_buffer_t`. State: the struct, and the callbacks for messages. Decoders: the
--               table of the decoders, and the packets that wait in the store. Publish:
--               `rx_buffer_decode_publish`. Decode: the decoders of CONNACK and SUBACK, with and without
--               packet id. Finish: the callbacks. Loop: `lmqtt_rx_buffer_decode`. Idle, Answers, Connack:
--               whole packets. Once: QoS 2. Sticky: a failed buffer. Writing, Taking, Ends: the fuel.
--   Client      `lmqtt_client_t`. State: the struct. Requests: the stores and the callbacks of the
--               requests. Commands: `lmqtt_client_connect` and the other commands, and the changes of
--               state. Setup: initialising, finishing, settings. Transfer: between the buffers and the
--               connection. Exec: the loops, the keep-alive. Run: `lmqtt_client_run_once`. Phases:
--               the states. Effects, Lifecycle, Reachable: commands and transitions. Cleanup,
--               Told, Initial: the requests of a session that ends. Results: the numbers that are returned.
--               KeepAlive. Sizes.
--   The modules named Tests run the definitions on small inputs.
--
-- How state is modelled. A function that changes a struct takes it and returns the new one. A pointer
-- into the heap is an address, `none` for NULL; what the store's values point to is in a list of
-- objects by their addresses (Tx.Parts). What a caller's buffer receives is the list of the bytes
-- written, and its size a number. A failed assertion, a null pointer that is followed and an access
-- behind an array that the code reads are the result `none` (`fault` in Tx.Loop). Callbacks of strings
-- are functions on the state of an outside world, a parameter; callbacks of the store are a parameter
-- of Tx.Loop. The reading of the clock is an argument.
--
-- What the rx buffer shares with the callbacks (the store, the id set, the heap) is `Rx.State.Shared`.
-- The world of its heap is the session of the client (`Client.State.Session`, the struct less the two
-- buffers), so a callback of a request can act on the client. The pointers `rx_state.store` and
-- `tx_state.store` are copies of the store that is current, made before a call of a buffer and written
-- back behind it; both always point to `current_store`. A callback of the application is a function
-- of the request's address, of whether it succeeded and of the world outside, and does not call the
-- client; a callback for messages may change all that the rx buffer shares. Callbacks of CONNECTs can
-- run within each other, when one of them flushes the store of the others; `call_depth` bounds how
-- deep. Two levels are enough, since the store of CONNECTs has one entry. No callback of a CONNECT runs
-- within `lmqtt_tx_buffer_encode`, which ends only packets without response. Function pointers of
-- `internal` are active or refusing. Reading and writing the connection, the clock and the number
-- `LMQTT_STORE_ENTRY_SIZE` are parameters.
--
-- Numbers. Bytes, sizes and ids are natural numbers; `& 0xff` and the wrap-around of packet ids are
-- written out. A `long` is an integer without bounds: no value here comes near 2 ^ 31 but times and
-- string lengths, which the caller chooses. A pointer has 8 bytes and an unsigned short 2 (IdSet).
--
-- Loops. They are structural recursion over their bounds. The encoder of the remaining length has
-- fuel 4, the room in its buffer, and ends within it. The loop of Tx has fuel, one for each round of
-- the outer and of the inner loop; `unfinished` says that it was not enough. One, and nine and twice
-- the subscriptions for each waiting packet, are enough (Tx.Ends). A PUBLISH of QoS 1 or 2 takes six.
-- The loop of Rx has a round for each byte, which is enough when callbacks that write take a byte or
-- say that they take none (Rx.Ends). The loops of `client_buffer_transfer` and `lmqtt_client_run_once`
-- have fuel as an argument, and `unfinished` when it runs out: they go on as long as the connection
-- has bytes, which a peer can always send.
--
-- Not modelled: the programs of examples/ with their sockets and clocks, and tests/.
pub mod Prelude
pub mod Core
pub mod Time
pub mod Store
pub mod IdSet
pub mod Header
pub mod Encode
pub mod Strings
pub mod Packet
pub mod Connect
pub mod Subscribe
pub mod Publish
pub mod Acks
pub mod Tx
pub mod Rx
pub mod Client
