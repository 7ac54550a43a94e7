-- ===== src/Lib.antt =====
-- The KCP protocol engine of this repository: reliable, ordered delivery of messages or of a byte
-- stream over datagrams. The crate kcp-core is a state machine without I/O; the crate in kcp/ drives
-- it from an async runtime. This library models both, up to the runtime, the channels and the sockets.
--
-- The engine (kcp-core/src/engine.rs) sends and receives. `send` cuts a message into fragments on
-- `snd_queue`; `flush` numbers them (`move_to_send_buf`), marks what is due (`mark_segments_for_send`),
-- and packs acknowledgements, probes and data into datagrams (`output_segment`) that the driver takes
-- with `drain_output`. `input` takes a datagram apart; data goes by `rcv_buf` to `rcv_queue`
-- (`move_to_recv_queue`), from which `recv` reassembles messages, and acknowledgements take segments
-- out of `snd_buf` and drive the round-trip and congestion estimators.
--
-- An actor (kcp/actor.rs) owns each engine. It sleeps until the engine's next deadline, takes commands,
-- packets and messages from channels, hands the datagrams that come out to the transport, and forwards
-- received messages to a data channel. A stream (kcp/stream.rs) is the user's end of these channels:
-- it cuts writes into chunks, buffers reads, and makes the engine of a connection. A listener
-- (kcp/listener.rs) has a task that routes datagrams to the streams of active peers and queues new
-- peers, which `accept` turns into streams.
--
-- The files:
--   Base                  numbers of fixed width, Boolean tests, lists, the ordered map
--   Protocol              kcp-core/src/protocol.rs: the segment; Constants; Seq: wrapping
--                         comparisons; Wire: encode and decode; Wire/Unique: the
--                         fields that the bytes of a segment determine
--   Config, Error         kcp-core/src/config.rs and kcp-core/src/error.rs
--   Engine                the state (`KcpEngine`), `new`, accessors
--   Engine/Send           `send`; Fragments and Stream: the two modes
--   Engine/Recv           `recv`, `peek_size`, `move_to_recv_queue`; Order, Reassembly
--   Engine/Input          `input`; Parse: datagrams; Receiver: what a segment does to the queue
--   Engine/Ack            `parse_una`, `parse_ack`, `parse_fastack`; InFlight; Scan, Search: the binary
--                         search against a linear scan
--   Engine/SendBuf        `move_to_send_buf`; Window
--   Engine/Transmit       `mark_segments_for_send`, `flush_data_segments`; Marking
--   Engine/Output         `output_segment`, `flush_out_buf`; Packing
--   Engine/Flush          `flush`, `update`, `check`, `keep_alive_probe`; Deadlines
--   Engine/Rtt, Congestion, Probe    `update_ack`, the congestion window, window probes
--   Engine/Payloads       the bytes of a queue, and chains of fragments
--   Engine/Delivery       a receiver over a network that loses, repeats and reorders datagrams
--   Engine/Calls          any sequence of calls of an engine
--   Engine/Sending        the send side: which payload each number has; Launching, Flushing, Acking,
--                         Queueing: what the operations keep of it; History: any sequence of calls;
--                         Transfer: a sender, a network and a receiver
--   Engine/Ack/Keeps, Engine/Send/Keeps   what acknowledgements and `send` leave of the segments
--   Engine/Flush/Acks, Engine/Input/Held   what is acknowledged, and that it is held
--   Engine/Flush/Packed, Engine/Input/Sized, Engine/Send/Sized   the size of what goes out
--   Kcp/Config, Kcp/Error kcp/config.rs and kcp/error.rs; Valid: what a validated configuration
--                         guarantees the engine
--   Engine/Flush/Leaves, Engine/Input/Queue, Engine/Send/Grows   what the operations leave alone
--   Kcp/Loss              `random_unit_f32` and the test of the loss simulation
--   Kcp/Actor             `run_engine_actor`: a turn (`turn`), its branches, `drain_recv`,
--                         `flush_output`; Handle: `EngineHandle`; Induction: runs, and what a turn
--                         keeps; Delivery, Wire, Pressure, Closing, Liveness
--   Kcp/Listener          the tables, `handle_incoming_packet`, `accept`, the clean-ups;
--                         Interleaving: the two tasks step by step; Bounds, Routing, Outcomes
--   Kcp/Stream            the constructors, `send`, `poll_read`, `poll_write` and the others;
--                         Opening, Reading, Writing, EndToEnd
--   Base/HashMap          the hash maps of the listener
--   Engine/Tests, Protocol/Tests, Kcp/*/Tests     runs at concrete values
-- A function of the source has a definition of its name; a method that changes the engine takes it
-- as its last argument and returns it. A long method is cut into named parts (`input` into
-- `input_loop`, `process`, `dispatch`, `finish_input`).
--
-- How the source is read:
--   - Numbers are natural numbers; `u32` and `u64` arithmetic wraps, as in a release build. A debug
--     build panics where an unchecked sum wraps.
--   - An operation reads the clock once, as the argument `now` or `current`; `flush_acks` and the
--     probes, which read it again when they make a segment, get the same reading, and `KcpSegment::new`
--     gets it from its caller.
--   - `Bytes` and `BytesMut` are lists of bytes; sharing and capacity are not seen. The integer reads
--     and writes of the `bytes` crate are the interface `ByteCodec`, with the laws that the crate
--     documents; Protocol/Wire/LittleEndian is an instance.
--   - `BTreeMap<u32, KcpSegment>` is an association list in ascending order. `VecDeque`'s
--     `binary_search_by` is the search of one slice, for which any place that compares equal is
--     allowed; numbers in flight are distinct.
--   - In kcp/config.rs a `Duration` is its milliseconds and an `f32` its bit pattern; a builder method
--     `x` is `set_x`.
--   - The channels of tokio, its clock and the transport are not in this repository. What a call of
--     them gave is an argument of the function that makes it: an `Event` of the actor says which
--     branch `select!` took, what it received, what `try_recv` gives until it fails (`queued`) and how
--     often `try_reserve` succeeds (`room`); a `Clock` numbers the readings of one turn; a poll of a
--     stream gets what the channel or the future gave. So every theorem on runs holds for each order
--     of events. That the data channel gives its messages in order is a hypothesis where it is used.
--   - The actor's locals are a record, with a log of what left it (`wire`, `forwarded`, `replies`), a
--     count of the random numbers, whose hashes are a parameter, and a ghost `position`, the count of
--     segments received that `rcv_nxt` keeps modulo 2 ^ 32.
--   - A pending future of a stream is what it holds. A peer address and the sending end of a stream's
--     channel are numbers, of which only the equality counts. The listener's steps are cut where a task
--     waits or lets go of the lock; the tables of a step are those at that moment.
--   - An `f32` is compared with a 24-bit fraction exactly, from its bit pattern.
--   - Error messages are the data that their text is formatted from. Logging is left out.
--   - `lost` and `change` of the scan are the counts of timeouts and fast resends, compared with 0.
--
-- Loops that are not over a list have fuel, enough by construction: `move_loop` one more than the
-- length of `rcv_buf`, since each round takes an entry out; `input_loop` the length of the datagram,
-- since each round takes a header off; `search_loop` the length of the buffer, since the part that
-- is searched shrinks. No result depends on its running out.
--
-- The loops of the actor and the stream are over what the channels gave, and end with it.
--
-- Not modelled: the transport and its sockets (kcp/transport.rs) and what only calls them (`connect`,
-- `bind`, the addresses), the runtime's scheduling, spawning and aborting of tasks (`close` and `Drop`
-- of a listener, the end of a stream's `close` beyond its flags), the clock itself, Display texts,
-- `cmd_str`, logging, and the hasher behind `random_conv_id`, whose draws are a list. The crates'
-- tests, examples and benchmarks only use the library.
pub mod Base
pub mod Error
pub mod Config
pub mod Protocol
pub mod Engine
pub mod Kcp
