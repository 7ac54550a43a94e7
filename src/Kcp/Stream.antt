-- ===== src/Kcp/Stream.antt =====
-- kcp/stream.rs: a stream, between its user and its actor. What the channels, the futures and the
-- transport gave is an argument.
pub mod Opening
pub mod Reading
pub mod Writing
pub mod EndToEnd
mod Tests
use rust_kcp.Base.{
  ℕ, ◌-◌, ◌*◌, min, max, Bool, true, false, List, [], ◌∷◌, ◌++◌, Option, none, some, length, take,
  drop, is_empty, ltb, ◌==◌, ◌&&◌, not, if◌then◌else◌,
}
use rust_kcp.Error.{KcpCoreResult}
use rust_kcp.Protocol.{KcpStats, default_stats, random_conv_id}
use rust_kcp.Protocol.Wire.{ByteCodec}
use rust_kcp.Protocol.Constants.{ikcp_overhead, ikcp_wnd_rcv}
use rust_kcp.Engine.{KcpEngine, new, start, set_conv}
use rust_kcp.Engine.Input.{input}
use rust_kcp.Engine.Flush.{flush, update}
use rust_kcp.Kcp.Error.{Result, ok, err, connection, closed, buffer, message_too_long, from_core}
use rust_kcp.Kcp.Config.{KcpConfig, to_core, validate}
use rust_kcp.Kcp.Actor.{Settings, map_core}
use rust_kcp.Kcp.Actor.Handle.{handle_stats, handle_is_alive}

-- `Poll`
pub data Poll {ℓ} (A : Type ℓ) : Type ℓ where
  ready : A → Poll A
  pending : Poll A

-- `io::Result`, with the errors that this code makes
pub data IoError : Type 0 where
  broken_pipe other_error : IoError

pub data IoResult {ℓ} (A : Type ℓ) : Type ℓ where
  done : A → IoResult A
  failed : IoError → IoResult A

-- What `try_send` says
pub data TrySend : Type 0 where
  sent channel_closed channel_full : TrySend

-- The fields that are not channels, tasks or addresses. A pending future is what it holds: a write
-- its chunk; a flush or a shutdown nothing. `actor_task` and `recv_task` say whether it is there.
pub record KcpStream : Type 0 where
  pub mss : ℕ
  pub max_msg : ℕ
  pub read_buf : List ℕ
  pub pending_write : Option (List ℕ)
  pub pending_flush : Bool
  pub pending_shutdown : Bool
  pub actor_task : Bool
  pub recv_task : Bool
  pub connected : Bool
  pub is_closed : Bool

abbrev pub send_channel_capacity : ℕ
send_channel_capacity = 16

unfoldable pub send_high_water : KcpConfig → ℕ
send_high_water c = max (c.snd_wnd * 4) 64

unfoldable pub stream_mss : KcpConfig → ℕ
stream_mss c = max (c.mtu - ikcp_overhead) 1

unfoldable pub stream_max_msg : KcpConfig → ℕ
unfolding stream_mss
stream_max_msg c = stream_mss c * min c.rcv_wnd ikcp_wnd_rcv

-- What the actor is started with
unfoldable pub actor_settings : KcpConfig → Settings
unfolding send_high_water
actor_settings c = record {
  update_interval_ms = c.nodelay.interval;
  keep_alive_ms = c.keep_alive;
  simulate_loss = c.simulate_packet_loss;
  send_high_water = send_high_water c;
}

-- The stream that the constructors make
unfoldable pub new_stream : KcpConfig → Bool → KcpStream
unfolding stream_mss stream_max_msg
new_stream c recv_task = record {
  mss = stream_mss c;
  max_msg = stream_max_msg c;
  read_buf = [];
  pending_write = none;
  pending_flush = false;
  pending_shutdown = false;
  actor_task = true;
  recv_task = recv_task;
  connected = true;
  is_closed = false;
}

infixl 5 ◌>>=◌
abbrev pub ◌>>=◌ {ℓ κ} : {A : Type ℓ} {B : Type κ} → Result A → (A → Result B) → Result B
ok a >>= f = f a
err e >>= f = err e

-- `?` on a result of the engine: the engine after the call
abbrev pub try_core {ℓ} : {A : Type ℓ} → KcpEngine × KcpCoreResult A → Result KcpEngine
try_core (e, rust_kcp.Error.ok a) = ok e
try_core (e, rust_kcp.Error.err x) = err (from_core x)

-- `new_with_conv`: the stream, and the engine and the settings of its actor
unfoldable pub new_with_conv : ℕ → ℕ → KcpConfig → Result (KcpStream × KcpEngine × Settings)
unfolding new_stream actor_settings
new_with_conv now conv c = do
  valid ← validate c
  e ← try_core (start (new now conv (to_core c)))
  ok (new_stream c true, e, actor_settings c)

unfoldable pub new_with_transport :
    List ℕ → ℕ → KcpConfig → Bool → Option (Result (KcpStream × KcpEngine × Settings))
unfolding new_with_conv
new_with_transport draws now c false = some (new_with_conv now 0 c)
new_with_transport draws now c true = elim (random_conv_id draws) [
  | none ↦ none
  | some conv ↦ some (new_with_conv now conv c)
]

-- The engine's calls of `new_server_stream`, at the clock's successive readings
unfoldable pub greet : ByteCodec → (ℕ → ℕ) → ℕ → ℕ → List ℕ → KcpEngine → Result KcpEngine
greet codec stamp client_conv server_conv initial_packet e = do
  e1 ← try_core (input codec (stamp 0) initial_packet e)
  e2 ←
      try_core (
        update codec (stamp 1) (if client_conv == server_conv then e1 else set_conv server_conv e1))
  try_core (flush codec (stamp 2) e2)

unfoldable pub new_server_stream :
    ByteCodec → (ℕ → ℕ) → ℕ → ℕ → ℕ → KcpConfig → List ℕ → Result (KcpStream × KcpEngine × Settings)
unfolding new_stream actor_settings greet
new_server_stream codec stamp now client_conv server_conv c initial_packet = do
  valid ← validate c
  e ← try_core (start (new now client_conv (to_core c)))
  e' ← greet codec stamp client_conv server_conv initial_packet e
  ok (new_stream c false, e', actor_settings c)

-- `send`: what goes into the channel, when the channel accepts it, and the result
unfoldable pub send : Bool → List ℕ → KcpStream → Option (List ℕ) × Result (Unit {0})
send accepted bytes s =
    if s.is_closed
    then (none, err (connection closed))
    else if ltb s.max_msg (length bytes)
    then (none, err (buffer (message_too_long (length bytes) s.max_msg)))
    else if accepted
    then (some bytes, ok tt)
    else (none, err (connection closed))

-- `recv`, with what the channel gives
unfoldable pub recv : Option (List ℕ) → KcpStream → Result (Option (List ℕ))
recv received s = if s.is_closed then ok none else ok received

-- `unwrap_or_default`
unfoldable pub stats : Bool → Option KcpStats → KcpStats
stats queued reply = elim (handle_stats queued reply) [ ok st ↦ st | err e ↦ default_stats ]

unfoldable pub is_connected : Bool → Option Bool → KcpStream → Bool
is_connected queued reply s = s.connected && not s.is_closed && handle_is_alive queued reply

unfoldable pub abort_tasks : KcpStream → KcpStream
abort_tasks s = record s { actor_task = false; recv_task = false }

-- `close` sends its command once, to a stream that is not closed.
unfoldable pub close : KcpStream → KcpStream × Bool
unfolding abort_tasks
close s =
    if s.is_closed
    then (s, false)
    else (abort_tasks (record s { is_closed = true; actor_task = false }), true)

-- The part of `poll_read` that copies from `read_buf`; `remaining` is the room in the caller's
-- buffer.
unfoldable pub copy_out : ℕ → KcpStream → KcpStream × List ℕ
copy_out remaining s =
    let to_copy = min remaining (length s.read_buf) in
    (record s { read_buf = drop to_copy s.read_buf }, take to_copy s.read_buf)

-- `poll_read`, with what the channel gives if it is polled: the bytes put into the caller's buffer,
-- and whether it is ready; it makes no error.
unfoldable pub poll_read :
    ℕ → Poll (Option (List ℕ)) → KcpStream → KcpStream × List ℕ × Poll (Unit {0})
unfolding copy_out
poll_read remaining received s =
    if not (is_empty s.read_buf)
    then (let (s', bytes) = copy_out remaining s in (s', bytes, ready tt))
    else if s.is_closed
    then (s, [], ready tt)
    else elim received [
      | ready (some bytes) ↦
          let (s', out) = copy_out remaining (record s { read_buf = s.read_buf ++ bytes }) in
          (s', out, ready tt)
      | ready none ↦ (s, [], ready tt)
      | pending ↦ (s, [], pending)
    ]

-- The end of `poll_write`, with what the pending future gives: whether the channel took the chunk
unfoldable pub poll_pending_write :
    Poll Bool → List ℕ → KcpStream → KcpStream × Option (List ℕ) × Poll (IoResult ℕ)
poll_pending_write (ready true) chunk s =
    (record s { pending_write = none }, some chunk, ready (done (length chunk)))
poll_pending_write (ready false) chunk s =
    (record s { pending_write = none }, none, ready (failed other_error))
poll_pending_write pending chunk s = (s, none, pending)

-- `poll_write`: what goes into the channel, and the result
unfoldable pub poll_write :
    TrySend → Poll Bool → List ℕ → KcpStream → KcpStream × Option (List ℕ) × Poll (IoResult ℕ)
unfolding poll_pending_write
poll_write try waited buf s =
    let chunk = take (min (length buf) s.mss) buf in
    if s.is_closed then (s, none, ready (failed broken_pipe)) else elim s.pending_write [
      | some waiting ↦ poll_pending_write waited waiting s
      | none ↦ elim try [
        | sent ↦ (s, some chunk, ready (done (length chunk)))
        | channel_closed ↦ (s, none, ready (failed broken_pipe))
        | channel_full ↦ poll_pending_write waited chunk (record s { pending_write = some chunk })
      ]
    ]

-- `poll_flush`, with what its future gives: whether the flush was made
unfoldable pub poll_flush : Poll Bool → KcpStream → KcpStream × Poll (IoResult (Unit {0}))
poll_flush waited s = if s.is_closed then (s, ready (done tt)) else elim waited [
  | ready made ↦
      (record s { pending_flush = false }, ready (if made then done tt else failed other_error))
  | pending ↦ (record s { pending_flush = true }, pending)
]

-- `poll_shutdown`. The future takes the actor's task, when it is made.
unfoldable pub poll_shutdown : Poll (Unit {0}) → KcpStream → KcpStream × Poll (IoResult (Unit {0}))
poll_shutdown waited s =
    if s.is_closed
    then (s, ready (done tt))
    else (let s1 = record s {
      actor_task = if s.pending_shutdown then s.actor_task else false;
      pending_shutdown = true;
    } in
        elim waited [
          | ready u ↦ (record s1 { pending_shutdown = false; is_closed = true }, ready (done tt))
          | pending ↦ (s1, pending)
        ])

-- The receiving task of a client: a datagram goes to the actor if it is from the peer.
unfoldable pub accept_datagram : ℕ → ℕ → List ℕ → Option (List ℕ)
accept_datagram peer_addr src_addr bytes = if src_addr == peer_addr then some bytes else none
