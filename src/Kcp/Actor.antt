-- ===== src/Kcp/Actor.antt =====
-- kcp/actor.rs: the task that owns an engine. One turn of its loop is a function of the branch that
-- `select!` takes, with what the calls of that branch gave: the channels, the clocks and the random
-- numbers are not the actor's own.
pub mod Handle
pub mod Induction
pub mod Wire
pub mod Delivery
pub mod Pressure
pub mod Closing
pub mod Liveness
mod Tests
use rust_kcp.Base.{
  ℕ, zero, suc, ◌+◌, ◌-◌, ◌*◌, ◌^◌, min, max, Bool, true, false, List, [], ◌∷◌, ◌++◌, Option, none,
  some, ltb, leb, ◌&&◌, ◌||◌, not, if◌then◌else◌,
}
use rust_kcp.Error.{KcpCoreResult, ok, err, is_fatal}
use rust_kcp.Protocol.{KcpStats}
use rust_kcp.Protocol.Wire.{ByteCodec}
use rust_kcp.Engine.{KcpEngine, drain_output, send_queue_len, has_unsent_data, is_dead, idle_ms}
use rust_kcp.Engine.Send.{send}
use rust_kcp.Engine.Recv.{recv}
use rust_kcp.Engine.Input.{input}
use rust_kcp.Engine.Flush.{flush, check, update, keep_alive_probe}
use rust_kcp.Engine.Delivery.Session.{moved_on}
use rust_kcp.Kcp.Error.{Result, from_core}
use rust_kcp.Kcp.Error as Kcp
use rust_kcp.Kcp.Loss.{random_unit, below}

pub data EngineCmd : Type 0 where
  cmd_flush cmd_stats cmd_is_alive cmd_close : EngineCmd

-- What a `oneshot` sender of a command is given
pub data Reply : Type 0 where
  flushed : Result (Unit {0}) → Reply
  stats_read : KcpStats → Reply
  alive : Bool → Reply

-- The arguments of `run_engine_actor` that are not channels
pub record Settings : Type 0 where
  pub update_interval_ms : ℕ
  pub keep_alive_ms : Option ℕ
  pub simulate_loss : Option ℕ
  pub send_high_water : ℕ

-- The readings of one turn, by number: `stamp` of the engine's clock, `instant` of the runtime's,
-- in milliseconds
pub record Clock : Type 0 where
  pub stamp : ℕ → ℕ
  pub instant : ℕ → ℕ

-- The locals of `run_engine_actor`, and a log of what left it: `wire` by the transport, `forwarded`
-- by the data channel, `replies` by the commands' senders. `drawn` counts the random numbers, and
-- `position`, which no code keeps, the peer's segments taken so far, as `rcv_nxt` does with wrap.
pub record Actor : Type 0 where
  pub engine : KcpEngine
  pub position : ℕ
  pub last_probe : ℕ
  pub send_closed : Bool
  pub closing : Bool
  pub close_deadline : Option ℕ
  pub wire : List (List ℕ)
  pub drawn : ℕ
  pub forwarded : List (List ℕ)
  pub replies : List Reply

-- How a turn ends: the loop goes on, or it breaks.
pub data Turn : Type 0 where
  goes_on : Actor → Turn
  breaks : Actor → Turn

abbrev pub then_do : Turn → (Actor → Turn) → Turn
then_do (goes_on a) next = next a
then_do (breaks a) next = breaks a

-- A branch, with what it received. `queued` is what `send_rx.try_recv()` gives until it fails, and
-- `room` how many times `data_tx.try_reserve()` succeeds before it fails.
pub data Event : Type 0 where
  timer : (room : ℕ) → Event
  command : Option EngineCmd → (queued : List (List ℕ)) → Event
  packet : Option (List ℕ) → (room : ℕ) → Event
  data_sent : Option (List ℕ) → (queued : List (List ℕ)) → Event

abbrev pub idle_cap_ms : Settings → ℕ
idle_cap_ms s = elim s.keep_alive_ms [
  | none ↦ max 1000 (max s.update_interval_ms 1)
  | some ka ↦ max ka (max s.update_interval_ms 1)
]

-- `clamp(1, idle_cap_ms)`
unfoldable pub wait : Settings → ℕ → KcpEngine → ℕ
wait s now e = min (max (check now e) 1) (idle_cap_ms s)

-- The numbered segments that join the receive queue count on.
abbrev pub with_engine : KcpEngine → Actor → Actor
with_engine e a = record a { engine = e; position = moved_on a.position a.engine e }

-- `drain_recv`, when `room` messages fit the data channel
unfoldable pub drain_recv : ℕ → Actor → Actor
drain_recv zero a = a
drain_recv (suc room) a =
    let (e, r) = recv a.engine in
    let b = with_engine e a in
    elim r [
      | ok (some msg) ↦ drain_recv room (record b { forwarded = a.forwarded ++ msg ∷ [] })
      | ok none ↦ b
      | err x ↦ b
    ]

-- The `while let` loop of a close
unfoldable pub send_all : (ℕ → ℕ) → ℕ → List (List ℕ) → KcpEngine → KcpEngine
send_all stamp k [] e = e
send_all stamp k (m ∷ queued) e = send_all stamp (suc k) queued (send (stamp k) m e).0

-- The loop of the data branch, with what it leaves in the channel
unfoldable pub absorb : ℕ → (ℕ → ℕ) → ℕ → List (List ℕ) → KcpEngine → KcpEngine × List (List ℕ)
absorb high stamp k [] e = (e, [])
absorb high stamp k (m ∷ queued) e =
    let rest = absorb high stamp (suc k) queued (send (stamp k) m e).0 in
    if ltb (send_queue_len e) high then rest else (e, m ∷ queued)

abbrev pub fatal_result {ℓ} : {A : Type ℓ} → KcpCoreResult A → Bool
fatal_result (ok u) = false
fatal_result (err x) = is_fatal x

abbrev pub map_core {ℓ} : {A : Type ℓ} → KcpCoreResult A → Result A
map_core (ok u) = Kcp.ok u
map_core (err x) = Kcp.err (from_core x)

-- An engine call whose fatal error breaks the loop
abbrev pub unless_fatal : Actor → KcpEngine × KcpCoreResult (Unit {0}) → (Actor → Turn) → Turn
unless_fatal a (e, r) next =
    let b = record a { engine = e } in if fatal_result r then breaks b else next b

abbrev pub is_past : ℕ → Option ℕ → Bool
is_past now none = false
is_past now (some deadline) = leb deadline now

-- `hash` gives the hashes behind the random numbers, by number.
module _ (codec : ByteCodec) (hash : ℕ → ℕ) (s : Settings) where
  -- The loop of `flush_output`. The result of `send_to` is only logged.
  unfoldable pub transmit : Option ℕ → List (List ℕ) → Actor → Actor
  transmit loss [] a = a
  transmit none (buf ∷ bufs) a = transmit none bufs (record a { wire = a.wire ++ buf ∷ [] })
  transmit (some p) (buf ∷ bufs) a = transmit (some p) bufs (record a {
    drawn = suc a.drawn;
    wire = if below (random_unit (hash a.drawn)) p then a.wire else a.wire ++ buf ∷ [];
  })

  unfoldable pub flush_output : Actor → Actor
  flush_output a =
      let (e, out) = drain_output a.engine in transmit s.simulate_loss out (record a { engine = e })

  unfoldable pub keep_alive : Clock → Option ℕ → Actor → Turn
  keep_alive t none a = goes_on a
  keep_alive t (some ka) a =
      if leb (min (ka * 3) (2 ^ 64 - 1)) (idle_ms (t.stamp 1) a.engine)
      then breaks a
      else if leb ka (idle_ms (t.stamp 2) a.engine) && leb ka (t.instant 0 - a.last_probe)
      then unless_fatal (record a { last_probe = t.instant 1 })
          (keep_alive_probe codec (t.stamp 3) a.engine) goes_on
      else goes_on a

  unfoldable pub on_timer : Clock → ℕ → Actor → Turn
  on_timer t room a =
      unless_fatal a (flush codec (t.stamp 0) a.engine) λ b.
        then_do (keep_alive t s.keep_alive_ms b) λ c. goes_on (drain_recv room (flush_output c))

  unfoldable pub begin_close : Clock → List (List ℕ) → Actor → Actor
  begin_close t queued a =
      let e = send_all t.stamp 1 queued a.engine in
      flush_output (record a {
        engine = (flush codec (t.stamp 0) e).0;
        send_closed = true;
        closing = true;
        close_deadline = some (t.instant 0 + 10000);
      })

  unfoldable pub on_command : Clock → Option EngineCmd → List (List ℕ) → Actor → Actor
  on_command t (some cmd_flush) queued a =
      let (e, r) = flush codec (t.stamp 0) a.engine in
      let b = flush_output (record a { engine = e }) in
      record b { replies = b.replies ++ flushed (map_core r) ∷ [] }
  on_command t (some cmd_stats) queued a = record a {
    replies = a.replies ++ stats_read a.engine.stats ∷ [];
  }
  on_command t (some cmd_is_alive) queued a = record a {
    replies = a.replies ++ alive (not (is_dead a.engine)) ∷ [];
  }
  on_command t (some cmd_close) queued a = begin_close t queued a
  on_command t none queued a = begin_close t queued a

  unfoldable pub on_packet : Clock → Option (List ℕ) → ℕ → Actor → Turn
  on_packet t none room a = breaks a
  on_packet t (some bytes) room a =
      let e = (input codec (t.stamp 0) bytes a.engine).0 in
      unless_fatal (with_engine e a) (flush codec (t.stamp 1) e)
        λ b. goes_on (drain_recv room (flush_output b))

  unfoldable pub on_data : Clock → Option (List ℕ) → List (List ℕ) → Actor → Turn
  on_data t none queued a = goes_on (record a { send_closed = true })
  on_data t (some bytes) queued a =
      let e = (send (t.stamp 1) bytes a.engine).0 in
      let (e', left) = absorb s.send_high_water t.stamp 2 queued e in
      unless_fatal a (flush codec (t.stamp 0) e') λ b. goes_on (flush_output b)

  unfoldable pub branch : Clock → Event → Actor → Turn
  branch t (timer room) a = on_timer t room a
  branch t (command cmd queued) a = goes_on (on_command t cmd queued a)
  branch t (packet p room) a = on_packet t p room a
  branch t (data_sent bytes queued) a = on_data t bytes queued a

  -- The check behind `select!`
  unfoldable pub drain_check : Clock → Actor → Turn
  drain_check t a =
      if a.closing && (not (has_unsent_data a.engine) || is_past (t.instant 2) a.close_deadline)
      then breaks (flush_output (record a { engine = (flush codec (t.stamp 4) a.engine).0 }))
      else goes_on a

  unfoldable pub turn : Clock → Event → Actor → Turn
  turn t ev a = then_do (branch t ev a) (drain_check t)

  -- What is done before the loop, with an engine that has taken `n` segments
  unfoldable pub launch_actor : Clock → ℕ → ℕ → KcpEngine → Actor
  launch_actor t room n e = drain_recv room (
      flush_output (record {
        engine = (update codec (t.stamp 0) e).0;
        position = n;
        last_probe = t.instant 0;
        send_closed = false;
        closing = false;
        close_deadline = none;
        wire = [];
        drawn = 0;
        forwarded = [];
        replies = [];
      }))

-- The guards of the branches
unfoldable pub enabled : Settings → Event → Actor → Bool
enabled s (timer room) a = true
enabled s (command cmd queued) a = not a.closing
enabled s (packet p room) a = true
enabled s (data_sent bytes queued) a =
    not a.send_closed && ltb (send_queue_len a.engine) s.send_high_water
