-- ===== src/Kcp/Actor/Tests.antt =====
-- Turns of the actor (kcp/actor.rs) on a small engine.
use rust_kcp.Base.{
  ℕ, ◌^◌, ◌≤◌, ◌<◌, ◌≡◌, refl, arith, Bool, true, false, List, [], ◌∷◌, ◌++◌, none, some, ◌⊎◌, inl,
  length,
}
use rust_kcp.Protocol.{KcpSegment}
use rust_kcp.Protocol.Wire.{IsSegment}
use rust_kcp.Protocol.Wire.LittleEndian.{little_endian}
use rust_kcp.Engine.{KcpEngine, send_queue_len, idle_ms, drain_output}
use rust_kcp.Engine.Recv.{recv, recv_state}
use rust_kcp.Engine.Input.Parse.{datagram}
use rust_kcp.Engine.Flush.Packed.{IsSized}
use rust_kcp.Engine.Delivery.Session.{IsFaithful}
use rust_kcp.Engine.Tests.{small, engine, data_segment}
use rust_kcp.Kcp.Actor.{
  Settings, Clock, Actor, Turn, goes_on, breaks, Event, timer, command, packet, data_sent,
  cmd_close, send_all, absorb, wait, turn, launch_actor, drain_recv, flush_output, transmit,
  enabled,
}
use rust_kcp.Kcp.Actor.Induction.{Ends, started, later, fresh}
use rust_kcp.Kcp.Actor.Wire.{Within, wire_bounds}
use rust_kcp.Kcp.Actor.Delivery.{session, Admits, forwarded-IsFaithful}
use rust_kcp.Kcp.Actor.Pressure.{absorb-send_all, queue_bounds}
use rust_kcp.Kcp.Actor.Closing.{Drains, closing_turn, run, HasStopped, AllEnabled, close_stops}
use rust_kcp.Kcp.Actor.Liveness.{silent_peer_stops, FlushesWell}

abbrev settings : Settings
settings = record {
  update_interval_ms = 10;
  keep_alive_ms = some 1000;
  simulate_loss = none;
  send_high_water = 2;
}

-- A clock that stands still
abbrev at_time : ℕ → Clock
at_time now = record { stamp = λ k. now; instant = λ k. now }

abbrev no_hash : ℕ → ℕ
no_hash k = 0

-- The peer's stream: two bytes in each segment
abbrev source : ℕ → List ℕ
source n = n ∷ 50 ∷ []

abbrev number : ℕ → KcpSegment
number n = data_segment n 0 (source n)

number-IsSegment : (n : ℕ) → n < 2 ^ 32 → IsSegment (number n)
number-IsSegment n h = record {
  fields_fit = record {
    conv_fits = omega arith;
    cmd_fits = omega arith;
    frg_fits = omega arith;
    wnd_fits = omega arith;
    ts_fits = omega arith;
    sn_fits = h;
    una_fits = omega arith;
    len_fits = omega arith;
  };
  len_lem = refl;
}

abbrev launched : Actor
launched = launch_actor little_endian no_hash settings (at_time 100) 8 0 (engine small)

engine-IsSized : IsSized 27 (engine small)
unfolding engine
engine-IsSized = record {
  is_mtu = refl;
  roomy = omega arith;
  small = omega arith;
  queue_fits = tt;
  buf_fits = tt;
  packed = record { queued = tt; pending = omega arith };
}

engine-IsFaithful : IsFaithful source (record { position = 0; engine = engine small; got = [] })
unfolding engine recv_state
engine-IsFaithful = record {
  window = omega arith;
  receiving = record { expects = refl; ascending = tt; holds = tt };
  prefix = refl;
}

abbrev arrival : Event
arrival = packet (some (datagram little_endian (number 0 ∷ []))) 8

launched_start : (launched.position ≡ 0) × (launched.engine.wnd.rcv ≡ 4)
unfolding launch_actor drain_recv recv rust_kcp.Engine.Recv.peek_size rust_kcp.Engine.Flush.update
    flush_output transmit drain_output engine
launched_start = (refl, refl)

arrival-Admits : Admits source little_endian no_hash settings (at_time 101) arrival launched
arrival-Admits =
    let (p, w) = launched_start in
    (
      number 0 ∷ [],
      refl,
      (
        (λ h. absurd (cc)),
        (number-IsSegment 0 (omega arith), tt),
        ((λ h. (0, (refl, refl), omega (arith, p, w), omega (arith, p, w))), tt),
      ),
    )

forwarded-IsFaithful_example :
    Ends
      (λ a. IsFaithful source (session a))
      (turn little_endian no_hash settings (at_time 101) arrival launched)
unfolding rust_kcp.Kcp.Actor.enabled
forwarded-IsFaithful_example =
    forwarded-IsFaithful source little_endian no_hash settings engine-IsFaithful
      (later (at_time 101) arrival (started (at_time 100) 8) refl arrival-Admits)

wire_bounds_example :
    Ends
      (λ a. Within 27 a.wire)
      (turn little_endian no_hash settings (at_time 101) arrival launched)
unfolding rust_kcp.Kcp.Actor.enabled
wire_bounds_example =
    wire_bounds little_endian no_hash settings engine-IsSized
      (later (at_time 101) arrival (started (at_time 100) 8) refl tt)

-- With a high-water mark of 2, the third message of a burst stays in the channel.
abbrev burst : List (List ℕ)
burst = (1 ∷ 2 ∷ []) ∷ (3 ∷ []) ∷ (4 ∷ []) ∷ []

burst_left : (absorb 2 (λ k. 100) 0 burst (engine small)).1 ≡ (4 ∷ []) ∷ []
unfolding absorb send_queue_len engine rust_kcp.Engine.Send.send rust_kcp.Engine.Send.merge_last
    rust_kcp.Engine.Send.queue_fragments rust_kcp.Engine.mss
burst_left = refl

absorb-send_all_example :
    let (e', left) = absorb 2 (λ k. 100) 0 burst (engine small) in
    (taken : List (List ℕ)) × (burst ≡ taken ++ left)
    × (e' ≡ send_all (λ k. 100) 0 taken (engine small))
    × ((left ≡ []) ⊎ (2 ≤ send_queue_len e'))
absorb-send_all_example = absorb-send_all 2 (λ k. 100) 0 burst (engine small)

launched-enabled : enabled settings (data_sent (some (9 ∷ [])) burst) launched ≡ true
unfolding launch_actor drain_recv recv rust_kcp.Engine.Recv.peek_size rust_kcp.Engine.Flush.update
    flush_output transmit drain_output engine enabled send_queue_len
launched-enabled = refl

queue_bounds_example :
    Ends
      (λ a. (a.engine.config ≡ small) × (length a.engine.snd_queue ≤ 6))
      (turn little_endian no_hash settings (at_time 101) (data_sent (some (9 ∷ [])) burst) launched)
unfolding engine
queue_bounds_example =
    queue_bounds little_endian no_hash settings small {n = 0} {e = engine small} refl (omega arith)
      (later (at_time 101) (data_sent (some (9 ∷ [])) burst) (started (at_time 100) 8)
        launched-enabled tt)

-- The engine with nothing done, and a close at time 200 with a message that the peer never acknowledges
abbrev idle : Actor
idle = fresh 0 (at_time 100) (engine small)

abbrev closed : Turn
closed =
    turn little_endian no_hash settings (at_time 200) (command (some cmd_close) ((5 ∷ []) ∷ []))
      idle

abbrev last_turns : List (Clock × Event)
last_turns = (at_time 10200, timer 8) ∷ []

timer-AllEnabled : (x : Turn) → AllEnabled little_endian no_hash settings last_turns x
unfolding enabled
timer-AllEnabled (goes_on a) = (refl, tt)
timer-AllEnabled (breaks a) = tt

close_stops_example : HasStopped (run little_endian no_hash settings last_turns closed)
close_stops_example =
    close_stops little_endian no_hash settings (at_time 200) (some cmd_close) ((5 ∷ []) ∷ []) idle
      last_turns (inl refl) (timer-AllEnabled closed) (inl (omega arith))

abbrev closing_actor : Actor
closing_actor = record idle { closing = true; send_closed = true; close_deadline = some 10100 }

closing_turn_example :
    Drains 10100
      (at_time 150)
      (turn little_endian no_hash settings (at_time 150) (timer 8) closing_actor)
unfolding enabled
closing_turn_example =
    closing_turn little_endian no_hash settings 10100 (at_time 150) (timer 8) closing_actor
      (record { closing = refl; shut = refl; until = refl }) refl

-- Two turns of the timer with nothing from the peer, and one when three seconds have passed
abbrev quiet_turns : List (Clock × Event)
quiet_turns = (at_time 1200, timer 8) ∷ (at_time 2300, timer 8) ∷ []

silent_peer_stops_example :
    (3000 ≤ 3000
      → HasStopped (
          run little_endian no_hash settings
            (quiet_turns ++ (at_time 3100, timer 8) ∷ [])
            (goes_on idle)))
    × (3000 < 3000
        → FlushesWell little_endian no_hash settings (at_time 3100) idle
        → ◌≡◌ {A = Bool} false false
        → HasStopped (turn little_endian no_hash settings (at_time 3100) (timer 8) idle)
        → ⊥)
    × (1 ≤ wait settings 150 (engine small))
    × (wait settings 150 (engine small) ≤ 1000)
unfolding engine
silent_peer_stops_example =
    silent_peer_stops little_endian no_hash settings quiet_turns (at_time 3100) 150 8 1000 idle refl
      (tt, (tt, tt))
