-- ===== src/Engine/Tests/Receiving.antt =====
-- Runs of `recv` and `input` (kcp-core/src/engine.rs).
use rust_kcp.Base.{
  ◌⊎◌, ℕ, ◌+◌, ◌≤◌, ◌<◌, ◌^◌, ◌≡◌, ◌≢◌, refl, arith, true, false, List, [], ◌∷◌, ◌++◌, All, length,
  none, some, u32, inl, inr,
}
use rust_kcp.Error.{ok, err, protocol, packet_too_small}
use rust_kcp.Protocol.{KcpSegment}
use rust_kcp.Protocol.Wire.{IsSegment, received}
use rust_kcp.Protocol.Wire.LittleEndian.{little_endian}
use rust_kcp.Engine.{KcpEngine}
use rust_kcp.Engine.Recv.{recv, deliver, recv_state, move_to_recv_queue}
use rust_kcp.Engine.Recv.Reassembly.{Delivered, recv_chain, recv_blocked}
use rust_kcp.Engine.Recv.Order.{IsReceiving}
use rust_kcp.Engine.Input.{on_push, input, finish_input, no_ack, process}
use rust_kcp.Engine.Input.Parse.{datagram, process_all, input-datagram, input_short}
use rust_kcp.Engine.Input.Held.{StillKept, on_push-StillKept}
use rust_kcp.Engine.Delivery.Session.{
  Event, arrive, read, Session, run, step, AllAdmissible, IsFaithful, run-IsFaithful,
}
use rust_kcp.Engine.Tests.{small, engine, data_segment}

-- The peer's stream: two bytes in each segment
abbrev source : ℕ → List ℕ
source n = n ∷ 50 ∷ []

abbrev number : ℕ → KcpSegment
number n = data_segment n 0 (source n)

abbrev at_start : Session
at_start = record { position = 0; engine = engine small; got = [] }

number-IsSegment : (n : ℕ) → n < 2 ^ 32 → IsSegment (number n)
number-IsSegment n h = record {
  fields_fit = record {
    conv_fits = omega arith;
    cmd_fits = omega arith;
    frg_fits = omega arith;
    wnd_fits = omega arith;
    ts_fits = omega arith;
    sn_fits = h;
    una_fits = omega arith;
    len_fits = omega arith;
  };
  len_lem = refl;
}

-- Segment 1 comes first, then a datagram with both segments, the second of them again.
abbrev events : List Event
events = arrive 101 (number 1 ∷ []) ∷ arrive 102 (number 0 ∷ number 1 ∷ []) ∷ read ∷ read ∷ []

at_start-IsFaithful : IsFaithful source at_start
unfolding engine recv_state
at_start-IsFaithful = record {
  window = omega arith;
  receiving = record { expects = refl; ascending = tt; holds = tt };
  prefix = refl;
}

run_delivers : (run little_endian events at_start).got ≡ 0 ∷ 50 ∷ 1 ∷ 50 ∷ []
unfolding run step input rust_kcp.Protocol.Wire.encode rust_kcp.Protocol.Wire.encode_header
    finish_input rust_kcp.Engine.Congestion.update_cwnd rust_kcp.Protocol.Seq.seq_after
    rust_kcp.Engine.Input.input_loop rust_kcp.Protocol.Wire.decode_header
    rust_kcp.Protocol.Wire.decode process engine rust_kcp.Engine.Input.dispatch
    rust_kcp.Engine.Ack.shrink_buf rust_kcp.Engine.Input.on_push rust_kcp.Protocol.Seq.seq_before
    rust_kcp.Base.BTreeMap.erase rust_kcp.Base.BTreeMap.insert rust_kcp.Base.BTreeMap.lookup
    rust_kcp.Base.BTreeMap.or_insert rust_kcp.Engine.Ack.ack_push rust_kcp.Engine.Ack.parse_una recv
    deliver rust_kcp.Engine.Input.parse_data rust_kcp.Engine.Recv.peek_size
    rust_kcp.Engine.Recv.assemble move_to_recv_queue
run_delivers = refl

events-Admissible : AllAdmissible little_endian source events at_start
unfolding step input rust_kcp.Protocol.Wire.encode rust_kcp.Protocol.Wire.encode_header finish_input
    rust_kcp.Engine.Congestion.update_cwnd rust_kcp.Protocol.Seq.seq_after
    rust_kcp.Engine.Input.input_loop rust_kcp.Protocol.Wire.decode_header
    rust_kcp.Protocol.Wire.decode process engine rust_kcp.Engine.Input.dispatch
    rust_kcp.Engine.Ack.shrink_buf rust_kcp.Engine.Input.on_push rust_kcp.Protocol.Seq.seq_before
    rust_kcp.Base.BTreeMap.erase rust_kcp.Base.BTreeMap.insert rust_kcp.Base.BTreeMap.lookup
    rust_kcp.Base.BTreeMap.or_insert rust_kcp.Engine.Ack.ack_push rust_kcp.Engine.Ack.parse_una recv
    deliver recv_state rust_kcp.Engine.Input.parse_data rust_kcp.Engine.Recv.peek_size
    rust_kcp.Engine.Recv.assemble move_to_recv_queue
events-Admissible = (
  (
    (λ h. absurd (cc)),
    (number-IsSegment 1 (omega arith), tt),
    ((λ h. (1, (refl, refl), omega arith, omega arith)), tt),
  ),
  (
    (
      (λ h. absurd (cc)),
      (number-IsSegment 0 (omega arith), (number-IsSegment 1 (omega arith), tt)),
      (
        (λ h. (0, (refl, refl), omega arith, omega arith)),
        ((λ h. (1, (refl, refl), omega arith, omega arith)), tt),
      ),
    ),
    (tt, (tt, tt)),
  ),
)

run-IsFaithful_example : IsFaithful source (run little_endian events at_start)
run-IsFaithful_example =
    run-IsFaithful source little_endian events at_start at_start-IsFaithful events-Admissible

input-datagram_example :
    input little_endian 101
      (datagram little_endian (number 0 ∷ number 1 ∷ []) ++ 5 ∷ 6 ∷ [])
      (engine small)
    ≡ (
      finish_input (engine small).snd_una (
          process_all 101
            (number 0 ∷ number 1 ∷ [])
            (record (engine small) { last_activity = 101 }, no_ack)),
      ok tt,
    )
input-datagram_example =
    input-datagram little_endian 101 (number 0 ∷ number 1 ∷ []) (5 ∷ 6 ∷ []) (engine small)
      (λ h. absurd (cc)) (number-IsSegment 0 (omega arith), (number-IsSegment 1 (omega arith), tt))
      (omega arith)

input_short_example :
    input little_endian 101 (1 ∷ 2 ∷ []) (engine small)
    ≡ (record (engine small) { last_activity = 101 }, err (protocol packet_too_small))
input_short_example = input_short little_endian 101 (1 ∷ 2 ∷ []) (engine small) (omega arith)

-- Segment 0 waits beside segment 2.
abbrev gap : KcpEngine
gap = record (engine small) { rcv_buf = (0, number 0) ∷ (2, number 2) ∷ [] }

gap-IsReceiving : IsReceiving source 4 0 (recv_state gap)
unfolding recv_state engine
gap-IsReceiving = record {
  expects = refl;
  ascending = ((omega arith, tt), (tt, tt));
  holds = (
    (0, refl, omega arith, omega arith, (refl, refl)),
    ((2, refl, omega arith, omega arith, (refl, refl)), tt),
  );
}

-- A message of two fragments waits before another message.
abbrev waiting : KcpEngine
waiting = record (engine small) {
  rcv_queue =
      data_segment 0 1 (1 ∷ 2 ∷ []) ∷ data_segment 1 0 (3 ∷ []) ∷ data_segment 2 0 (4 ∷ []) ∷ [];
  rcv_nxt = 3;
}

recv_chain_example :
    ((recv waiting).1 ≡ ok (some (1 ∷ 2 ∷ 3 ∷ [])))
    × Delivered waiting (1 ∷ 2 ∷ 3 ∷ []) (data_segment 2 0 (4 ∷ []) ∷ []) (recv waiting).0
recv_chain_example =
    recv_chain 1 (data_segment 0 1 (1 ∷ 2 ∷ []) ∷ data_segment 1 0 (3 ∷ []) ∷ [])
      (data_segment 2 0 (4 ∷ []) ∷ []) waiting (refl, (refl, tt)) refl (omega arith) (omega arith)

recv-waiting : (recv waiting).1 ≡ ok (some (1 ∷ 2 ∷ 3 ∷ []))
unfolding recv deliver
recv-waiting = refl

-- A segment without bytes hides the message behind it.
abbrev hidden : KcpEngine
hidden = record (engine small) { rcv_queue = data_segment 0 0 [] ∷ data_segment 1 0 (3 ∷ []) ∷ [] }

recv_blocked_example : recv hidden ≡ (hidden, ok none)
recv_blocked_example =
    recv_blocked hidden
      (inr (data_segment 0 0 [], data_segment 1 0 (3 ∷ []) ∷ [], refl, inr (refl, refl)))

-- Two segments of the stream have joined the queue, and a third one waits.
abbrev reading : KcpEngine
reading = record (engine small) {
  rcv_queue = number 0 ∷ number 1 ∷ [];
  rcv_buf = (2, number 2) ∷ [];
  rcv_nxt = 2;
}

reading-IsReceiving : IsReceiving source 4 2 (recv_state reading)
unfolding recv_state engine
reading-IsReceiving = record {
  expects = refl;
  ascending = (tt, tt);
  holds = ((2, refl, omega arith, omega arith, (refl, refl)), tt);
}

-- Segment 2 comes while segment 0 is expected: it is acknowledged and held.
on_push-StillKept_example :
    (on_push (number 2) (engine small) ≡ engine small)
    ⊎ (((on_push (number 2) (engine small)).ack_list ≡ (2, 90) ∷ [])
        × StillKept 2 0 0 (recv_state (on_push (number 2) (engine small))))
unfolding engine
on_push-StillKept_example =
    on_push-StillKept 2 0 (number 2) (engine small) refl refl (omega arith) (omega arith)
