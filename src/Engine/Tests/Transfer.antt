-- ===== src/Engine/Tests/Transfer.antt =====
-- A run of a sender and a receiver (kcp-core/src/engine.rs).
use rust_kcp.Base.{
  subst, ℕ, zero, suc, ◌<◌, ◌≡◌, ◌++◌, refl, arith, inr, sym, append-nil, get_elem?, some, ◌+◌, ◌^◌,
  List, [], ◌∷◌, All,
}
use rust_kcp.Protocol.{KcpSegment}
use rust_kcp.Protocol.Wire.{IsSegment, encode}
use rust_kcp.Protocol.Wire.LittleEndian.{little_endian}
use rust_kcp.Engine.{KcpEngine, new}
use rust_kcp.Engine.Recv.{recv_state}
use rust_kcp.Engine.Calls.{Call, call_send, call_update, call_recv, call_flush, drained}
use rust_kcp.Engine.Delivery.Session.{Session, run, IsFaithful}
use rust_kcp.Engine.Sending.History.{sent_bytes, numbered}
use rust_kcp.Engine.Sending.Transfer.{
  Network, delivers, reads, payload_of, events_of, AllDelivers, read-sent, IsNear, IsWhole,
}
use rust_kcp.Engine.Tests.{small, engine, data_segment}

-- Three bytes, in one segment
abbrev short : List Call
short = call_send 200 (1 ∷ 2 ∷ 3 ∷ []) ∷ call_update 300 ∷ []

abbrev number_0 : KcpSegment
number_0 =
    let seg = data_segment 0 0 (1 ∷ 2 ∷ 3 ∷ []) in
    let h = seg.header in record seg { header = record h { ts = 300; wnd = 4 } }

number_0-IsSegment : IsSegment number_0
number_0-IsSegment = record {
  fields_fit = record {
    conv_fits = omega arith;
    cmd_fits = omega arith;
    frg_fits = omega arith;
    wnd_fits = omega arith;
    ts_fits = omega arith;
    sn_fits = omega arith;
    una_fits = omega arith;
    len_fits = omega arith;
  };
  len_lem = refl;
}

abbrev payloads_sent : List (List ℕ)
payloads_sent = (1 ∷ 2 ∷ 3 ∷ []) ∷ []

only_0 : (a : ℕ) (bytes : List ℕ) → get_elem? payloads_sent a ≡ some bytes → a ≡ 0
only_0 zero bytes h = refl
only_0 (suc a) bytes h = absurd (cc)

number_0-IsNear : (wnd n : ℕ) → n + wnd < 2 ^ 31 → IsNear little_endian payloads_sent wnd n number_0
number_0-IsNear wnd n h a num found =
    let z = only_0 a (1 ∷ 2 ∷ 3 ∷ []) found in (omega (arith, z), omega (arith, z, h))

short-numbered : numbered little_endian short (engine small) ≡ payloads_sent
unfolding rust_kcp.Engine.drain_output rust_kcp.Engine.Calls.call rust_kcp.Engine.Send.send
    rust_kcp.Engine.Send.merge_last engine rust_kcp.Engine.Send.queue_fragments rust_kcp.Engine.mss
    rust_kcp.Engine.Flush.update rust_kcp.Engine.Flush.flush
    rust_kcp.Engine.Transmit.flush_data_segments rust_kcp.Engine.SendBuf.move_to_send_buf
    rust_kcp.Engine.Probe.handle_window_probe rust_kcp.Protocol.Seq.time_diff
    rust_kcp.Engine.Congestion.update_congestion_control rust_kcp.Engine.Output.flush_out_buf
    rust_kcp.Engine.Congestion.update_congestion_on_loss encode rust_kcp.Protocol.Wire.encode_header
    drained rust_kcp.Engine.Output.output_segment rust_kcp.Protocol.size rust_kcp.Protocol.push
    rust_kcp.Engine.wnd_unused numbered
short-numbered = refl

unfoldable short_whole : All (IsWhole little_endian) (drained little_endian short (engine small))
unfolding rust_kcp.Engine.drain_output rust_kcp.Engine.Calls.call rust_kcp.Engine.Send.send
    rust_kcp.Engine.Send.merge_last engine rust_kcp.Engine.Send.queue_fragments rust_kcp.Engine.mss
    rust_kcp.Engine.Flush.update rust_kcp.Engine.Flush.flush
    rust_kcp.Engine.Transmit.flush_data_segments rust_kcp.Engine.SendBuf.move_to_send_buf
    rust_kcp.Engine.Probe.handle_window_probe rust_kcp.Protocol.Seq.time_diff
    rust_kcp.Engine.Congestion.update_congestion_control rust_kcp.Engine.Output.flush_out_buf
    rust_kcp.Engine.Congestion.update_congestion_on_loss encode rust_kcp.Protocol.Wire.encode_header
    drained rust_kcp.Engine.Output.output_segment rust_kcp.Protocol.size rust_kcp.Protocol.push
    rust_kcp.Engine.wnd_unused
short_whole = (
  record {
    segments = number_0 ∷ [];
    some_segment = λ h. absurd (cc);
    well_formed = (number_0-IsSegment, tt);
    is_datagram = sym (append-nil (encode little_endian number_0));
  },
  tt,
)

-- The datagram comes, comes again, and is read.
abbrev network : List Network
network = delivers 401 0 ∷ delivers 402 0 ∷ reads ∷ []

abbrev at_start : Session
at_start = record { position = 0; engine = engine small; got = [] }

at_start-IsFaithful : IsFaithful (payload_of payloads_sent) at_start
unfolding engine recv_state
at_start-IsFaithful = record {
  window = omega arith;
  receiving = record { expects = refl; ascending = tt; holds = tt };
  prefix = refl;
}

network-AllDelivers :
    AllDelivers little_endian payloads_sent
      (events_of little_endian payloads_sent
        (drained little_endian short (engine small))
        short_whole
        network)
      at_start
unfolding rust_kcp.Engine.drain_output rust_kcp.Engine.Calls.call rust_kcp.Engine.Send.send
    rust_kcp.Engine.Send.merge_last engine rust_kcp.Engine.Send.queue_fragments rust_kcp.Engine.mss
    rust_kcp.Engine.Flush.update rust_kcp.Engine.Flush.flush
    rust_kcp.Engine.Transmit.flush_data_segments rust_kcp.Engine.SendBuf.move_to_send_buf
    rust_kcp.Engine.Probe.handle_window_probe rust_kcp.Protocol.Seq.time_diff
    rust_kcp.Engine.Congestion.update_congestion_control rust_kcp.Engine.Output.flush_out_buf
    rust_kcp.Engine.Congestion.update_congestion_on_loss encode rust_kcp.Protocol.Wire.encode_header
    drained rust_kcp.Engine.Output.output_segment rust_kcp.Protocol.size rust_kcp.Protocol.push
    rust_kcp.Engine.wnd_unused rust_kcp.Engine.Delivery.Session.step rust_kcp.Engine.Input.input
    rust_kcp.Engine.Input.finish_input rust_kcp.Engine.Congestion.update_cwnd
    rust_kcp.Protocol.Seq.seq_after rust_kcp.Engine.Input.input_loop
    rust_kcp.Protocol.Wire.decode_header rust_kcp.Protocol.Wire.decode rust_kcp.Engine.Input.process
    rust_kcp.Engine.Input.dispatch rust_kcp.Engine.Ack.shrink_buf rust_kcp.Engine.Input.on_push
    rust_kcp.Protocol.Seq.seq_before rust_kcp.Base.BTreeMap.erase rust_kcp.Base.BTreeMap.insert
    rust_kcp.Base.BTreeMap.lookup rust_kcp.Base.BTreeMap.or_insert rust_kcp.Engine.Ack.ack_push
    rust_kcp.Engine.Ack.parse_una rust_kcp.Engine.Recv.recv rust_kcp.Engine.Recv.deliver
    rust_kcp.Engine.Input.parse_data rust_kcp.Engine.Recv.peek_size rust_kcp.Engine.Recv.assemble
    rust_kcp.Engine.Recv.move_to_recv_queue short_whole
network-AllDelivers = (
  ((λ h. absurd (cc)), (number_0-IsNear 4 0 (omega arith), tt)),
  (((λ h. absurd (cc)), (number_0-IsNear 4 1 (omega arith), tt)), (tt, tt)),
)

read-sent_example :
    (rest : List ℕ) × ((run little_endian
          (events_of little_endian
            (numbered little_endian short (engine small))
            (drained little_endian short (engine small))
            short_whole
            network)
          at_start).got
        ++ rest
      ≡ sent_bytes little_endian short (engine small))
unfolding engine
read-sent_example =
    read-sent little_endian short 100 7 small network at_start (omega arith) short_whole
      (subst (λ log. IsFaithful (payload_of log) at_start) (sym short-numbered) at_start-IsFaithful)
      (subst
        (λ log.
          AllDelivers little_endian log
            (events_of little_endian log (drained little_endian short (engine small)) short_whole
              network)
            at_start)
        (sym short-numbered) network-AllDelivers)
