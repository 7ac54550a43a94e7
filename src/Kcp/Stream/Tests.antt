-- ===== src/Kcp/Stream/Tests.antt =====
-- Runs of a stream (kcp/stream.rs).
use rust_kcp.Base.{
  ℕ, ◌+◌, ◌≤◌, ◌<◌, ◌^◌, ◌≡◌, refl, arith, Bool, true, false, List, [], ◌∷◌, ◌++◌, Option, none,
  some, length, concat, All,
}
use rust_kcp.Protocol.{KcpSegment}
use rust_kcp.Protocol.Wire.LittleEndian.{little_endian}
use rust_kcp.Engine.{KcpEngine, new, drain_output}
use rust_kcp.Engine.Recv.{recv, recv_state, peek_size, deliver, assemble, move_to_recv_queue}
use rust_kcp.Engine.Flush.{update}
use rust_kcp.Engine.Delivery.Session.{IsFaithful}
use rust_kcp.Engine.Input.Parse.{datagram}
use rust_kcp.Engine.Tests.{data_segment}
use rust_kcp.Kcp.Error.{Result, ok, err}
use rust_kcp.Kcp.Config.{KcpConfig, default_kcp_config, realtime, to_core}
use rust_kcp.Kcp.Config.Valid.{IsValid}
use rust_kcp.Kcp.Actor.{
  Settings, Clock, Actor, goes_on, launch_actor, drain_recv, flush_output, transmit,
}
use rust_kcp.Kcp.Actor.Induction.{Ends, started}
use rust_kcp.Kcp.Actor.Wire.{Within}
use rust_kcp.Kcp.Stream.{
  KcpStream, Poll, ready, pending, sent, channel_full, new_stream, actor_settings, send,
  new_server_stream, poll_read, copy_out,
}
use rust_kcp.Kcp.Stream.Opening.{new_server_stream_lem}
use rust_kcp.Kcp.Stream.Reading.{poll_reads, Streams, poll_reads-Streams}
use rust_kcp.Kcp.Stream.Writing.{AllQueued, send-AllQueued, poll_writes, poll_writes_lem}
use rust_kcp.Kcp.Stream.EndToEnd.{ReadsPrefix, reads_prefix}

realtime-IsValid : IsValid realtime
realtime-IsValid = record {
  mtu_from = omega arith;
  mtu_to = omega arith;
  snd_from = omega arith;
  snd_to = omega arith;
  rcv_from = omega arith;
  rcv_to = omega arith;
  interval_from = omega arith;
  retries_from = omega arith;
}

abbrev client : KcpStream
client = new_stream realtime true

send-AllQueued_example :
    AllQueued 100 (new 100 7 (to_core realtime)) (send true (1 ∷ 2 ∷ 3 ∷ []) client).0
unfolding new rust_kcp.Kcp.Stream.stream_mss new_stream to_core
send-AllQueued_example =
    send-AllQueued true 100 (1 ∷ 2 ∷ 3 ∷ []) realtime client (new 100 7 (to_core realtime))
      realtime-IsValid (refl, refl) refl

-- A user's buffer of two bytes at a time
abbrev polls : List (ℕ × Poll (Option (List ℕ)))
polls = (2, pending) ∷ (2, ready (some (1 ∷ 2 ∷ 3 ∷ []))) ∷ (2, pending) ∷ (2, ready none) ∷ []

polls_read : (poll_reads polls client).1 ≡ 1 ∷ 2 ∷ 3 ∷ []
unfolding poll_reads poll_read new_stream
polls_read = refl

poll_reads-Streams_example : Streams client (poll_reads polls client)
poll_reads-Streams_example = poll_reads-Streams polls client

-- The channel is full at first, then takes the chunk that waited.
poll_writes_lem_example :
    let (chunks, total) =
      poll_writes
        ((channel_full, pending, 1 ∷ 2 ∷ []) ∷ (sent, ready true, 1 ∷ 2 ∷ []) ∷ [])
        client in
    (total ≡ length (concat chunks)) × All (λ chunk. length chunk ≤ 1176) chunks
unfolding new_stream
poll_writes_lem_example =
    poll_writes_lem 1176 ((channel_full, pending, 1 ∷ 2 ∷ []) ∷ (sent, ready true, 1 ∷ 2 ∷ []) ∷ [])
      client refl tt

-- The peer's stream: two bytes in each segment
abbrev source : ℕ → List ℕ
source n = n ∷ 50 ∷ []

-- An engine that has taken the first segment, and its actor, which forwards it at once
abbrev loaded : KcpEngine
loaded = record (new 100 7 (to_core realtime)) {
  rcv_nxt = 1;
  rcv_queue = data_segment 0 0 (source 0) ∷ [];
}

loaded-IsFaithful : IsFaithful source (record { position = 1; engine = loaded; got = [] })
unfolding recv_state new to_core
loaded-IsFaithful = record {
  window = omega arith;
  receiving = record { expects = refl; ascending = tt; holds = tt };
  prefix = refl;
}

abbrev no_hash : ℕ → ℕ
no_hash k = 0

abbrev at_time : ℕ → Clock
at_time now = record { stamp = λ k. now; instant = λ k. now }

abbrev serving : Actor
serving = launch_actor little_endian no_hash (actor_settings realtime) (at_time 100) 2 1 loaded

serving_forwarded : serving.forwarded ≡ source 0 ∷ []
unfolding launch_actor drain_recv recv peek_size deliver assemble move_to_recv_queue update
    flush_output transmit drain_output new to_core rust_kcp.Base.BTreeMap.lookup
serving_forwarded = refl

reads_prefix_example :
    ReadsPrefix source []
      (poll_reads ((1, ready (some (source 0))) ∷ (1, pending) ∷ []) client)
      serving
unfolding poll_reads poll_read copy_out new_stream
reads_prefix_example =
    reads_prefix source little_endian no_hash (actor_settings realtime) client
      ((1, ready (some (source 0))) ∷ (1, pending) ∷ []) (source 0 ∷ []) [] loaded-IsFaithful
      (started (at_time 100) 2) refl serving_forwarded refl

-- A server stream for a client that starts with conversation id 0
abbrev hello : List ℕ
hello = datagram little_endian (data_segment 0 0 (9 ∷ []) ∷ [])

abbrev opened : Result (KcpStream × KcpEngine × Settings)
opened = new_server_stream little_endian (λ k. 1000) 1000 7 77 realtime hello

abbrev engine_of : Result (KcpStream × KcpEngine × Settings) → KcpEngine
engine_of (ok (s, e, settings)) = e
engine_of (err x) = loaded

opened_ok : opened ≡ ok (new_stream realtime false, engine_of opened, actor_settings realtime)
unfolding new_server_stream rust_kcp.Kcp.Config.validate rust_kcp.Engine.start
    rust_kcp.Engine.Input.input rust_kcp.Protocol.Wire.encode rust_kcp.Protocol.Wire.encode_header
    update rust_kcp.Engine.set_conv rust_kcp.Engine.Input.finish_input
    rust_kcp.Engine.Congestion.update_cwnd rust_kcp.Protocol.Seq.seq_after
    rust_kcp.Engine.Input.input_loop rust_kcp.Protocol.Wire.decode_header
    rust_kcp.Protocol.Wire.decode rust_kcp.Engine.Input.process new rust_kcp.Engine.Input.dispatch
    rust_kcp.Engine.Flush.flush rust_kcp.Engine.Transmit.flush_data_segments
    rust_kcp.Engine.SendBuf.move_to_send_buf rust_kcp.Engine.Probe.handle_window_probe
    rust_kcp.Engine.Flush.flush_acks rust_kcp.Engine.Flush.output_acks
    rust_kcp.Engine.Output.output_segment rust_kcp.Engine.Transmit.mark_segments_for_send
    rust_kcp.Engine.Transmit.send_marked rust_kcp.Engine.Transmit.mark_loop
    rust_kcp.Engine.SendBuf.launch_loop rust_kcp.Engine.Ack.parse_una rust_kcp.Engine.Input.on_push
    rust_kcp.Engine.Ack.ack_push rust_kcp.Engine.Input.parse_data move_to_recv_queue
    rust_kcp.Engine.Ack.shrink_buf rust_kcp.Protocol.Seq.seq_before rust_kcp.Engine.Probe.send_probe
    rust_kcp.Engine.Output.append_segment rust_kcp.Engine.Output.split_out_buf
    rust_kcp.Engine.Probe.clear_flags rust_kcp.Engine.Output.flush_out_buf
    rust_kcp.Engine.Congestion.update_congestion_on_loss
    rust_kcp.Engine.Congestion.update_congestion_control actor_settings new_stream to_core
    rust_kcp.Protocol.size rust_kcp.Protocol.ack
opened_ok = refl

abbrev greeted : Actor
greeted =
    launch_actor little_endian no_hash (actor_settings realtime) (at_time 1000) 4 1
      (engine_of opened)

new_server_stream_lem_example :
    IsValid realtime
    × ((engine_of opened).conv ≡ 77)
    × Ends (λ a. Within 1200 a.wire) (goes_on greeted)
new_server_stream_lem_example =
    new_server_stream_lem little_endian no_hash (λ k. 1000) 1000 7 77 realtime hello
      (new_stream realtime false) (engine_of opened) (actor_settings realtime) opened_ok
      (started (at_time 1000) 4)
