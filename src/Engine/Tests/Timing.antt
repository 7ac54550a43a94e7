-- ===== src/Engine/Tests/Timing.antt =====
-- Runs of the scan, the flush and the timers (kcp-core/src/engine.rs).
use rust_kcp.Base.{
  ◌+◌, ◌%◌, ◌^◌, ℕ, ◌+◌, ◌-◌, ◌≤◌, ◌<◌, ◌^◌, ◌≡◌, ◌≢◌, refl, arith, max, true, false, List, [], ◌∷◌,
  All, u32, pos, is_neg, ◌⊎◌, inr, length,
}
use rust_kcp.Error.{ok, err, connection_lost}
use rust_kcp.Protocol.{KcpSegment}
use rust_kcp.Protocol.Constants.{ikcp_thresh_min}
use rust_kcp.Protocol.Seq.{time_diff, seq_after}
use rust_kcp.Protocol.Wire.LittleEndian.{little_endian}
use rust_kcp.Engine.{KcpEngine, ProbeState, mss, idle_ms, is_dead, start, set_conv, drain_output}
use rust_kcp.Engine.Transmit.{
  MarkContext, mark_loop, mark_context, resend_threshold, first_delay, flush_data_segments,
}
use rust_kcp.Engine.Transmit.Marking.{Sent, flush_data_segments_lem}
use rust_kcp.Engine.Congestion.{update_congestion_on_loss, update_cwnd}
use rust_kcp.Engine.Congestion.Bounds.{update_congestion_on_loss_lem, update_cwnd_lem}
use rust_kcp.Engine.Probe.{schedule_probe}
use rust_kcp.Engine.Probe.Timer.{IsWait, schedule_probe_lem}
use rust_kcp.Engine.Output.Packing.{wire_bytes}
use rust_kcp.Engine.Input.Parse.{datagram}
use rust_kcp.Engine.Flush.Acks.{acknowledgement, flush_acks_lem}
use rust_kcp.Engine.{wnd_unused}
use rust_kcp.Base.{map, ◌++◌}
use rust_kcp.Engine.Flush.{flush_acks, check, flush, keep_alive_probe}
use rust_kcp.Engine.Flush.Deadlines.{wait_for, check_bounds, idle_ms_wraps}
use rust_kcp.Engine.Tests.{small, engine, data_segment}

-- One segment that was never sent, and one that was sent as often as the limit allows
abbrev buffered : List KcpSegment
buffered = data_segment 0 0 (1 ∷ []) ∷ record (data_segment 1 0 (2 ∷ [])) { xmit = 20 } ∷ []

abbrev tired : KcpEngine
tired = record (engine small) { snd_nxt = 2; snd_buf = buffered }

abbrev context : MarkContext
context = mark_context 500 (resend_threshold tired) (first_delay tired) tired

flush_data_segments_lem_example :
    let m = mark_loop context 0 buffered in
    Sent m.segments tired.dead_link m.indices (flush_data_segments little_endian 500 tired).1
flush_data_segments_lem_example = flush_data_segments_lem little_endian 500 tired

flush-tired : (flush little_endian 500 tired).1 ≡ err connection_lost
unfolding flush flush_data_segments rust_kcp.Engine.SendBuf.move_to_send_buf
    rust_kcp.Engine.Probe.handle_window_probe engine time_diff rust_kcp.Engine.Output.output_segment
    rust_kcp.Protocol.size
flush-tired = refl

dead_tired : is_dead tired ≡ true
unfolding is_dead engine
dead_tired = refl

congestion_on_loss_example :
    let w = (update_congestion_on_loss true false 2 (engine small)).wnd in
    (1 ≤ w.cwnd)
    × (◌≡◌ true true
        → (w.cwnd ≡ 1) × (w.incr ≡ mss (engine small)) × (ikcp_thresh_min ≤ w.ssthresh))
    × (◌≡◌ false true → ikcp_thresh_min ≤ w.ssthresh)
    × (◌≡◌ true false → ◌≡◌ false false → 1 ≤ (engine small).wnd.cwnd → w ≡ (engine small).wnd)
    × (w.rmt ≡ (engine small).wnd.rmt)
congestion_on_loss_example = update_congestion_on_loss_lem true false 2 (engine small)

-- Segment 0 has just been acknowledged, in slow start.
abbrev acknowledged : KcpEngine
acknowledged = record (engine small) { snd_una = 1; snd_nxt = 1 }

update_cwnd_lem_example :
    let w = (update_cwnd 0 acknowledged).wnd in
    let v = acknowledged.wnd in
    (seq_after 1 0 ≡ false → w ≡ v)
    × (v.rmt ≤ v.cwnd → w ≡ v)
    × (w.cwnd ≤ max v.cwnd v.rmt)
    × (seq_after 1 0 ≡ true → v.cwnd < v.rmt → v.cwnd < v.ssthresh → w.cwnd ≡ v.cwnd + 1)
unfolding engine
update_cwnd_lem_example = update_cwnd_lem 0 acknowledged (omega arith)

-- A probe timer that has run out
abbrev due : ProbeState
due = record { flags = 0; wait = 7000; ts = 1000 }

schedule_probe_lem_example :
    let q = schedule_probe 2000 0 due in
    IsWait q.wait
    × (◌≢◌ {A = ℕ} 0 0 → q ≡ record due { wait = 0; ts = 0 })
    × (◌≡◌ {A = ℕ} 0 0 → due.wait ≡ 0 → q ≡ record due { wait = 7000; ts = 9000 })
    × (◌≡◌ {A = ℕ} 0 0 → due.wait ≢ 0 → is_neg (time_diff 2000 1000) ≡ true → q ≡ due)
    × (◌≡◌ {A = ℕ} 0 0
        → due.wait ≢ 0
        → is_neg (time_diff 2000 1000) ≡ false
        → (q.flags ≡ 1) × (q.wait ≡ 10500) × (q.ts ≡ (2000 + q.wait) % 2 ^ 32))
schedule_probe_lem_example = schedule_probe_lem 2000 0 due (inr (omega arith, omega arith))

-- One segment's timer runs out in 50 ms.
abbrev armed : KcpEngine
armed = record (engine small) {
  snd_buf = record (data_segment 0 0 []) { xmit = 1; resendts = 550 } ∷ [];
}

check-armed : check 500 armed ≡ 50
unfolding check engine time_diff
check-armed = refl

check_bounds_example :
    ((armed.ack_list ≢ []) ⊎ (armed.probe.flags ≢ 0) → check 500 armed ≡ 0)
    × All (λ seg. check 500 armed ≤ wait_for 500 seg.resendts) armed.snd_buf
    × (armed.wnd.rmt ≡ 0 → armed.probe.ts ≢ 0 → check 500 armed ≤ wait_for 500 armed.probe.ts)
    × (armed.ack_list ≡ []
        → armed.probe.flags ≡ 0
        → armed.snd_buf ≡ []
        → (armed.wnd.rmt ≢ 0) ⊎ (armed.probe.ts ≡ 0)
        → check 500 armed ≡ 30000)
check_bounds_example = check_bounds 500 armed

-- The last activity was one second before the clock's wrap.
abbrev before_wrap : KcpEngine
before_wrap = record (engine small) { last_activity = 2 ^ 32 - 1000 }

idle_ms_wraps_example :
    (u32 (2 ^ 32 - 1000) + 3000 < 2 ^ 32 → idle_ms (u32 (2 ^ 32 + 2000)) before_wrap ≡ 3000)
    × (2 ^ 32 ≤ u32 (2 ^ 32 - 1000) + 3000
        → (idle_ms (u32 (2 ^ 32 + 2000)) before_wrap ≡ 0)
          × (time_diff (u32 (2 ^ 32 + 2000)) (2 ^ 32 - 1000) ≡ pos 3000))
idle_ms_wraps_example = idle_ms_wraps (2 ^ 32 - 1000) 3000 before_wrap refl (omega arith)

start_runs : (start tired).1 ≡ ok tt
unfolding start
start_runs = refl

conv_runs : (set_conv 9 tired).conv ≡ 9
unfolding set_conv
conv_runs = refl

drained : (drain_output (record tired { output_queue = (1 ∷ []) ∷ [] })).1 ≡ (1 ∷ []) ∷ []
unfolding drain_output
drained = refl

-- The keep-alive of an idle engine is one WASK datagram.
keep_alive_runs : length (keep_alive_probe little_endian 500 (engine small)).0.output_queue ≡ 1
unfolding keep_alive_probe flush flush_data_segments rust_kcp.Engine.SendBuf.move_to_send_buf
    rust_kcp.Engine.Probe.handle_window_probe engine rust_kcp.Engine.Output.output_segment
    rust_kcp.Protocol.size rust_kcp.Protocol.new_segment
    rust_kcp.Engine.Congestion.update_congestion_control rust_kcp.Engine.Output.flush_out_buf
    update_congestion_on_loss rust_kcp.Protocol.Wire.encode rust_kcp.Protocol.Wire.encode_header
keep_alive_runs = refl

-- Two segments are to be acknowledged.
abbrev acking : KcpEngine
acking = record (engine small) { ack_list = (0, 90) ∷ (1, 91) ∷ []; rcv_nxt = 2 }

flush_acks_lem_example :
    let e' = flush_acks little_endian 500 acking in
    (wire_bytes e'
      ≡ wire_bytes acking
        ++ datagram little_endian (map (acknowledgement 7 4 2) ((0, 90) ∷ (1, 91) ∷ [])))
    × (e'.ack_list ≡ [])
unfolding engine
flush_acks_lem_example = flush_acks_lem little_endian 500 acking
