-- ===== src/Engine/Flush.antt =====
-- kcp-core/src/engine.rs: `flush` and what drives it: `update`, `check`, `keep_alive_probe`.
pub mod Deadlines
pub mod Packed
pub mod Acks
pub mod Leaves
use rust_kcp.Base.{
  ℕ, ◌-◌, min, List, [], ◌∷◌, ltb, leb, ◌==◌, ◌&&◌, ◌||◌, not, is_empty, if◌then◌else◌, u16,
  u32_max, nonneg_part, bit_or,
}
use rust_kcp.Error.{KcpCoreResult, ok, err}
use rust_kcp.Protocol.{KcpSegment, ack}
use rust_kcp.Protocol.Seq.{time_diff}
use rust_kcp.Protocol.Wire.{ByteCodec}
use rust_kcp.Protocol.Constants.{ikcp_ask_send}
use rust_kcp.Engine.{KcpEngine, wnd_unused}
use rust_kcp.Engine.Output.{output_segment, flush_out_buf}
use rust_kcp.Engine.Congestion.{update_congestion_control}
use rust_kcp.Engine.Probe.{handle_window_probe}
use rust_kcp.Engine.SendBuf.{move_to_send_buf}
use rust_kcp.Engine.Transmit.{flush_data_segments}

unfoldable pub ack_segment : ℕ → ℕ → ℕ → ℕ → ℕ × ℕ → KcpSegment
ack_segment now conv wnd una (sn, ts) =
    let seg = ack now conv sn ts in
    let h = seg.header in record seg { header = record h { wnd = wnd; una = una } }

unfoldable pub output_acks : ByteCodec → ℕ → ℕ → ℕ → List (ℕ × ℕ) → KcpEngine → KcpEngine
unfolding ack_segment
output_acks codec now wnd una [] e = e
output_acks codec now wnd una (a ∷ acks) e =
    output_acks codec now wnd una acks (output_segment codec (ack_segment now e.conv wnd una a) e)

-- It returns `Ok` on every path.
unfoldable pub flush_acks : ByteCodec → ℕ → KcpEngine → KcpEngine
unfolding output_acks
flush_acks codec now e =
    output_acks codec now (u16 (wnd_unused e)) e.rcv_nxt e.ack_list (record e { ack_list = [] })

-- A lost connection leaves `flush` before `flush_out_buf`.
abbrev pub finish_flush :
    KcpEngine × KcpCoreResult (Unit {0}) → KcpEngine × KcpCoreResult (Unit {0})
finish_flush (e, ok u) = (update_congestion_control (flush_out_buf e), ok u)
finish_flush (e, err x) = (e, err x)

unfoldable pub flush : ByteCodec → ℕ → KcpEngine → KcpEngine × KcpCoreResult (Unit {0})
unfolding flush_acks
flush codec current e =
    let e1 = flush_acks codec current e in
    let e2 = handle_window_probe codec current e1 in
    let e3 = move_to_send_buf current e2 in finish_flush (flush_data_segments codec current e3)

-- The loop of `check` over `snd_buf`
unfoldable pub soonest : ℕ → List KcpSegment → ℕ → ℕ
soonest current [] next = next
soonest current (seg ∷ segs) next =
    soonest current segs (min next (nonneg_part (time_diff seg.resendts current)))

unfoldable pub check : ℕ → KcpEngine → ℕ
unfolding soonest
check current e =
    let next = soonest current e.snd_buf u32_max in
    let next' =
      if e.wnd.rmt == 0 && not (e.probe.ts == 0)
      then min next (nonneg_part (time_diff e.probe.ts current))
      else next in
    if not (is_empty e.ack_list) || not (e.probe.flags == 0)
    then 0
    else if next' == u32_max
    then 30000
    else next'

unfoldable pub update : ByteCodec → ℕ → KcpEngine → KcpEngine × KcpCoreResult (Unit {0})
update codec current e =
    let last = if ltb current e.last_update then current else e.last_update in
    if leb e.config.nodelay.interval (current - last)
    then flush codec current (record e { last_update = current })
    else (record e { last_update = last }, ok tt)

unfoldable pub keep_alive_probe : ByteCodec → ℕ → KcpEngine → KcpEngine × KcpCoreResult (Unit {0})
keep_alive_probe codec current e =
    let probe = e.probe in
    flush codec current
      (record e { probe = record probe { flags = bit_or probe.flags ikcp_ask_send } })
