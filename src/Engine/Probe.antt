-- ===== src/Engine/Probe.antt =====
-- kcp-core/src/engine.rs: window probing.
pub mod Timer
use rust_kcp.Base.{ℕ, ◌/◌, [], ltb, ◌==◌, if◌then◌else◌, u16, add32, is_neg, bit_and, bit_or}
use rust_kcp.Protocol.{KcpSegment, new_segment}
use rust_kcp.Protocol.Seq.{time_diff}
use rust_kcp.Protocol.Wire.{ByteCodec}
use rust_kcp.Protocol.Constants.{
  ikcp_ask_send, ikcp_ask_tell, ikcp_cmd_wask, ikcp_cmd_wins, ikcp_probe_init, ikcp_probe_limit,
}
use rust_kcp.Engine.{KcpEngine, ProbeState, wnd_unused}
use rust_kcp.Engine.Output.{output_segment}

unfoldable pub create_probe_segment : ℕ → ℕ → KcpEngine → KcpSegment
create_probe_segment now cmd e =
    let seg = new_segment now e.conv cmd [] in
    let h = seg.header in
    record seg { header = record h { wnd = u16 (wnd_unused e); una = e.rcv_nxt } }

-- The next wait: half as long again, within the two limits
unfoldable pub back_off : ℕ → ℕ
back_off wait =
    let base = if ltb wait ikcp_probe_init then ikcp_probe_init else wait in
    let longer = add32 base (base / 2) in
    if ltb ikcp_probe_limit longer then ikcp_probe_limit else longer

-- The timer, from the remote window
unfoldable pub schedule_probe : ℕ → ℕ → ProbeState → ProbeState
unfolding back_off
schedule_probe current rmt probe =
    if rmt == 0
    then (if probe.wait == 0
        then record probe { wait = ikcp_probe_init; ts = add32 current ikcp_probe_init }
        else if is_neg (time_diff current probe.ts)
        then probe
        else record {
          flags = bit_or probe.flags ikcp_ask_send;
          wait = back_off probe.wait;
          ts = add32 current (back_off probe.wait);
        })
    else record probe { ts = 0; wait = 0 }

-- `if (flags & bit) != 0`, a probe segment with the command goes out.
unfoldable pub send_probe : ByteCodec → ℕ → ℕ → ℕ → KcpEngine → KcpEngine
unfolding create_probe_segment
send_probe codec now bit cmd e =
    if bit_and e.probe.flags bit == 0
    then e
    else output_segment codec (create_probe_segment now cmd e) e

unfoldable pub clear_flags : KcpEngine → KcpEngine
clear_flags e = let probe = e.probe in record e { probe = record probe { flags = 0 } }

-- It returns `Ok` on every path.
unfoldable pub handle_window_probe : ByteCodec → ℕ → KcpEngine → KcpEngine
unfolding schedule_probe send_probe clear_flags
handle_window_probe codec current e =
    let e1 = record e { probe = schedule_probe current e.wnd.rmt e.probe } in
    let e2 = send_probe codec current ikcp_ask_send ikcp_cmd_wask e1 in
    let e3 = send_probe codec current ikcp_ask_tell ikcp_cmd_wins e2 in clear_flags e3
