-- ===== src/Engine/Input.antt =====
-- kcp-core/src/engine.rs: `input`, which processes a datagram segment by segment.
pub mod Receiver
pub mod Parse
pub mod Sized
pub mod Queue
pub mod Held
use rust_kcp.Base.{
  ℕ, zero, suc, ◌+◌, Bool, true, false, List, none, some, length, take, drop, ltb, ◌==◌, ◌&&◌, not,
  if◌then◌else◌, add32, add64, is_neg, is_pos,
}
use rust_kcp.Base.BTreeMap.{or_insert}
use rust_kcp.Error.{KcpCoreResult, ok, err, protocol, packet_too_small}
use rust_kcp.Protocol.{KcpSegment, header_size}
use rust_kcp.Protocol.Seq.{seq_before, seq_after, time_diff}
use rust_kcp.Protocol.Wire.{ByteCodec, decode_header, decode}
use rust_kcp.Protocol.Constants.{ikcp_cmd_push, ikcp_cmd_ack, ikcp_cmd_wask}
use rust_kcp.Engine.{KcpEngine}
use rust_kcp.Engine.Rtt.{update_ack}
use rust_kcp.Engine.Congestion.{update_cwnd}
use rust_kcp.Engine.Recv.{move_to_recv_queue, ask_tell}
use rust_kcp.Engine.Ack.{parse_una, parse_ack, parse_fastack, shrink_buf, ack_push}

-- The locals of `input` that its loop changes: `flag`, `max_ack` and `latest_ts`
pub record AckTrack : Type 0 where
  pub flag : Bool
  pub max_ack : ℕ
  pub latest_ts : ℕ

unfoldable pub parse_data : KcpSegment → KcpEngine → KcpEngine
parse_data seg e =
    let sn = seg.header.sn in
    if not (seq_before sn (add32 e.rcv_nxt e.wnd.rcv))
    then e
    else if seq_before sn e.rcv_nxt
    then e
    else move_to_recv_queue (record e { rcv_buf = or_insert sn seg e.rcv_buf })

unfoldable pub on_push : KcpSegment → KcpEngine → KcpEngine
on_push seg e =
    let sn = seg.header.sn in
    let e' = ack_push sn seg.header.ts e in
    if seq_before sn (add32 e.rcv_nxt e.wnd.rcv)
    then (if seq_before sn e.rcv_nxt then e' else parse_data seg e')
    else e

unfoldable pub on_ack : ℕ → KcpSegment → KcpEngine → KcpEngine
on_ack current seg e =
    let rtt = time_diff current seg.header.ts in
    parse_ack seg.header.sn (if is_neg rtt then e else update_ack rtt e)

unfoldable pub track_ack : KcpSegment → AckTrack → AckTrack
track_ack seg t =
    let newest : AckTrack = record {
      flag = true;
      max_ack = seg.header.sn;
      latest_ts = seg.header.ts;
    } in
    if not t.flag
    then newest
    else if seq_after seg.header.sn t.max_ack && is_pos (time_diff seg.header.ts t.latest_ts)
    then newest
    else t

-- The `match` on the command
unfoldable pub dispatch : ℕ → KcpSegment → KcpEngine × AckTrack → KcpEngine × AckTrack
dispatch current seg (e, t) =
    let cmd = seg.header.cmd in
    if cmd == ikcp_cmd_ack
    then (on_ack current seg e, track_ack seg t)
    else if cmd == ikcp_cmd_push
    then (on_push seg e, t)
    else if cmd == ikcp_cmd_wask
    then (ask_tell e, t)
    else (e, t)

unfoldable pub set_remote : ℕ → KcpEngine → KcpEngine
set_remote rmt e = let wnd = e.wnd in record e { wnd = record wnd { rmt = rmt } }

-- One decoded segment: one of another conversation is skipped.
unfoldable pub process : ℕ → KcpSegment → KcpEngine × AckTrack → KcpEngine × AckTrack
unfolding set_remote
process current seg (e, t) =
    if seg.header.conv == e.conv
    then dispatch current seg (parse_una seg.header.una (set_remote seg.header.wnd e), t)
    else (e, t)

-- Each round takes a header at least off the buffer, so its length is fuel enough.
unfoldable pub input_loop : ByteCodec → ℕ → ℕ → List ℕ → KcpEngine × AckTrack → KcpEngine × AckTrack
input_loop codec current zero buf s = s
input_loop codec current (suc fuel) buf s = elim (ltb (length buf) header_size) [
  | true ↦ s
  | false ↦ elim (decode_header codec buf) [
    | none ↦ s
    | some (header, rest) ↦ elim (ltb (length buf) (header_size + header.len)) [
      | true ↦ s
      | false ↦ elim (decode codec (take (header_size + header.len) buf)) [
        | none ↦ s
        | some seg ↦
            input_loop codec current fuel (drop (header_size + header.len) buf)
              (process current seg s)
      ]
    ]
  ]
]

-- What follows the loop; `prev_una` is `snd_una` before it.
unfoldable pub finish_input : ℕ → KcpEngine × AckTrack → KcpEngine
finish_input prev_una (e, t) =
    let e1 = shrink_buf e in
    let e2 = if t.flag then parse_fastack t.max_ack t.latest_ts e1 else e1 in
    let e3 = update_cwnd prev_una e2 in
    let stats = e3.stats in
    record e3 { stats = record stats { packets_received = add64 stats.packets_received 1 } }

abbrev pub no_ack : AckTrack
no_ack = record { flag = false; max_ack = 0; latest_ts = 0 }

unfoldable pub input : ByteCodec → ℕ → List ℕ → KcpEngine → KcpEngine × KcpCoreResult (Unit {0})
input codec current bytes e =
    let e' = record e { last_activity = current } in
    if ltb (length bytes) header_size then (e', err (protocol packet_too_small)) else (
      finish_input e.snd_una (input_loop codec current (length bytes) bytes (e', no_ack)),
      ok tt,
    )
