-- ===== src/Protocol.antt =====
-- kcp-core/src/protocol.rs: the segment, its header, and the statistics. A clock reading is the
-- argument `now` of what reads the clock.
pub mod Constants
pub mod Seq
pub mod Wire
mod Tests
use rust_kcp.Base.{ℕ, zero, suc, ◌+◌, Bool, List, [], ◌∷◌, Option, none, some, length}
use rust_kcp.Base.{◌==◌, ◌||◌, u32, if◌then◌else◌}
use Constants.{ikcp_rto_def, ikcp_cmd_push, ikcp_cmd_ack, ikcp_cmd_wask, ikcp_cmd_wins}

pub record KcpHeader : Type 0 where
  pub conv : ℕ
  pub cmd : ℕ
  pub frg : ℕ
  pub wnd : ℕ
  pub ts : ℕ
  pub sn : ℕ
  pub una : ℕ
  pub len : ℕ

-- `payload` is the source's field `data`.
pub record KcpSegment : Type 0 where
  pub header : KcpHeader
  pub payload : List ℕ
  pub resendts : ℕ
  pub rto : ℕ
  pub fastack : ℕ
  pub xmit : ℕ

-- `KcpHeader::SIZE`
abbrev pub header_size : ℕ
header_size = 24

-- `KcpHeader::new`
unfoldable pub new_header : ℕ → ℕ → ℕ → KcpHeader
new_header now conv cmd = record {
  conv = conv;
  cmd = cmd;
  frg = 0;
  wnd = 0;
  ts = now;
  sn = 0;
  una = 0;
  len = 0;
}

-- `KcpSegment::new`
unfoldable pub new_segment : ℕ → ℕ → ℕ → List ℕ → KcpSegment
unfolding new_header
new_segment now conv cmd bytes =
    let h = new_header now conv cmd in
    record {
      header = record h { len = u32 (length bytes) };
      payload = bytes;
      resendts = 0;
      rto = ikcp_rto_def;
      fastack = 0;
      xmit = 0;
    }

-- `KcpSegment::push`
unfoldable pub push : ℕ → ℕ → ℕ → List ℕ → KcpSegment
unfolding new_segment
push now conv sn bytes =
    let seg = new_segment now conv ikcp_cmd_push bytes in
    let h = seg.header in record seg { header = record h { sn = sn } }

-- `KcpSegment::ack`
unfoldable pub ack : ℕ → ℕ → ℕ → ℕ → KcpSegment
unfolding new_segment
ack now conv sn ts =
    let seg = new_segment now conv ikcp_cmd_ack [] in
    let h = seg.header in record seg { header = record h { sn = sn; ts = ts } }

-- `KcpSegment::size`
unfoldable pub size : KcpSegment → ℕ
size seg = header_size + length seg.payload

-- `is_data`, `is_ack` and `is_probe`
unfoldable pub is_data : KcpSegment → Bool
is_data seg = seg.header.cmd == ikcp_cmd_push

unfoldable pub is_ack : KcpSegment → Bool
is_ack seg = seg.header.cmd == ikcp_cmd_ack

unfoldable pub is_probe : KcpSegment → Bool
is_probe seg = seg.header.cmd == ikcp_cmd_wask || seg.header.cmd == ikcp_cmd_wins

-- The draws of the seeded hasher are the list; the loop takes the first that is not 0 as a `u32`.
unfoldable pub random_conv_id : List ℕ → Option ℕ
random_conv_id [] = none
random_conv_id (draw ∷ draws) = if u32 draw == 0 then random_conv_id draws else some (u32 draw)

pub record KcpStats : Type 0 where
  pub bytes_sent : ℕ
  pub bytes_received : ℕ
  pub packets_sent : ℕ
  pub packets_received : ℕ
  pub retransmissions : ℕ
  pub fast_retransmissions : ℕ
  pub rtt : ℕ
  pub rtt_var : ℕ
  pub rto : ℕ
  pub snd_wnd : ℕ
  pub rcv_wnd : ℕ
  pub cwnd : ℕ
  pub snd_buf_size : ℕ
  pub rcv_buf_size : ℕ

-- `KcpStats::default`
abbrev pub default_stats : KcpStats
default_stats = record {
  bytes_sent = 0;
  bytes_received = 0;
  packets_sent = 0;
  packets_received = 0;
  retransmissions = 0;
  fast_retransmissions = 0;
  rtt = 0;
  rtt_var = 0;
  rto = 0;
  snd_wnd = 0;
  rcv_wnd = 0;
  cwnd = 0;
  snd_buf_size = 0;
  rcv_buf_size = 0;
}
