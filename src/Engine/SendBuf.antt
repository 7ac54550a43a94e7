-- ===== src/Engine/SendBuf.antt =====
-- kcp-core/src/engine.rs: `move_to_send_buf`, which numbers queued segments and puts them in flight.
pub mod Window
use rust_kcp.Base.{ℕ, min, true, false, List, [], ◌∷◌, ◌++◌, if◌then◌else◌, u16, add32, is_neg}
use rust_kcp.Protocol.{KcpSegment}
use rust_kcp.Protocol.Seq.{time_diff}
use rust_kcp.Protocol.Constants.{ikcp_cmd_push}
use rust_kcp.Engine.{KcpEngine, wnd_unused}

-- The window that limits the segments in flight
unfoldable pub send_window : KcpEngine → ℕ
send_window e =
    let cwnd = min e.wnd.snd e.wnd.rmt in
    if e.config.nodelay.no_congestion_control then cwnd else min e.wnd.cwnd cwnd

-- The fields that a segment gets when it goes in flight under the number `sn`
unfoldable pub launch : ℕ → KcpEngine → ℕ → KcpSegment → KcpSegment
launch current e sn seg =
    let h = seg.header in
    record seg {
      header = record h {
        conv = e.conv;
        cmd = ikcp_cmd_push;
        wnd = u16 (wnd_unused e);
        ts = current;
        sn = sn;
        una = e.rcv_nxt;
      };
      resendts = current;
      rto = e.rtt.rto;
      fastack = 0;
      xmit = 0;
    }

-- What the loop changes
pub record SendState : Type 0 where
  pub queue : List KcpSegment
  pub buf : List KcpSegment
  pub nxt : ℕ

-- The loop, over the queue; `limit` is `snd_una + cwnd`.
unfoldable pub launch_loop : ℕ → KcpEngine → ℕ → List KcpSegment → List KcpSegment → ℕ → SendState
unfolding launch
launch_loop current e limit [] buf nxt = record { queue = []; buf = buf; nxt = nxt }
launch_loop current e limit (seg ∷ queue) buf nxt = elim (is_neg (time_diff nxt limit)) [
  | true ↦ launch_loop current e limit queue (buf ++ launch current e nxt seg ∷ []) (add32 nxt 1)
  | false ↦ record { queue = seg ∷ queue; buf = buf; nxt = nxt }
]

unfoldable pub move_to_send_buf : ℕ → KcpEngine → KcpEngine
unfolding send_window launch_loop
move_to_send_buf current e =
    let s =
      launch_loop current e (add32 e.snd_una (send_window e)) e.snd_queue e.snd_buf e.snd_nxt in
    record e { snd_queue = s.queue; snd_buf = s.buf; snd_nxt = s.nxt }
