-- ===== src/Engine/Congestion/Bounds.antt =====
-- Bounds of the congestion window (kcp-core/src/engine.rs).
use rust_kcp.Base.{ℕ, ◌+◌, ◌-◌, ◌≤◌, ◌<◌, ◌^◌, ◌≡◌, arith, max, Bool, true, false}
use rust_kcp.Protocol.Seq.{seq_after}
use rust_kcp.Protocol.Constants.{ikcp_thresh_min}
use rust_kcp.Engine.{KcpEngine, WindowState, mss}
use rust_kcp.Engine.Congestion.{update_congestion_on_loss, grow, update_cwnd}

-- After every round of sending the congestion window is open by one segment at least; a loss
-- closes it to one, with a threshold of at least two; without loss and without fast resends an
-- open window stays as it is.
pub update_congestion_on_loss_lem :
    (lost change : Bool) (resend : ℕ) (e : KcpEngine)
    → let w = (update_congestion_on_loss lost change resend e).wnd in
      (1 ≤ w.cwnd)
      × (lost ≡ true → (w.cwnd ≡ 1) × (w.incr ≡ mss e) × (ikcp_thresh_min ≤ w.ssthresh))
      × (change ≡ true → ikcp_thresh_min ≤ w.ssthresh)
      × (lost ≡ false → change ≡ false → 1 ≤ e.wnd.cwnd → w ≡ e.wnd)
      × (w.rmt ≡ e.wnd.rmt)
unfolding update_congestion_on_loss mss
update_congestion_on_loss_lem lost change resend e = ground arith

grow_bounds : (m : ℕ) (w : WindowState) → (grow m w).rmt ≡ w.rmt
unfolding grow
grow_bounds m w = ground arith

-- A congestion window below 2 ^ 32 - 1 grows only when the packet moved snd_una forward and the
-- window is smaller than the remote one, never past the remote window; in slow start it grows by
-- one segment.
pub update_cwnd_lem :
    (prev_una : ℕ) (e : KcpEngine)
    → e.wnd.cwnd < 2 ^ 32 - 1
    → let w = (update_cwnd prev_una e).wnd in
      (seq_after e.snd_una prev_una ≡ false → w ≡ e.wnd)
      × (e.wnd.rmt ≤ e.wnd.cwnd → w ≡ e.wnd)
      × (w.cwnd ≤ max e.wnd.cwnd e.wnd.rmt)
      × (seq_after e.snd_una prev_una ≡ true
          → e.wnd.cwnd < e.wnd.rmt
          → e.wnd.cwnd < e.wnd.ssthresh
          → w.cwnd ≡ e.wnd.cwnd + 1)
unfolding update_cwnd
update_cwnd_lem prev_una e h = ground arith
