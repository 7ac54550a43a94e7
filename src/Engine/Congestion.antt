-- ===== src/Engine/Congestion.antt =====
-- kcp-core/src/engine.rs: the congestion window.
pub mod Bounds
use rust_kcp.Base.{ℕ, ◌/◌, Bool, true, false, length, max}
use rust_kcp.Base.{ltb, leb, ◌&&◌, if◌then◌else◌, add32, sub32, mul32, div_ceil, u32}
use rust_kcp.Protocol.Seq.{seq_after}
use rust_kcp.Protocol.Constants.{ikcp_thresh_min}
use rust_kcp.Engine.{KcpEngine, WindowState, mss}

unfoldable pub reset_cwnd : KcpEngine → KcpEngine
reset_cwnd e = let wnd = e.wnd in record e { wnd = record wnd { cwnd = 1; incr = mss e } }

-- The branch `if change`
unfoldable pub on_change : Bool → ℕ → KcpEngine → KcpEngine
on_change false resend e = e
on_change true resend e =
    let wnd = e.wnd in
    let ssthresh = max (sub32 e.snd_nxt e.snd_una / 2) ikcp_thresh_min in
    let cwnd = add32 ssthresh resend in
    record e { wnd = record wnd { ssthresh = ssthresh; cwnd = cwnd; incr = mul32 cwnd (mss e) } }

-- The branch `if lost`
unfoldable pub on_lost : Bool → KcpEngine → KcpEngine
on_lost false e = e
on_lost true e =
    let wnd = e.wnd in
    reset_cwnd (record e { wnd = record wnd { ssthresh = max (wnd.cwnd / 2) ikcp_thresh_min } })

unfoldable pub update_congestion_on_loss : Bool → Bool → ℕ → KcpEngine → KcpEngine
unfolding on_change on_lost reset_cwnd
update_congestion_on_loss lost change resend e =
    let e' = on_lost lost (on_change change resend e) in
    if ltb e'.wnd.cwnd 1 then reset_cwnd e' else e'

-- Slow start, then congestion avoidance
unfoldable pub grow : ℕ → WindowState → WindowState
grow mss wnd =
    if ltb wnd.cwnd wnd.ssthresh
    then record wnd { cwnd = add32 wnd.cwnd 1; incr = add32 wnd.incr mss }
    else (let base = if ltb wnd.incr mss then mss else wnd.incr in
        let incr = add32 base (add32 (mul32 mss mss / base) (mss / 16)) in
        if leb (mul32 (add32 wnd.cwnd 1) mss) incr
        then record wnd { cwnd = if ltb 0 mss then div_ceil incr mss else 1; incr = incr }
        else record wnd { incr = incr })

unfoldable pub cap_by_remote : ℕ → WindowState → WindowState
cap_by_remote mss wnd =
    if ltb wnd.rmt wnd.cwnd then record wnd { cwnd = wnd.rmt; incr = mul32 wnd.rmt mss } else wnd

unfoldable pub update_cwnd : ℕ → KcpEngine → KcpEngine
unfolding grow cap_by_remote
update_cwnd prev_una e =
    if seq_after e.snd_una prev_una && ltb e.wnd.cwnd e.wnd.rmt
    then record e { wnd = cap_by_remote (mss e) (grow (mss e) e.wnd) }
    else e

unfoldable pub update_congestion_control : KcpEngine → KcpEngine
update_congestion_control e =
    let stats = e.stats in
    record e {
      stats = record stats {
        snd_wnd = e.wnd.snd;
        rcv_wnd = e.wnd.rcv;
        cwnd = e.wnd.cwnd;
        snd_buf_size = u32 (length e.snd_buf);
        rcv_buf_size = u32 (length e.rcv_buf);
      };
    }
