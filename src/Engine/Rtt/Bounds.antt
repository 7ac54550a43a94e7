-- ===== src/Engine/Rtt/Bounds.antt =====
-- Bounds of the round-trip estimators (`update_ack` of kcp-core/src/engine.rs).
use rust_kcp.Base.{ℕ, ◌+◌, ◌*◌, ◌≤◌, ◌<◌, ◌≡◌, ◌≢◌, arith, max, min, ℤ, ◌^◌, ◌/◌}
use rust_kcp.Protocol.Constants.{ikcp_rto_max}
use rust_kcp.Engine.{KcpEngine, RttState}
use rust_kcp.Engine.Rtt.{clamp_sample, deviation, smooth, clamp_rto, set_rto, update_ack}

-- The estimators stay below the largest timeout, and the timeout between its limits.
pub record IsEstimate (s : RttState) : Type 0 where
  pub avg_small : s.avg ≤ ikcp_rto_max
  pub var_small : s.var ≤ ikcp_rto_max
  pub min_small : s.min_rto ≤ ikcp_rto_max

pub clamp_sample-le : (rtt : ℤ) → clamp_sample rtt ≤ ikcp_rto_max
unfolding clamp_sample
clamp_sample-le rtt = omega arith

-- The absolute difference, with no wrap
pub deviation_lem :
    (rtt avg : ℕ)
    → rtt ≤ ikcp_rto_max
    → avg ≤ ikcp_rto_max
    → (deviation rtt avg + min rtt avg ≡ max rtt avg)
unfolding deviation
deviation_lem rtt avg h k = ground arith

smooth_exact :
    (rtt : ℕ) (s : RttState)
    → rtt ≤ ikcp_rto_max
    → IsEstimate s
    → s.avg ≢ 0
    → ((smooth rtt s).var ≡ (3 * s.var + deviation rtt s.avg) / 4)
      × ((smooth rtt s).avg ≡ max 1 ((7 * s.avg + rtt) / 8))
unfolding smooth
smooth_exact rtt s h v ne = ground (arith, deviation_lem rtt s.avg)

smooth-IsEstimate :
    (rtt : ℕ) (s : RttState) → rtt ≤ ikcp_rto_max → IsEstimate s → IsEstimate (smooth rtt s)
unfolding smooth
smooth-IsEstimate rtt s h v = ground (arith, deviation_lem rtt s.avg)

pub clamp_rto_bounds :
    (lo rto : ℕ) → lo ≤ ikcp_rto_max → (lo ≤ clamp_rto lo rto) × (clamp_rto lo rto ≤ ikcp_rto_max)
unfolding clamp_rto
clamp_rto_bounds lo rto h = ground arith

set_rto_lem :
    (interval : ℕ) (s : RttState)
    → interval < 2 ^ 31
    → IsEstimate s
    → let q = set_rto interval s in
      IsEstimate q
      × (q.rto ≡ min ikcp_rto_max (max s.min_rto (s.avg + max interval (4 * s.var))))
      × (q.avg ≡ s.avg)
      × (q.var ≡ s.var)
      × (q.min_rto ≡ s.min_rto)
unfolding set_rto
set_rto_lem interval s h v = ground arith

min_rto-smooth : (rtt : ℕ) (s : RttState) → (smooth rtt s).min_rto ≡ s.min_rto
unfolding smooth
min_rto-smooth rtt s = ground arith

-- Whatever sample a peer provokes, for an interval of less than 2 ^ 31 ms, the estimators stay
-- bounded, so that none of the sums of update_ack wraps: the timeout is the average plus the
-- larger of the interval and four times the variance, within the least timeout and 60 seconds.
pub update_ack_bounds :
    (rtt : ℤ) (e : KcpEngine)
    → IsEstimate e.rtt
    → e.config.nodelay.interval < 2 ^ 31
    → let s = (update_ack rtt e).rtt in
      IsEstimate s
      × (s.rto
          ≡ min ikcp_rto_max (max s.min_rto (s.avg + max e.config.nodelay.interval (4 * s.var))))
      × (s.min_rto ≡ e.rtt.min_rto)
      × (s.min_rto ≤ s.rto)
      × (s.rto ≤ ikcp_rto_max)
unfolding update_ack
update_ack_bounds rtt e v h =
    let n = clamp_sample rtt in
    let w = smooth-IsEstimate n e.rtt (clamp_sample-le rtt) v in
    let s = set_rto_lem e.config.nodelay.interval (smooth n e.rtt) h w in
    ground (arith, s, w, min_rto-smooth n e.rtt)
