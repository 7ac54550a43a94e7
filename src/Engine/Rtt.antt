-- ===== src/Engine/Rtt.antt =====
-- kcp-core/src/engine.rs: `update_ack`, the estimators of the round trip and the timeout.
pub mod Bounds
use rust_kcp.Base.{ℕ, ◌/◌, Bool, true, min, max}
use rust_kcp.Base.{ltb, ◌==◌, if◌then◌else◌, add32, sub32, mul32, ℤ, pos, negsuc, signed32}
use rust_kcp.Base.{nonneg_part}
use rust_kcp.Protocol.Constants.{ikcp_rto_max}
use rust_kcp.Engine.{KcpEngine, RttState}

-- `rtt.clamp(0, IKCP_RTO_MAX as i32)`
unfoldable pub clamp_sample : ℤ → ℕ
clamp_sample rtt = min (nonneg_part rtt) ikcp_rto_max

-- `rtt > avg as i32`, for an `rtt` that is not negative
unfoldable pub exceeds : ℕ → ℤ → Bool
exceeds rtt (pos avg) = ltb avg rtt
exceeds rtt (negsuc avg) = true

-- `delta as u32`: the difference of two `i32`s has the bit pattern of the wrapped difference.
unfoldable pub deviation : ℕ → ℕ → ℕ
unfolding exceeds
deviation rtt avg = if exceeds rtt (signed32 avg) then sub32 rtt avg else sub32 avg rtt

-- The new average and variance
unfoldable pub smooth : ℕ → RttState → RttState
unfolding deviation
smooth rtt s =
    if s.avg == 0
    then record s { avg = rtt; var = rtt / 2 }
    else (let var = add32 (mul32 3 s.var) (deviation rtt s.avg) / 4 in
        let avg = add32 (mul32 7 s.avg) rtt / 8 in
        record s { avg = if ltb avg 1 then 1 else avg; var = var })

-- `rto.clamp(min_rto, IKCP_RTO_MAX)`
unfoldable pub clamp_rto : ℕ → ℕ → ℕ
clamp_rto min_rto rto =
    if ltb rto min_rto then min_rto else if ltb ikcp_rto_max rto then ikcp_rto_max else rto

unfoldable pub set_rto : ℕ → RttState → RttState
unfolding clamp_rto
set_rto interval s = record s {
  rto = clamp_rto s.min_rto (add32 s.avg (max interval (mul32 4 s.var)));
}

unfoldable pub update_ack : ℤ → KcpEngine → KcpEngine
unfolding clamp_sample smooth set_rto
update_ack rtt e =
    let s = set_rto e.config.nodelay.interval (smooth (clamp_sample rtt) e.rtt) in
    let stats = e.stats in
    record e { rtt = s; stats = record stats { rtt = s.avg; rtt_var = s.var; rto = s.rto } }
