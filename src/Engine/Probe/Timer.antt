-- ===== src/Engine/Probe/Timer.antt =====
-- The window-probe timer (kcp-core/src/engine.rs).
use rust_kcp.Base.{
  ℕ, ◌+◌, ◌/◌, ◌%◌, ◌^◌, bit_or, ◌≤◌, ◌≡◌, arith, ◌⊎◌, min, max, ◌≢◌, is_neg, true, false,
}
use rust_kcp.Protocol.Seq.{time_diff}
use rust_kcp.Protocol.Constants.{ikcp_probe_init, ikcp_probe_limit}
use rust_kcp.Engine.{ProbeState}
use rust_kcp.Engine.Probe.{back_off, schedule_probe}

-- The wait is 0, for no probing, or between 7 and 120 seconds.
abbrev pub IsWait : ℕ → Type 0
IsWait wait = (wait ≡ 0) ⊎ ((ikcp_probe_init ≤ wait) × (wait ≤ ikcp_probe_limit))

pub back_off_bounds :
    (wait : ℕ)
    → wait ≤ ikcp_probe_limit
    → (ikcp_probe_init ≤ back_off wait)
      × (back_off wait ≤ ikcp_probe_limit)
      × (min (max wait ikcp_probe_init) ikcp_probe_limit ≤ back_off wait)
unfolding back_off
back_off_bounds wait h = ground arith

-- The wait of the window probe is 0, for no probing, or between 7 and 120 seconds. An open remote
-- window stops the timer. A closed one starts it, with a deadline in 7 seconds and no request yet;
-- a running timer is left alone until its deadline; then a window request is raised, the wait gets
-- half as long again, 120 seconds at most, and the next deadline is that far off.
pub schedule_probe_lem :
    (current rmt : ℕ) (p : ProbeState)
    → IsWait p.wait
    → let q = schedule_probe current rmt p in
      IsWait q.wait
      × (rmt ≢ 0 → q ≡ record p { wait = 0; ts = 0 })
      × (rmt ≡ 0 → p.wait ≡ 0 → q ≡ record p { wait = 7000; ts = (current + 7000) % 2 ^ 32 })
      × (rmt ≡ 0 → p.wait ≢ 0 → is_neg (time_diff current p.ts) ≡ true → q ≡ p)
      × (rmt ≡ 0
          → p.wait ≢ 0
          → is_neg (time_diff current p.ts) ≡ false
          → (q.flags ≡ bit_or p.flags 1)
            × (q.wait ≡ min (p.wait + p.wait / 2) 120000)
            × (q.ts ≡ (current + q.wait) % 2 ^ 32))
unfolding schedule_probe back_off
schedule_probe_lem current rmt p v = ground arith
