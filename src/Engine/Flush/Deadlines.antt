-- ===== src/Engine/Flush/Deadlines.antt =====
-- `check` and `update` (kcp-core/src/engine.rs): when the engine next needs a flush.
use rust_kcp.Base.{
  ℕ, ◌+◌, ◌-◌, ◌≤◌, ◌<◌, ◌^◌, ◌≡◌, ◌≢◌, refl, ap, arith, min, List, [], ◌∷◌, All, ◌⊎◌, nonneg_part,
  u32_max, ge→ltb, lt→ltb, u32, pos, le→leb, gt→leb,
}
use rust_kcp.Error.{ok}
use rust_kcp.Protocol.{KcpSegment}
use rust_kcp.Protocol.Seq.{time_diff}
use rust_kcp.Protocol.Wire.{ByteCodec}
use rust_kcp.Engine.{KcpEngine, idle_ms}
use rust_kcp.Engine.Flush.{soonest, check, update, flush}

-- The time from `current` until a deadline, 0 when it has passed
abbrev pub wait_for : ℕ → ℕ → ℕ
wait_for current deadline = nonneg_part (time_diff deadline current)

soonest-le : (current : ℕ) (segs : List KcpSegment) (next : ℕ) → soonest current segs next ≤ next
unfolding soonest
soonest-le current [] next = omega arith
soonest-le current (seg ∷ segs) next =
    omega (arith, soonest-le current segs (min next (wait_for current seg.resendts)))

soonest-all :
    (current : ℕ) (segs : List KcpSegment) (next : ℕ)
    → All (λ seg. soonest current segs next ≤ wait_for current seg.resendts) segs
unfolding soonest
soonest-all current [] next = tt
soonest-all current (seg ∷ segs) next =
    let n = min next (wait_for current seg.resendts) in
    (omega (arith, soonest-le current segs n), soonest-all current segs n)

wait_for-lt : (current deadline : ℕ) → wait_for current deadline < 2 ^ 31
unfolding time_diff
wait_for-lt current deadline = ground arith

All-le-min :
    (f : KcpSegment → ℕ) (a b : ℕ) (segs : List KcpSegment)
    → b ≤ a
    → All (λ s. a ≤ f s) segs
    → All (λ s. b ≤ f s) segs
All-le-min f a b [] h p = tt
All-le-min f a b (x ∷ xs) h p = (omega arith, All-le-min f a b xs h p.1)

soonest_nil :
    (current : ℕ) (segs : List KcpSegment) → segs ≡ [] → soonest current segs u32_max ≡ u32_max
unfolding soonest
soonest_nil current [] h = refl
soonest_nil current (x ∷ xs) h = absurd (cc)

check-le-soonest :
    (current : ℕ) (e : KcpEngine)
    → soonest current e.snd_buf u32_max < u32_max
    → check current e ≤ soonest current e.snd_buf u32_max
unfolding check
check-le-soonest current e h = ground arith

check_segments :
    (current : ℕ) (e : KcpEngine) (segs : List KcpSegment)
    → e.snd_buf ≡ segs
    → All (λ seg. check current e ≤ wait_for current seg.resendts) segs
check_segments current e [] q = tt
check_segments current e (x ∷ xs) q =
    let all = soonest-all current (x ∷ xs) u32_max in
    let same = ap (λ segs. soonest current segs u32_max) q in
    let le = check-le-soonest current e (omega (arith, wait_for-lt current x.resendts, all.0)) in
    All-le-min (λ s. wait_for current s.resendts) (soonest current (x ∷ xs) u32_max) _ (x ∷ xs)
      (omega arith) all

-- `check` is 0 when an acknowledgement or a probe is to be sent, at most the time to each
-- segment's retransmission, at most the time to the next window probe when the remote window is
-- closed and a probe is scheduled, and 30 seconds with nothing scheduled.
pub check_bounds :
    (current : ℕ) (e : KcpEngine)
    → ((e.ack_list ≢ []) ⊎ (e.probe.flags ≢ 0) → check current e ≡ 0)
      × All (λ seg. check current e ≤ wait_for current seg.resendts) e.snd_buf
      × (e.wnd.rmt ≡ 0 → e.probe.ts ≢ 0 → check current e ≤ wait_for current e.probe.ts)
      × (e.ack_list ≡ []
          → e.probe.flags ≡ 0
          → e.snd_buf ≡ []
          → (e.wnd.rmt ≢ 0) ⊎ (e.probe.ts ≡ 0)
          → check current e ≡ 30000)
unfolding check
check_bounds current e =
    let le = soonest-le current e.snd_buf u32_max in
    (
      λ h. ground arith,
      check_segments current e e.snd_buf refl,
      λ h k. ground (arith, wait_for-lt current e.probe.ts),
      λ h k l o. ground (arith, soonest_nil current e.snd_buf l),
    )

-- `update` flushes exactly when the interval has passed since the last flush that it made; a clock
-- that has gone back restarts an interval of at least 1 ms at its reading; without a flush only
-- the time of the last update changes.
pub update_flushes :
    (codec : ByteCodec) (current : ℕ) (e : KcpEngine)
    → (e.last_update ≤ current
        → e.config.nodelay.interval ≤ current - e.last_update
        → update codec current e ≡ flush codec current (record e { last_update = current }))
      × (e.last_update ≤ current
          → current - e.last_update < e.config.nodelay.interval
          → update codec current e ≡ (e, ok tt))
      × (current < e.last_update
          → 0 < e.config.nodelay.interval
          → update codec current e ≡ (record e { last_update = current }, ok tt))
unfolding update
update_flushes codec current e = (
  λ h k. rw (ge→ltb current e.last_update h, le→leb _ _ k, update) refl,
  λ h k. rw (ge→ltb current e.last_update h, gt→leb _ _ k, update) refl,
  λ h k.
      rw
        (
          lt→ltb current e.last_update h,
          gt→leb e.config.nodelay.interval (current - current) (omega arith),
          update,
        )
        refl,
)

-- For less than 2 ^ 31 ms since the last activity, idle_ms is that time as long as the 32-bit
-- clock has not wrapped since; after a wrap it is 0, although the wrapped difference of time_diff
-- is that time.
pub idle_ms_wraps :
    (t d : ℕ) (e : KcpEngine)
    → e.last_activity ≡ u32 t
    → d < 2 ^ 31
    → (u32 t + d < 2 ^ 32 → idle_ms (u32 (t + d)) e ≡ d)
      × (2 ^ 32 ≤ u32 t + d
          → (idle_ms (u32 (t + d)) e ≡ 0) × (time_diff (u32 (t + d)) e.last_activity ≡ pos d))
unfolding idle_ms time_diff
idle_ms_wraps t d e h k = (λ l. omega arith, λ l. (omega arith, ground arith))
