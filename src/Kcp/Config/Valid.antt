-- ===== src/Kcp/Config/Valid.antt =====
-- What a validated configuration (kcp/config.rs) guarantees the engine (kcp-core/src/engine.rs).
use rust_kcp.Base.{
  ℕ, ◌+◌, ◌≤◌, ◌^◌, ◌≡◌, refl, arith, max, List, [], Bool, true, false, ltb, ◌==◌, ◌||◌,
  if◌then◌else◌, ap, ◌⊎◌, inl, inr, subst, length, All,
}
use rust_kcp.Engine.{new, mss}
use rust_kcp.Engine.Recv.{recv_state}
use rust_kcp.Protocol.Wire.{ByteCodec}
use rust_kcp.Engine.Calls.{Call, drained, drained_bounds}
use rust_kcp.Engine.Delivery.Session.{
  Event, Session, AllAdmissible, IsFaithful, run, run-IsFaithful,
}
use rust_kcp.Engine.Ack.InFlight.{IsSending}
use rust_kcp.Engine.SendBuf.{send_window}
use rust_kcp.Engine.Flush.Packed.{IsSized}
use rust_kcp.Engine.Rtt.Bounds.{IsEstimate}
use rust_kcp.Kcp.Error.{
  Result, ok, err, KcpMessage, config, mtu_range, windows_zero, windows_large, interval_zero,
  retries_zero,
}
use rust_kcp.Kcp.Config.{KcpConfig, to_core, validate}

-- What `validate` asks for
pub record IsValid (c : KcpConfig) : Type 0 where
  pub mtu_from : 64 ≤ c.mtu
  pub mtu_to : c.mtu ≤ 65535
  pub snd_from : 1 ≤ c.snd_wnd
  pub snd_to : c.snd_wnd ≤ 65535
  pub rcv_from : 1 ≤ c.rcv_wnd
  pub rcv_to : c.rcv_wnd ≤ 65535
  pub interval_from : 1 ≤ c.nodelay.interval
  pub retries_from : 1 ≤ c.max_retries

-- Whatever its five tests say, `validate` has one of two kinds of results.
refused :
    (a b c d f : Bool)
    → let r : Result (Unit {0}) =
        if a
        then err (config mtu_range)
        else if b
        then err (config windows_zero)
        else if c
        then err (config windows_large)
        else if d
        then err (config interval_zero)
        else if f
        then err (config retries_zero)
        else ok tt in
      (r ≡ ok tt) ⊎ ((m : KcpMessage) × (r ≡ err (config m)))
refused true b c d f = inr (mtu_range, refl)
refused false true c d f = inr (windows_zero, refl)
refused false false true d f = inr (windows_large, refl)
refused false false false true f = inr (interval_zero, refl)
refused false false false false true = inr (retries_zero, refl)
refused false false false false false = inl refl

-- `validate` accepts exactly the configurations with an MTU from 64 to 65535, both windows from 1
-- to 65535, and an update interval and a retry limit of at least 1; it refuses any other with a
-- configuration error.
pub validate-IsValid :
    (c : KcpConfig)
    → (IsValid c → validate c ≡ ok tt)
      × (validate c ≡ ok tt → IsValid c)
      × ((validate c ≡ ok tt) ⊎ ((m : KcpMessage) × (validate c ≡ err (config m))))
unfolding validate
validate-IsValid c = (
  λ v. ground (
    arith, v.mtu_from, v.mtu_to, v.snd_from, v.snd_to, v.rcv_from, v.rcv_to, v.interval_from,
    v.retries_from,
  ),
  λ h. ground arith,
  refused (ltb c.mtu 64 || ltb 65535 c.mtu) ((c.snd_wnd == 0) || (c.rcv_wnd == 0))
      (ltb 65535 c.snd_wnd || ltb 65535 c.rcv_wnd) (c.nodelay.interval == 0) (c.max_retries == 0),
)

-- The start of a session
abbrev pub session_of : ℕ → ℕ → KcpConfig → Session
session_of now conv c = record { position = 0; engine = new now conv (to_core c); got = [] }

-- A new engine from a valid session configuration keeps the MTU that was asked for and has room
-- for data in it, and it meets the conditions under which the theorems on the engine hold: on the
-- sizes of its segments, its send side and send window, its estimators, and its receive side.
pub new-valid :
    (now conv : ℕ) (c : KcpConfig) (src : ℕ → List ℕ)
    → IsValid c
    → let e = new now conv (to_core c) in
      (e.config ≡ to_core c)
      × (mss e + 24 ≡ c.mtu)
      × IsSized c.mtu e
      × IsSending 0 0 e
      × (send_window e ≤ 2 ^ 30)
      × IsEstimate e.rtt
      × IsFaithful src (session_of now conv c)
unfolding new to_core mss send_window recv_state
new-valid now conv c src v =
    let z : max c.mtu 25 ≡ c.mtu = omega (arith, v.mtu_from) in
    (
      ap (λ n. record (to_core c) { mtu = n }) z,
      omega (arith, v.mtu_from, v.mtu_to),
      record {
        is_mtu = z;
        roomy = omega arith;
        small = omega (arith, v.mtu_to);
        queue_fits = tt;
        buf_fits = tt;
        packed = record { queued = tt; pending = omega arith };
      },
      record {
        oldest = refl;
        next = refl;
        ordered = omega arith;
        span = omega arith;
        numbered = tt;
      },
      ground (arith, v.snd_to),
      record { avg_small = omega arith; var_small = omega arith; min_small = ground arith },
      record {
        window = omega (arith, v.rcv_to);
        receiving = record { expects = refl; ascending = tt; holds = tt };
        prefix = refl;
      },
    )

-- An engine made from a configuration that validate accepts, from its start: whatever calls are
-- made of it, with whatever arguments, clock readings and datagrams, no datagram that its driver
-- drains is longer than the MTU that was asked for; and over any network that delivers well-formed
-- segments of a peer's stream, in any order, lost or repeated, but none as far as 2 ^ 31 numbers
-- from the window, what its application reads is a prefix of that stream, with no gap and nothing
-- twice.
pub validated_engine :
    (codec : ByteCodec) (calls : List Call) (now conv : ℕ) (c : KcpConfig) (src : ℕ → List ℕ)
    (evs : List Event)
    → validate c ≡ ok tt
    → AllAdmissible codec src evs (session_of now conv c)
    → All (λ d. length d ≤ c.mtu) (drained codec calls (new now conv (to_core c)))
      × IsFaithful src (run codec evs (session_of now conv c))
unfolding to_core
validated_engine codec calls now conv c src evs h a =
    let v = (validate-IsValid c).1 h in
    let z : max c.mtu 25 ≡ c.mtu = omega (arith, v.mtu_from) in
    (
      subst (λ n. All (λ d. length d ≤ n) (drained codec calls (new now conv (to_core c)))) z
          (drained_bounds codec calls now conv (to_core c) (omega (arith, v.mtu_to))),
      run-IsFaithful src codec evs (session_of now conv c) (new-valid now conv c src v).6 a,
    )
