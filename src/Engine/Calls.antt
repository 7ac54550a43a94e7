-- ===== src/Engine/Calls.antt =====
-- Any sequence of calls of an engine (kcp-core/src/engine.rs): the size of what it puts out.
use rust_kcp.Base.{
  ℕ, ◌≤◌, ◌<◌, ◌^◌, refl, arith, max, List, [], ◌∷◌, ◌++◌, length, All, All-append, Bool-cases, inl,
  inr, leb, is_pos, nonneg_part, ltb, if◌then◌else◌, ◌-◌, subst,
}
use rust_kcp.Config.{KcpCoreConfig}
use rust_kcp.Protocol.{KcpSegment}
use rust_kcp.Protocol.Wire.{ByteCodec}
use rust_kcp.Engine.{KcpEngine, new, set_conv, drain_output}
use rust_kcp.Engine.Recv.{move_to_recv_queue, ask_tell, assemble, peek_size, deliver, recv}
use rust_kcp.Engine.Send.{send}
use rust_kcp.Engine.Send.Sized.{send-IsSized}
use rust_kcp.Engine.Input.{input}
use rust_kcp.Engine.Input.Sized.{SameOutput, SameOutput-IsSized, input-IsSized}
use rust_kcp.Engine.Flush.{flush, update, keep_alive_probe}
use rust_kcp.Engine.Flush.Packed.{IsSized, flush-IsSized}

deliver-SameOutput :
    (e : KcpEngine) (bytes : List ℕ) (queue : List KcpSegment)
    → SameOutput e (deliver e bytes queue).0
unfolding deliver move_to_recv_queue ask_tell
deliver-SameOutput e [] queue = (refl, refl, refl, refl, refl)
deliver-SameOutput e (b ∷ bs) queue = ground arith

pub recv-SameOutput : (e : KcpEngine) → SameOutput e (recv e).0
unfolding recv
recv-SameOutput e =
    let limit = nonneg_part (peek_size e.rcv_queue) in
    let taken = assemble limit [] e.rcv_queue in
    elim (Bool-cases (is_pos (peek_size e.rcv_queue))) [
      | inl t ↦ rw (t, recv) (deliver-SameOutput e taken.0 taken.1)
      | inr t ↦ rw (t, recv) (refl, refl, refl, refl, refl)
    ]

-- A call of the engine's driver, with the clock reading and the arguments
pub data Call : Type 0 where
  call_send : ℕ → List ℕ → Call
  call_recv : Call
  call_input : ℕ → List ℕ → Call
  call_flush : ℕ → Call
  call_update : ℕ → Call
  call_keep_alive : ℕ → Call
  call_set_conv : ℕ → Call

module _ (codec : ByteCodec) where
  unfoldable pub call : Call → KcpEngine → KcpEngine
  call (call_send now bytes) e = (send now bytes e).0
  call call_recv e = (recv e).0
  call (call_input now bytes) e = (input codec now bytes e).0
  call (call_flush now) e = (flush codec now e).0
  call (call_update now) e = (update codec now e).0
  call (call_keep_alive now) e = (keep_alive_probe codec now e).0
  call (call_set_conv conv) e = set_conv conv e

  -- The datagrams that the driver takes off the engine, when it drains it after each call
  unfoldable pub drained : List Call → KcpEngine → List (List ℕ)
  drained [] e = []
  drained (c ∷ calls) e = let (e', out) = drain_output (call c e) in out ++ drained calls e'

  update-IsSized :
      {mtu : ℕ} (now : ℕ) (e : KcpEngine) → IsSized mtu e → IsSized mtu (update codec now e).0
  unfolding update
  update-IsSized now e v =
      let last = if ltb now e.last_update then now else e.last_update in
      elim (Bool-cases (leb e.config.nodelay.interval (now - last))) [
        | inl t ↦
            rw t
              (flush-IsSized codec now _ (SameOutput-IsSized e _ (refl, refl, refl, refl, refl) v))
        | inr t ↦ rw t (SameOutput-IsSized e _ (refl, refl, refl, refl, refl) v)
      ]

  pub call-IsSized : {mtu : ℕ} (c : Call) (e : KcpEngine) → IsSized mtu e → IsSized mtu (call c e)
  unfolding call set_conv keep_alive_probe
  call-IsSized (call_send now bytes) e v = send-IsSized now bytes e v
  call-IsSized call_recv e v = SameOutput-IsSized e _ (recv-SameOutput e) v
  call-IsSized (call_input now bytes) e v = input-IsSized codec now bytes e v
  call-IsSized (call_flush now) e v = flush-IsSized codec now e v
  call-IsSized (call_update now) e v = update-IsSized now e v
  call-IsSized (call_keep_alive now) e v =
      flush-IsSized codec now _ (SameOutput-IsSized e _ (refl, refl, refl, refl, refl) v)
  call-IsSized (call_set_conv conv) e v = SameOutput-IsSized e _ (refl, refl, refl, refl, refl) v

  pub after_drain-IsSized :
      {mtu : ℕ} (e : KcpEngine) → IsSized mtu e → IsSized mtu (drain_output e).0
  unfolding drain_output
  after_drain-IsSized e v = record {
    is_mtu = v.is_mtu;
    roomy = v.roomy;
    small = v.small;
    queue_fits = v.queue_fits;
    buf_fits = v.buf_fits;
    packed = record { queued = tt; pending = v.packed.pending };
  }

  drained_within :
      {mtu : ℕ} (calls : List Call) (e : KcpEngine)
      → IsSized mtu e
      → All (λ d. length d ≤ mtu) (drained calls e)
  unfolding drained drain_output
  drained_within [] e v = tt
  drained_within (c ∷ calls) e v =
      let w = call-IsSized c e v in
      All-append _ (call c e).output_queue _
        (subst (λ n. All (λ d. length d ≤ n) (call c e).output_queue) w.is_mtu w.packed.queued)
        (drained_within calls _ (after_drain-IsSized (call c e) w))

  pub new-IsSized :
      (now conv : ℕ) (config : KcpCoreConfig)
      → config.mtu < 2 ^ 32
      → IsSized (max config.mtu 25) (new now conv config)
  unfolding new
  new-IsSized now conv config h = record {
    is_mtu = refl;
    roomy = omega arith;
    small = omega arith;
    queue_fits = tt;
    buf_fits = tt;
    packed = record { queued = tt; pending = omega arith };
  }

  -- Whatever calls are made of a new engine with a 32-bit MTU, with whatever arguments and clock
  -- readings, and whatever datagrams it is given: no datagram that the driver drains after a call
  -- is longer than the MTU, or than 25 bytes where that is less.
  pub drained_bounds :
      (calls : List Call) (now conv : ℕ) (config : KcpCoreConfig)
      → config.mtu < 2 ^ 32
      → All (λ d. length d ≤ max config.mtu 25) (drained calls (new now conv config))
  drained_bounds calls now conv config h = drained_within calls _ (new-IsSized now conv config h)
