-- ===== src/Kcp/Actor/Wire.antt =====
-- kcp/actor.rs: what `flush_output` hands to the transport.
use rust_kcp.Base.{
  ℕ, ◌≤◌, ◌≡◌, refl, List, [], ◌∷◌, ◌++◌, length, All, All-append, Option, none, some, Bool, true,
  false, if◌then◌else◌, subst,
}
use rust_kcp.Protocol.Wire.{ByteCodec}
use rust_kcp.Engine.{KcpEngine, drain_output}
use rust_kcp.Engine.Calls.{
  call, call-IsSized, call_send, call_recv, call_input, call_update, after_drain-IsSized,
  call_flush, call_keep_alive,
}
use rust_kcp.Engine.Flush.Packed.{IsSized}
use rust_kcp.Kcp.Loss.{below, random_unit}
use rust_kcp.Kcp.Actor.{
  Settings, Clock, Actor, Turn, goes_on, breaks, Event, timer, command, packet, data_sent, transmit,
  flush_output,
}
use rust_kcp.Kcp.Actor.Induction.Steps.{Reach-keeps}
use rust_kcp.Kcp.Actor.Induction.{Ends, Kept, Comes, Comes-Takes, Reach}

abbrev pub Within : ℕ → List (List ℕ) → Type 0
Within mtu = All (λ d. length d ≤ mtu)

abbrev Fitting : ℕ → Actor → Type 0
Fitting mtu a = IsSized mtu a.engine × Within mtu a.wire

-- No condition on what comes in
abbrev pub Anything : Clock → Event → Actor → Type 0
Anything t ev a = Unit

-- The fields that a step of the output leaves
abbrev pub SameControl : Actor → Actor → Type 0
SameControl a b =
    (b.last_probe ≡ a.last_probe)
    × (b.send_closed ≡ a.send_closed)
    × (b.closing ≡ a.closing)
    × (b.close_deadline ≡ a.close_deadline)

module _ (codec : ByteCodec) (hash : ℕ → ℕ) (s : Settings) where
  pub transmit_leaves :
      (loss : Option ℕ) (bufs : List (List ℕ)) (a : Actor)
      → let b = transmit codec hash s loss bufs a in (b.engine ≡ a.engine) × SameControl a b
  unfolding transmit
  transmit_leaves loss [] a = (refl, (refl, refl, refl, refl))
  transmit_leaves none (buf ∷ bufs) a = transmit_leaves none bufs _
  transmit_leaves (some p) (buf ∷ bufs) a = transmit_leaves (some p) bufs _

  transmit-Within :
      (mtu : ℕ) (loss : Option ℕ) (bufs : List (List ℕ)) (a : Actor)
      → Within mtu bufs
      → Fitting mtu a
      → Fitting mtu (transmit codec hash s loss bufs a)
  unfolding transmit
  transmit-Within mtu loss [] a f p = p
  transmit-Within mtu none (buf ∷ bufs) a f (v, w) =
      transmit-Within mtu none bufs _ f.1 (v, All-append _ a.wire (buf ∷ []) w (f.0, tt))
  transmit-Within mtu (some p) (buf ∷ bufs) a f (v, w) =
      transmit-Within mtu (some p) bufs _ f.1 (v, kept (below (random_unit (hash a.drawn)) p))
    where
      kept : (b : Bool) → Within mtu (if b then a.wire else a.wire ++ buf ∷ [])
      kept true = w
      kept false = All-append _ a.wire (buf ∷ []) w (f.0, tt)

  flush_output-Fitting :
      (mtu : ℕ) (a : Actor) → Fitting mtu a → Fitting mtu (flush_output codec hash s a)
  unfolding flush_output drain_output
  flush_output-Fitting mtu a (v, w) =
      transmit-Within mtu s.simulate_loss a.engine.output_queue _
        (subst (λ n. Within n a.engine.output_queue) v.is_mtu v.packed.queued)
        (unfold drain_output in after_drain-IsSized codec a.engine v, w)

  Fitting-Kept : (mtu : ℕ) → Kept codec hash s (Fitting mtu)
  unfolding call
  Fitting-Kept mtu = record {
    flushes = λ now a p. (call-IsSized codec (call_flush now) a.engine p.0, p.1);
    probes = λ now a p. (call-IsSized codec (call_keep_alive now) a.engine p.0, p.1);
    reads = λ a p. (call-IsSized codec call_recv a.engine p.0, p.1);
    drains = flush_output-Fitting mtu;
    marks = λ probe rs a p. p;
    shuts = λ a p. p;
  }

  Comes-any :
      (mtu : ℕ) (t : Clock) (ev : Event) (a : Actor)
      → Fitting mtu a
      → Comes codec hash s (Fitting mtu) t ev a
  unfolding call
  Comes-any mtu t (timer room) a p = tt
  Comes-any mtu t (command c queued) a p = tt
  Comes-any mtu t (packet none room) a p = tt
  Comes-any mtu t (packet (some bytes) room) a p =
      (call-IsSized codec (call_input (t.stamp 0) bytes) a.engine p.0, p.1)
  Comes-any mtu t (data_sent bytes queued) a p = tt

  pub wire_bounds :
      {mtu n : ℕ} {e : KcpEngine} {x : Turn}
      → IsSized mtu e
      → Reach codec hash s Anything n e x
      → Ends (λ a. Within mtu a.wire) x
  unfolding call
  wire_bounds {mtu} {n} {e} {x} v r = Ends_map x (
      Reach-keeps codec hash s (Fitting mtu) (Fitting-Kept mtu) Anything
        (λ t ev a on u p.
          Comes-Takes codec hash s (Fitting mtu)
            (λ now m b q. (call-IsSized codec (call_send now m) b.engine q.0, q.1)) (λ d b q. q) t
            ev a p (Comes-any mtu t ev a p))
        (λ t. (call-IsSized codec (call_update (t.stamp 0)) e v, tt)) r)
    where
      Ends_map : (y : Turn) → Ends (Fitting mtu) y → Ends (λ a. Within mtu a.wire) y
      Ends_map (goes_on a) p = p.1
      Ends_map (breaks a) p = p.1
