-- ===== src/Kcp/Actor/Delivery.antt =====
-- kcp/actor.rs: what the actor forwards to the application, as a `Session` of the engine.
use rust_kcp.Base.{
  ℕ, ◌≤◌, ◌^◌, ◌≡◌, refl, ◌∙◌, sym, ap, subst, List, [], ◌∷◌, ◌++◌, append_assoc, append-nil,
  concat, Option, none, some, arith,
}
use rust_kcp.Error.{KcpCoreResult, ok, err}
use rust_kcp.Protocol.{KcpSegment}
use rust_kcp.Protocol.Wire.{ByteCodec}
use rust_kcp.Engine.Payloads.{payloads}
use rust_kcp.Engine.{KcpEngine, drain_output}
use rust_kcp.Engine.Recv.{recv, recv_state}
use rust_kcp.Engine.Send.{send, queue_fragments, count_sent}
use rust_kcp.Engine.Input.Parse.{datagram}
use rust_kcp.Engine.Input.Receiver.{SameReceiver}
use rust_kcp.Engine.Delivery.{bytes_read}
use rust_kcp.Engine.Delivery.Session.{
  Session, IsFaithful, step, step-IsFaithful, arrive, read, Admissible,
}
use rust_kcp.Engine.Flush.Leaves.{flush-Leaves, keep_alive_probe-Leaves, update-Leaves}
use rust_kcp.Kcp.Actor.{
  Settings, Clock, Actor, Turn, Event, timer, command, packet, data_sent, transmit, flush_output,
}
use rust_kcp.Kcp.Actor.Induction.Steps.{Reach-keeps}
use rust_kcp.Kcp.Actor.Induction.{Ends, Kept, Comes, Comes-Takes, Reach, after_read, messages}

-- What the application got of an actor, and the engine behind it
abbrev pub session : Actor → Session
session a = record { position = a.position; engine = a.engine; got = concat a.forwarded }

queue_fragments-SameReceiver :
    (now : ℕ) (bytes : List ℕ) (e : KcpEngine) → SameReceiver e (queue_fragments now bytes e).0
unfolding queue_fragments count_sent recv_state
queue_fragments-SameReceiver now bytes e = ground arith

send-SameReceiver : (now : ℕ) (m : List ℕ) (e : KcpEngine) → SameReceiver e (send now m e).0
unfolding send count_sent recv_state queue_fragments
send-SameReceiver now m e = ground arith

concat-snoc :
    (xs : List (List ℕ)) (r : KcpCoreResult (Option (List ℕ)))
    → concat (xs ++ messages r) ≡ concat xs ++ bytes_read r
concat-snoc [] (ok (some m)) = append-nil m
concat-snoc [] (ok none) = refl
concat-snoc [] (err x) = refl
concat-snoc (x ∷ xs) r =
    ap (◌++◌ x) (concat-snoc xs r) ∙ sym (append_assoc x (concat xs) (bytes_read r))

module _ (src : ℕ → List ℕ) where
  -- The session with another engine whose receive side is the same
  same_session :
      (n : ℕ) (got : List ℕ) (e e' : KcpEngine)
      → SameReceiver e e'
      → IsFaithful src (record { position = n; engine = e; got = got })
      → IsFaithful src (record { position = n; engine = e'; got = got })
  unfolding recv_state
  same_session n got e e' (q, w) f = record {
    window = subst (λ k. k ≤ 2 ^ 30) (sym w) f.window;
    receiving = rw (w, q) f.receiving;
    prefix = ap (λ st. got ++ payloads st.queue) q ∙ f.prefix;
  }

  abbrev Serving : Actor → Type 0
  Serving a = IsFaithful src (session a)

  module _ (codec : ByteCodec) (hash : ℕ → ℕ) (s : Settings) where
    transmit-Serving :
        (loss : Option ℕ) (bufs : List (List ℕ)) (a : Actor)
        → Serving a
        → Serving (transmit codec hash s loss bufs a)
    unfolding transmit
    transmit-Serving loss [] a p = p
    transmit-Serving none (buf ∷ bufs) a p = transmit-Serving none bufs _ p
    transmit-Serving (some q) (buf ∷ bufs) a p = transmit-Serving (some q) bufs _ p

    Serving-Kept : Kept codec hash s Serving
    unfolding flush_output drain_output step recv_state
    Serving-Kept = record {
      flushes = λ now a p.
          same_session a.position _ a.engine _ (flush-Leaves codec now a.engine).receiver p;
      probes = λ now a p.
          same_session a.position _ a.engine _ (keep_alive_probe-Leaves codec now a.engine).receiver
            p;
      reads = λ a p.
          subst
            (λ got. IsFaithful src (record {
              position = (after_read a).position;
              engine = (recv a.engine).0;
              got = got;
            }))
            (sym (concat-snoc a.forwarded (recv a.engine).1))
            (step-IsFaithful src codec read (session a) p tt);
      drains = λ a p.
          transmit-Serving s.simulate_loss a.engine.output_queue _
            (same_session a.position _ a.engine _ (refl, refl) p);
      marks = λ probe rs a p. p;
      shuts = λ a p. p;
    }

    -- The packets are datagrams of well-formed segments of the peer's stream.
    abbrev pub Admits : Clock → Event → Actor → Type 0
    Admits t (timer room) a = Unit
    Admits t (command c queued) a = Unit
    Admits t (packet none room) a = Unit
    Admits t (packet (some bytes) room) a =
        (segs : List KcpSegment) × (bytes ≡ datagram codec segs)
        × Admissible codec src (arrive (t.stamp 0) segs) (session a)
    Admits t (data_sent bytes queued) a = Unit

    Comes-admitted :
        (t : Clock) (ev : Event) (a : Actor)
        → Admits t ev a
        → Serving a
        → Comes codec hash s Serving t ev a
    unfolding step
    Comes-admitted t (timer room) a h p = tt
    Comes-admitted t (command c queued) a h p = tt
    Comes-admitted t (packet none room) a h p = tt
    Comes-admitted t (packet (some bytes) room) a (segs, z, h) p =
        rw z (step-IsFaithful src codec (arrive (t.stamp 0) segs) (session a) p h)
    Comes-admitted t (data_sent bytes queued) a h p = tt

    -- From an engine in a faithful session of a peer's stream, after each turn of any run of its
    -- actor in which what the packet branch receives is datagrams of well-formed segments of that
    -- stream, in any order, lost or repeated, but none as far as 2 ^ 31 numbers from the window,
    -- the actor refines the session: what it has forwarded is a prefix of the stream, and what
    -- waits in the engine's receive queue continues it, whatever room the data channel has,
    -- whatever the loss simulation drops and however the turn ends.
    pub forwarded-IsFaithful :
        {n : ℕ} {e : KcpEngine} {x : Turn}
        → IsFaithful src (record { position = n; engine = e; got = [] })
        → Reach codec hash s Admits n e x
        → Ends (λ a. IsFaithful src (session a)) x
    forwarded-IsFaithful {n} {e} f r =
        Reach-keeps codec hash s Serving Serving-Kept Admits
          (λ t ev a on h p.
            Comes-Takes codec hash s Serving
              (λ now m b q.
                same_session b.position _ b.engine _ (send-SameReceiver now m b.engine) q)
              (λ d b q. q) t ev a p (Comes-admitted t ev a h p))
          (λ t. same_session n [] e _ (update-Leaves codec (t.stamp 0) e).receiver f) r
