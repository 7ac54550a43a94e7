-- ===== src/Engine/Delivery/Session.antt =====
-- A receiver over an arbitrary network: datagrams of the peer's segments arrive in any order, any
-- number of times or not at all, between reads of the application (`input` and `recv` of
-- kcp-core/src/engine.rs).
use rust_kcp.Base.{
  ℕ, ◌+◌, ◌≤◌, ◌<◌, ◌^◌, ◌≡◌, ◌≢◌, refl, sym, ap, ◌∙◌, subst, arith, List, [], ◌∷◌, ◌++◌,
  append_assoc, append-nil, length, u32, sub32, All, Option,
}
use rust_kcp.Error.{KcpCoreResult, ok}
use rust_kcp.Protocol.{KcpSegment}
use rust_kcp.Protocol.Constants.{ikcp_cmd_push}
use rust_kcp.Protocol.Wire.{ByteCodec, IsSegment, received}
use rust_kcp.Engine.{KcpEngine}
use rust_kcp.Engine.Payloads.{payloads, payloads-append}
use rust_kcp.Engine.Recv.{recv_state, recv}
use rust_kcp.Engine.Recv.Order.{IsReceiving, IsRun}
use rust_kcp.Engine.Input.{AckTrack, no_ack, process, finish_input, input}
use rust_kcp.Engine.Input.Parse.{process_all, datagram, input-datagram}
use rust_kcp.Engine.Input.Receiver.{
  IsGenuine, Receives, Receives-trans, few_moved, process-Receives, Receives-nothing, Receives-from,
}
use rust_kcp.Engine.Delivery.{
  bytes_read, stream, stream-run, Reads, recv-Reads, finish_input-SameReceiver,
}

-- What happens to the receiver: a datagram of these segments arrives, or the application reads.
pub data Event : Type 0 where
  arrive : ℕ → List KcpSegment → Event
  read : Event

-- `position` counts the stream's segments taken so far without wrap, as `rcv_nxt` does with it;
-- `got` is what the application has read.
pub record Session : Type 0 where
  pub position : ℕ
  pub engine : KcpEngine
  pub got : List ℕ

abbrev pub moved_on : ℕ → KcpEngine → KcpEngine → ℕ
moved_on n e e' = n + sub32 e'.rcv_nxt e.rcv_nxt

-- Every data segment of a datagram is genuine at the position where it is processed.
abbrev pub AllGenuine : (ℕ → List ℕ) → ℕ → ℕ → List KcpSegment → KcpEngine × AckTrack → Type 0
AllGenuine src current n [] (e, t) = Unit {0}
AllGenuine src current n (seg ∷ segs) (e, t) =
    (seg.header.cmd ≡ ikcp_cmd_push → IsGenuine src e.wnd.rcv n (received seg))
    × AllGenuine src current (moved_on n e (process current (received seg) (e, t)).0) segs
        (process current (received seg) (e, t))

module _ (codec : ByteCodec) where
  unfoldable pub step : Event → Session → Session
  step (arrive now segs) s =
      let e' = (input codec now (datagram codec segs) s.engine).0 in
      record { position = moved_on s.position s.engine e'; engine = e'; got = s.got }
  step read s =
      let (e', r) = recv s.engine in
      record {
        position = moved_on s.position s.engine e';
        engine = e';
        got = s.got ++ bytes_read r;
      }

  unfoldable pub run : List Event → Session → Session
  run [] s = s
  run (ev ∷ evs) s = run evs (step ev s)

  -- What the network may do: it delivers datagrams of well-formed segments, whose data segments
  -- are segments of the peer's stream.
  abbrev pub Admissible : (ℕ → List ℕ) → Event → Session → Type 0
  Admissible src read s = Unit {0}
  Admissible src (arrive now segs) s =
      (segs ≢ [])
      × All IsSegment segs
      × AllGenuine src now s.position segs (record s.engine { last_activity = now }, no_ack)

  abbrev pub AllAdmissible : (ℕ → List ℕ) → List Event → Session → Type 0
  AllAdmissible src [] s = Unit {0}
  AllAdmissible src (ev ∷ evs) s = Admissible src ev s × AllAdmissible src evs (step ev s)

module _ (src : ℕ → List ℕ) where
  -- The receive side expects segment `position`, and what the application has read and what waits
  -- for it are together the bytes of the segments before.
  pub record IsFaithful (s : Session) : Type 0 where
    pub window : s.engine.wnd.rcv ≤ 2 ^ 30
    pub receiving : IsReceiving src s.engine.wnd.rcv s.position (recv_state s.engine)
    pub prefix : s.got ++ payloads s.engine.rcv_queue ≡ stream src s.position

  moved_on-length :
      (n m : ℕ) (e e' : KcpEngine)
      → e.rcv_nxt ≡ u32 n
      → e'.rcv_nxt ≡ u32 (n + m)
      → m < 2 ^ 31
      → moved_on n e e' ≡ n + m
  moved_on-length n m e e' p q h = omega arith

  Receives-moved_on :
      (n : ℕ) (e e' : KcpEngine)
      → IsReceiving src e.wnd.rcv n (recv_state e)
      → e.wnd.rcv ≤ 2 ^ 30
      → (r : Receives src n e e') → moved_on n e e' ≡ n + length r.moved
  unfolding recv_state
  Receives-moved_on n e e' v h r =
      moved_on-length n (length r.moved) e e' v.expects r.receiving.expects
        (omega (arith, few_moved src n e e' r))

  -- The queue of a session after a run of the stream joined it
  joined :
      (n m : ℕ) (got : List ℕ) (queue : List KcpSegment) (moved : List KcpSegment)
      → got ++ payloads queue ≡ stream src n
      → IsRun src n moved
      → m ≡ n + length moved
      → got ++ payloads (queue ++ moved) ≡ stream src m
  joined n m got queue moved q r z =
      ap (◌++◌ got) (payloads-append queue moved)
      ∙ sym (append_assoc got (payloads queue) (payloads moved))
      ∙ ap (λ bs. bs ++ payloads moved) q
      ∙ stream-run src n moved r
      ∙ ap (stream src) (sym z)

  receive_session :
      (n : ℕ) (e e' : KcpEngine) (got : List ℕ)
      → IsFaithful (record { position = n; engine = e; got = got })
      → Receives src n e e'
      → IsFaithful (record { position = moved_on n e e'; engine = e'; got = got })
  receive_session n e e' got f r =
      let z = Receives-moved_on n e e' f.receiving f.window r in
      record {
        window = omega (arith, r.same_window, f.window);
        receiving = subst (λ k. IsReceiving src e'.wnd.rcv k (recv_state e')) (sym z) r.receiving;
        prefix =
            ap (λ xs. got ++ payloads xs) r.appended
            ∙ joined n (moved_on n e e') got e.rcv_queue r.moved f.prefix r.is_run z;
      }

  Reads-moved_on :
      (n : ℕ) (e e' : KcpEngine) (x : KcpCoreResult (Option (List ℕ)))
      → IsReceiving src e.wnd.rcv n (recv_state e)
      → (r : Reads src n e e' x) → moved_on n e e' ≡ n + length r.moved
  unfolding recv_state
  Reads-moved_on n e e' x v r =
      moved_on-length n (length r.moved) e e' v.expects r.receiving.expects r.few

  read_session :
      (n : ℕ) (e e' : KcpEngine) (got : List ℕ) (x : KcpCoreResult (Option (List ℕ)))
      → IsFaithful (record { position = n; engine = e; got = got })
      → Reads src n e e' x
      → IsFaithful (record { position = moved_on n e e'; engine = e'; got = got ++ bytes_read x })
  read_session n e e' got x f r =
      let z = Reads-moved_on n e e' x f.receiving r in
      record {
        window = omega (arith, r.same_window, f.window);
        receiving = subst (λ k. IsReceiving src e'.wnd.rcv k (recv_state e')) (sym z) r.receiving;
        prefix =
            append_assoc got (bytes_read x) (payloads e'.rcv_queue)
            ∙ ap (◌++◌ got) (r.kept ∙ sym (payloads-append e.rcv_queue r.moved))
            ∙ joined n (moved_on n e e') got e.rcv_queue r.moved f.prefix r.is_run z;
      }

  -- A whole datagram's segments take a run of the stream.
  process_all-Receives :
      (current : ℕ) (segs : List KcpSegment) (n : ℕ) (e : KcpEngine) (t : AckTrack)
      → e.wnd.rcv ≤ 2 ^ 30
      → IsReceiving src e.wnd.rcv n (recv_state e)
      → AllGenuine src current n segs (e, t)
      → Receives src n e (process_all current segs (e, t)).0
  process_all-Receives current [] n e t h v g = Receives-nothing src n e e (refl, refl) v
  process_all-Receives current (seg ∷ segs) n e t h v g =
      let (d, u) = process current (received seg) (e, t) in
      let r = process-Receives src n current (received seg) e t h g.0 v in
      let z = Receives-moved_on n e d v h r in
      Receives-trans src n e d _ r (
        process_all-Receives current segs (n + length r.moved) d u (omega (arith, r.same_window))
          r.receiving (subst (λ k. AllGenuine src current k segs (d, u)) z g.1))

  same_receive_side :
      (n : ℕ) (e : KcpEngine) (now : ℕ)
      → IsReceiving src e.wnd.rcv n (recv_state e)
      → IsReceiving src e.wnd.rcv n (recv_state (record e { last_activity = now }))
  unfolding recv_state
  same_receive_side n e now v = v

  module _ (codec : ByteCodec) where
    arrive-Receives :
        (now n : ℕ) (segs : List KcpSegment) (e : KcpEngine)
        → e.wnd.rcv ≤ 2 ^ 30
        → IsReceiving src e.wnd.rcv n (recv_state e)
        → segs ≢ []
        → All IsSegment segs
        → AllGenuine src now n segs (record e { last_activity = now }, no_ack)
        → Receives src n e (input codec now (datagram codec segs) e).0
    arrive-Receives now n segs e h v ne ok_segs g =
        let e1 = record e { last_activity = now } in
        let t1 = process_all now segs (e1, no_ack) in
        let parsed : input codec now (datagram codec segs) e ≡ (finish_input e.snd_una t1, ok tt) =
          rw append-nil at (input-datagram codec now segs [] e ne ok_segs (omega arith)) in
        let r = process_all-Receives now segs n e1 no_ack h (same_receive_side n e now v) g in
        rw parsed (
          Receives-from src n e e1 _ (unfold recv_state in (refl, refl)) (
            Receives-trans src n e1 t1.0 _ r (
              Receives-nothing src (n + length r.moved) t1.0 _
                (finish_input-SameReceiver e.snd_una t1.0 t1.1) r.receiving)))

    -- One event keeps the session faithful.
    pub step-IsFaithful :
        (ev : Event) (s : Session)
        → IsFaithful s
        → Admissible codec src ev s
        → IsFaithful (step codec ev s)
    unfolding step
    step-IsFaithful (arrive now segs) s f (ne, ok_segs, g) =
        receive_session s.position s.engine _ s.got f
          (arrive-Receives now s.position segs s.engine f.window f.receiving ne ok_segs g)
    step-IsFaithful read s f a =
        read_session s.position s.engine (recv s.engine).0 s.got (recv s.engine).1 f
          (recv-Reads src s.position s.engine f.window f.receiving)

    -- From a session in which this holds, for a receive window of at most 2 ^ 30 and a network
    -- that delivers datagrams of well-formed segments of the peer's stream, in any order, lost or
    -- repeated, but none as far as 2 ^ 31 numbers from the window, and for any reads in between:
    -- what the application has read is a prefix of the peer's stream, in order, with no gap and
    -- nothing twice, and what waits in the receive queue continues it up to the segment that is
    -- expected next.
    pub run-IsFaithful :
        (evs : List Event) (s : Session)
        → IsFaithful s
        → AllAdmissible codec src evs s
        → IsFaithful (run codec evs s)
    unfolding run
    run-IsFaithful [] s f a = f
    run-IsFaithful (ev ∷ evs) s f a =
        run-IsFaithful evs (step codec ev s) (step-IsFaithful ev s f a.0) a.1
