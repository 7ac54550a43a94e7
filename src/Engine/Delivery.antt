-- ===== src/Engine/Delivery.antt =====
-- A receiver over an arbitrary network: datagrams of the peer's segments arrive in any order, any
-- number of times or not at all, between reads of the application (`input` and `recv` of
-- kcp-core/src/engine.rs).
pub mod Session
use rust_kcp.Base.{
  ℕ, zero, suc, ◌+◌, ◌-◌, ◌≤◌, ◌<◌, ◌^◌, ◌≡◌, ◌≢◌, refl, sym, ap, ◌∙◌, subst, arith, Bool, true,
  false, List, [], ◌∷◌, ◌++◌, append_assoc, append-nil, length, u32, sub32, Bool-cases, inl, inr,
  Option, none, some, ltb, ◌==◌, All, leb, nonneg_part, is_pos, ◌&&◌, if◌then◌else◌, add64,
}
use rust_kcp.Error.{KcpCoreResult, ok, err}
use rust_kcp.Protocol.{KcpSegment}
use rust_kcp.Protocol.Constants.{ikcp_cmd_push}
use rust_kcp.Protocol.Wire.{ByteCodec, IsSegment, received}
use rust_kcp.Engine.{KcpEngine}
use rust_kcp.Engine.Payloads.{payloads, payloads-append}
use rust_kcp.Engine.Congestion.{update_cwnd}
use rust_kcp.Engine.Ack.{shrink_buf, parse_fastack}
use rust_kcp.Engine.Recv.{
  recv_state, move_to_recv_queue, ask_tell, assemble, peek_size, deliver, recv,
}
use rust_kcp.Engine.Recv.Order.{IsRun, IsReceiving, Moves, move_to_recv_queue-Moves}
use rust_kcp.Engine.Input.{AckTrack, no_ack, process, finish_input, input}
use rust_kcp.Engine.Input.Parse.{process_all, datagram, input-datagram}
use rust_kcp.Engine.Input.Receiver.{
  SameReceiver, IsGenuine, Receives, process-Receives, Receives-nothing,
}

pub finish_input-SameReceiver :
    (una : ℕ) (e : KcpEngine) (t : AckTrack) → SameReceiver e (finish_input una (e, t))
unfolding finish_input shrink_buf parse_fastack update_cwnd recv_state
finish_input-SameReceiver una e t = ground arith

-- The bytes that a call of `recv` hands to the application
abbrev pub bytes_read : KcpCoreResult (Option (List ℕ)) → List ℕ
bytes_read (ok (some bytes)) = bytes
bytes_read (ok none) = []
bytes_read (err x) = []

assemble_keeps :
    (limit : ℕ) (bytes : List ℕ) (queue : List KcpSegment)
    → let (bytes', queue') = assemble limit bytes queue in
      bytes' ++ payloads queue' ≡ bytes ++ payloads queue
unfolding assemble
assemble_keeps limit bytes [] = refl
assemble_keeps limit bytes (seg ∷ segs) = ground (
  arith,
  append_assoc bytes seg.payload (payloads segs),
  assemble_keeps limit (bytes ++ seg.payload) segs,
)

tell-SameReceiver : (full : Bool) (e : KcpEngine) → SameReceiver e (if full then ask_tell e else e)
unfolding ask_tell recv_state
tell-SameReceiver true e = (refl, refl)
tell-SameReceiver false e = (refl, refl)

wnd-move : (e : KcpEngine) → (move_to_recv_queue e).wnd.rcv ≡ e.wnd.rcv
unfolding move_to_recv_queue
wnd-move e = refl

module _ (src : ℕ → List ℕ) where
  -- The bytes of the first `n` segments of the stream
  abbrev pub stream : ℕ → List ℕ
  stream zero = []
  stream (suc n) = stream n ++ src n

  pub stream-run :
      (n : ℕ) (segs : List KcpSegment)
      → IsRun src n segs
      → stream n ++ payloads segs ≡ stream (n + length segs)
  stream-run n [] r = let z : n ≡ n + 0 = omega arith in append-nil (stream n) ∙ ap stream z
  stream-run n (seg ∷ segs) r =
      let z : suc n + length segs ≡ n + suc (length segs) = omega arith in
      sym (append_assoc (stream n) seg.payload (payloads segs))
      ∙ ap (λ bs. (stream n ++ bs) ++ payloads segs) r.0.1
      ∙ stream-run (suc n) segs r.1
      ∙ ap stream z

  -- What a read does: the bytes that it returns come off the front of what waited, and a run of the
  -- stream joins behind.
  pub record Reads (n : ℕ) (e e' : KcpEngine) (r : KcpCoreResult (Option (List ℕ))) : Type 0 where
    pub moved : List KcpSegment
    pub is_run : IsRun src n moved
    pub receiving : IsReceiving src e'.wnd.rcv (n + length moved) (recv_state e')
    pub same_window : e'.wnd.rcv ≡ e.wnd.rcv
    pub few : length moved < 2 ^ 31
    pub kept : bytes_read r ++ payloads e'.rcv_queue ≡ payloads e.rcv_queue ++ payloads moved

  Reads-nothing :
      (n : ℕ) (e : KcpEngine) (queue : List KcpSegment)
      → payloads queue ≡ payloads e.rcv_queue
      → IsReceiving src e.wnd.rcv n (recv_state e)
      → Reads n e (record e { rcv_queue = queue }) (ok none)
  unfolding recv_state
  Reads-nothing n e queue q v =
      let z : n ≡ n + 0 = omega arith in
      record {
        moved = [];
        is_run = tt;
        receiving =
            subst (λ k. IsReceiving src e.wnd.rcv k (recv_state (record e { rcv_queue = queue }))) z
              (record { expects = v.expects; ascending = v.ascending; holds = v.holds });
        same_window = refl;
        few = omega arith;
        kept = q ∙ sym (append-nil (payloads e.rcv_queue));
      }

  requeue :
      (wnd n : ℕ) (e e' : KcpEngine)
      → (e'.rcv_nxt ≡ e.rcv_nxt) × (e'.rcv_buf ≡ e.rcv_buf)
      → IsReceiving src wnd n (recv_state e)
      → IsReceiving src wnd n (recv_state e')
  unfolding recv_state
  requeue wnd n e e' (p, q) v = record {
    expects = p ∙ v.expects;
    ascending = rw q v.ascending;
    holds = rw q v.holds;
  }

  after_move :
      (n : ℕ) (e e1 e' : KcpEngine) (bytes : List ℕ) (queue : List KcpSegment)
      → e1.rcv_queue ≡ queue
      → e'.wnd.rcv ≡ e.wnd.rcv
      → bytes ++ payloads queue ≡ payloads e.rcv_queue
      → e.wnd.rcv < 2 ^ 31
      → Moves src e.wnd.rcv n (recv_state e1) (recv_state e')
      → Reads n e e' (ok (some bytes))
  unfolding recv_state
  after_move n e e1 e' bytes queue c w q h m = record {
    moved = m.moved;
    is_run = m.is_run;
    receiving =
        subst (λ k. IsReceiving src k (n + length m.moved) (recv_state e')) (sym w) m.receiving;
    same_window = w;
    few = omega (arith, m.few);
    kept =
        ap (λ xs. bytes ++ payloads xs) (m.appended ∙ ap (λ xs. xs ++ m.moved) c)
        ∙ ap (◌++◌ bytes) (payloads-append queue m.moved)
        ∙ sym (append_assoc bytes (payloads queue) (payloads m.moved))
        ∙ ap (λ bs. bs ++ payloads m.moved) q;
  }

  deliver-Reads :
      (n : ℕ) (e : KcpEngine) (bytes : List ℕ) (queue : List KcpSegment)
      → e.wnd.rcv ≤ 2 ^ 30
      → IsReceiving src e.wnd.rcv n (recv_state e)
      → bytes ++ payloads queue ≡ payloads e.rcv_queue
      → let (e', r) = deliver e bytes queue in Reads n e e' r
  unfolding deliver
  deliver-Reads n e [] queue h v q = Reads-nothing n e queue q v
  deliver-Reads n e (b ∷ bs) queue h v q =
      let stats = e.stats in
      let e1 = record e {
        rcv_queue = queue;
        stats = record stats { bytes_received = add64 stats.bytes_received (length (b ∷ bs)) };
      } in
      let v1 : IsReceiving src e.wnd.rcv n (recv_state e1) =
        requeue e.wnd.rcv n e e1 (refl, refl) v in
      let full =
        leb e.wnd.rcv (length e.rcv_queue)
        && ltb (length (move_to_recv_queue e1).rcv_queue) (move_to_recv_queue e1).wnd.rcv in
      let told = tell-SameReceiver full (move_to_recv_queue e1) in
      after_move n e e1 _ (b ∷ bs) queue refl (told.1 ∙ wnd-move e1) q (omega arith) (
        subst (λ t. Moves src e.wnd.rcv n (recv_state e1) t) (sym told.0)
          (move_to_recv_queue-Moves src n e1 (omega arith) v1))

  -- For a receive window of at most 2 ^ 30, recv returns bytes off the front of what waits in the
  -- receive queue, and a run of the stream joins the queue behind the rest.
  pub recv-Reads :
      (n : ℕ) (e : KcpEngine)
      → e.wnd.rcv ≤ 2 ^ 30
      → IsReceiving src e.wnd.rcv n (recv_state e)
      → let (e', r) = recv e in Reads n e e' r
  unfolding recv
  recv-Reads n e h v = elim (Bool-cases (is_pos (peek_size e.rcv_queue))) [
    | inr none_yet ↦ rw (none_yet, recv) (Reads-nothing n e e.rcv_queue refl v)
    | inl some_yet ↦
        let limit = nonneg_part (peek_size e.rcv_queue) in
        rw (some_yet, recv)
          (deliver-Reads n e (assemble limit [] e.rcv_queue).0 (assemble limit [] e.rcv_queue).1 h v
            (assemble_keeps limit [] e.rcv_queue))
  ]
