-- ===== src/Engine/Input/Receiver.antt =====
-- What an arriving segment does to the receive side (`input` of kcp-core/src/engine.rs), for
-- segments that come from the stream of the peer.
use rust_kcp.Base.{
  ℕ, ◌+◌, ◌≤◌, ◌<◌, ◌^◌, ◌≡◌, refl, sym, ap, ap₂, ◌∙◌, arith, true, false, List, [], ◌++◌,
  append-nil, append_assoc, length, length-append, max, u32, add32, Bool-cases, inl, inr, subst,
  ltb→lt, ltb→ge, ◌==◌, eqb→eq,
}
use rust_kcp.Base.BTreeMap.{or_insert, or_insert-Entries, or_insert-Ascending}
use rust_kcp.Protocol.{KcpSegment}
use rust_kcp.Protocol.Constants.{ikcp_cmd_push, ikcp_cmd_ack, ikcp_cmd_wask}
use rust_kcp.Protocol.Seq.{seq_before, seq_before-u32}
use rust_kcp.Engine.{KcpEngine}
use rust_kcp.Engine.Ack.{parse_una, parse_ack, ack_push}
use rust_kcp.Engine.Rtt.{update_ack}
use rust_kcp.Engine.Recv.{RecvState, recv_state, move_to_recv_queue, ask_tell}
use rust_kcp.Engine.Recv.Order.{
  IsNumber, IsRun, IsRun-append, IsReceiving, Waits, move_to_recv_queue-Moves,
}
use rust_kcp.Engine.Input.{AckTrack, parse_data, on_push, on_ack, dispatch, process}

-- The receive side and its window are the same.
abbrev pub SameReceiver : KcpEngine → KcpEngine → Type 0
SameReceiver e e' = (recv_state e' ≡ recv_state e) × (e'.wnd.rcv ≡ e.wnd.rcv)

not_behind :
    (a n sn nxt : ℕ)
    → sn ≡ u32 a
    → nxt ≡ u32 n
    → a < n + 2 ^ 31
    → n < a + 2 ^ 31
    → seq_before sn nxt ≡ false
    → n ≤ a
not_behind a n sn nxt e f h k b =
    ltb→ge a n (sym (seq_before-u32 a n h k) ∙ ap₂ seq_before (sym e) (sym f) ∙ b)

in_window :
    (a n wnd sn nxt : ℕ)
    → sn ≡ u32 a
    → nxt ≡ u32 n
    → a < n + 2 ^ 31
    → n + wnd < a + 2 ^ 31
    → seq_before sn (add32 nxt wnd) ≡ true
    → a < n + wnd
in_window a n wnd sn nxt e f h k b =
    let g : add32 nxt wnd ≡ u32 (n + wnd) = omega arith in
    ltb→lt a (n + wnd)
      (sym (seq_before-u32 a (n + wnd) (omega arith) k) ∙ ap₂ seq_before (sym e) (sym g) ∙ b)

on_ack-SameReceiver :
    (current : ℕ) (seg : KcpSegment) (e : KcpEngine) → SameReceiver e (on_ack current seg e)
unfolding on_ack parse_ack update_ack recv_state
on_ack-SameReceiver current seg e = ground arith

module _ (src : ℕ → List ℕ) where
  -- A segment of the stream that is not so old or so new that its number could be taken for
  -- another's: less than 2 ^ 31 from the window.
  abbrev pub IsGenuine : ℕ → ℕ → KcpSegment → Type 0
  IsGenuine wnd n seg = (a : ℕ) × IsNumber src a seg × (a < n + 2 ^ 31) × (n + wnd < a + 2 ^ 31)

  -- The receive side takes a run of the stream, and goes on behind it.
  pub record Receives (n : ℕ) (e e' : KcpEngine) : Type 0 where
    pub moved : List KcpSegment
    pub appended : e'.rcv_queue ≡ e.rcv_queue ++ moved
    pub is_run : IsRun src n moved
    pub receiving : IsReceiving src e'.wnd.rcv (n + length moved) (recv_state e')
    pub same_window : e'.wnd.rcv ≡ e.wnd.rcv
    pub within : length e'.rcv_queue ≤ max e.wnd.rcv (length e.rcv_queue)

  pub Receives-nothing :
      (n : ℕ) (e e' : KcpEngine)
      → SameReceiver e e'
      → IsReceiving src e.wnd.rcv n (recv_state e)
      → Receives n e e'
  unfolding recv_state
  Receives-nothing n e e' (s, w) v =
      let z : n + 0 ≡ n = omega arith in
      record {
        moved = [];
        appended = ap (λ (r : RecvState). r.queue) s ∙ sym (append-nil e.rcv_queue);
        is_run = tt;
        receiving = rw (z, s, w) v;
        same_window = w;
        within = omega (arith, ap (λ (r : RecvState). length r.queue) s);
      }

  -- A read of the position's advance: no more than a window is moved.
  pub few_moved : (n : ℕ) (e e' : KcpEngine) → (r : Receives n e e') → length r.moved ≤ e.wnd.rcv
  few_moved n e e' r =
      omega (arith, r.within, ap length r.appended, length-append e.rcv_queue r.moved)

  -- One run after another
  pub Receives-trans :
      (n : ℕ) (e d f : KcpEngine)
      → (r : Receives n e d) → Receives (n + length r.moved) d f
      → Receives n e f
  Receives-trans n e d f r q =
      let z : n + length r.moved + length q.moved ≡ n + length (r.moved ++ q.moved) =
        omega (arith, length-append r.moved q.moved) in
      record {
        moved = r.moved ++ q.moved;
        appended =
            q.appended
            ∙ ap (λ xs. xs ++ q.moved) r.appended
            ∙ append_assoc e.rcv_queue r.moved q.moved;
        is_run = IsRun-append src n r.moved q.moved r.is_run q.is_run;
        receiving = subst (λ k. IsReceiving src f.wnd.rcv k (recv_state f)) z q.receiving;
        same_window = q.same_window ∙ r.same_window;
        within = omega (arith, r.within, q.within, r.same_window);
      }

  pub Receives-from :
      (n : ℕ) (e d e' : KcpEngine) → SameReceiver e d → Receives n d e' → Receives n e e'
  unfolding recv_state
  Receives-from n e d e' (s, w) r = record {
    moved = r.moved;
    appended = r.appended ∙ ap (λ (q : RecvState). q.queue ++ r.moved) s;
    is_run = r.is_run;
    receiving = r.receiving;
    same_window = r.same_window ∙ w;
    within = omega (arith, r.within, ap (λ (q : RecvState). length q.queue) s, w);
  }

  store :
      (n a : ℕ) (seg : KcpSegment) (e : KcpEngine)
      → IsNumber src a seg
      → n ≤ a
      → a < n + e.wnd.rcv
      → IsReceiving src e.wnd.rcv n (recv_state e)
      → IsReceiving src e.wnd.rcv n
          (recv_state (record e { rcv_buf = or_insert seg.header.sn seg e.rcv_buf }))
  unfolding recv_state
  store n a seg e num lo hi v = record {
    expects = v.expects;
    ascending = or_insert-Ascending seg.header.sn seg e.rcv_buf v.ascending;
    holds =
        or_insert-Entries (Waits src e.wnd.rcv n) seg.header.sn seg e.rcv_buf
          (a, num.0, lo, hi, num) v.holds;
  }

  stored_moves :
      (n a : ℕ) (seg : KcpSegment) (e : KcpEngine)
      → IsNumber src a seg
      → n ≤ a
      → a < n + e.wnd.rcv
      → e.wnd.rcv ≤ 2 ^ 30
      → IsReceiving src e.wnd.rcv n (recv_state e)
      → Receives n e
          (move_to_recv_queue (record e { rcv_buf = or_insert seg.header.sn seg e.rcv_buf }))
  unfolding move_to_recv_queue
  stored_moves n a seg e num lo hi h v =
      let e1 = record e { rcv_buf = or_insert seg.header.sn seg e.rcv_buf } in
      let m = move_to_recv_queue-Moves src n e1 (omega arith) (store n a seg e num lo hi v) in
      record {
        moved = m.moved;
        appended = unfold recv_state in m.appended;
        is_run = m.is_run;
        receiving = m.receiving;
        same_window = refl;
        within = unfold recv_state in m.within;
      }

  parse_data-Receives :
      (n : ℕ) (seg : KcpSegment) (e : KcpEngine)
      → e.wnd.rcv ≤ 2 ^ 30
      → IsGenuine e.wnd.rcv n seg
      → IsReceiving src e.wnd.rcv n (recv_state e)
      → Receives n e (parse_data seg e)
  unfolding parse_data recv_state
  parse_data-Receives n seg e h (a, num, new, old) v =
      elim (Bool-cases (seq_before seg.header.sn (add32 e.rcv_nxt e.wnd.rcv))) [
        | inr far ↦ rw (far, parse_data) (Receives-nothing n e e (refl, refl) v)
        | inl near ↦ elim (Bool-cases (seq_before seg.header.sn e.rcv_nxt)) [
          | inl dup ↦ rw (near, dup, parse_data) (Receives-nothing n e e (refl, refl) v)
          | inr ahead ↦
              rw (near, ahead, parse_data)
                (stored_moves n a seg e num
                  (not_behind a n _ _ num.0 v.expects new (omega arith) ahead)
                  (in_window a n _ _ _ num.0 v.expects new old near) h v)
        ]
      ]

  on_push-Receives :
      (n : ℕ) (seg : KcpSegment) (e : KcpEngine)
      → e.wnd.rcv ≤ 2 ^ 30
      → IsGenuine e.wnd.rcv n seg
      → IsReceiving src e.wnd.rcv n (recv_state e)
      → Receives n e (on_push seg e)
  unfolding on_push recv_state ack_push
  on_push-Receives n seg e h g v =
      elim (Bool-cases (seq_before seg.header.sn (add32 e.rcv_nxt e.wnd.rcv))) [
        | inr far ↦ rw (far, on_push) (Receives-nothing n e e (refl, refl) v)
        | inl near ↦ elim (Bool-cases (seq_before seg.header.sn e.rcv_nxt)) [
          | inl dup ↦ rw (near, dup, on_push) (Receives-nothing n e _ (refl, refl) v)
          | inr ahead ↦
              rw (near, ahead, on_push)
                (Receives-from n e (ack_push seg.header.sn seg.header.ts e) _ (refl, refl)
                  (parse_data-Receives n seg (ack_push seg.header.sn seg.header.ts e) h g v))
        ]
      ]

  dispatch-Receives :
      (n current : ℕ) (seg : KcpSegment) (e : KcpEngine) (t : AckTrack)
      → e.wnd.rcv ≤ 2 ^ 30
      → (seg.header.cmd ≡ ikcp_cmd_push → IsGenuine e.wnd.rcv n seg)
      → IsReceiving src e.wnd.rcv n (recv_state e)
      → Receives n e (dispatch current seg (e, t)).0
  unfolding dispatch ask_tell recv_state
  dispatch-Receives n current seg e t h g v = elim (Bool-cases (seg.header.cmd == ikcp_cmd_ack)) [
    | inl a ↦ rw (a, dispatch) (Receives-nothing n e _ (on_ack-SameReceiver current seg e) v)
    | inr a ↦ elim (Bool-cases (seg.header.cmd == ikcp_cmd_push)) [
      | inl p ↦ rw (a, p, dispatch) (on_push-Receives n seg e h (g (eqb→eq _ _ p)) v)
      | inr p ↦ elim (Bool-cases (seg.header.cmd == ikcp_cmd_wask)) [
        | inl w ↦ rw (a, p, w, dispatch) (Receives-nothing n e _ (refl, refl) v)
        | inr w ↦ rw (a, p, w, dispatch) (Receives-nothing n e e (refl, refl) v)
      ]
    ]
  ]

  -- One segment of a datagram, of any conversation and command, for a receive window of at most 2
  -- ^ 30: if it is genuine in case it is a data segment, a run of the stream, which may be empty,
  -- joins the receive queue, and the receive side expects what follows it.
  pub process-Receives :
      (n current : ℕ) (seg : KcpSegment) (e : KcpEngine) (t : AckTrack)
      → e.wnd.rcv ≤ 2 ^ 30
      → (seg.header.cmd ≡ ikcp_cmd_push → IsGenuine e.wnd.rcv n seg)
      → IsReceiving src e.wnd.rcv n (recv_state e)
      → Receives n e (process current seg (e, t)).0
  unfolding process parse_una recv_state
  process-Receives n current seg e t h g v = elim (Bool-cases (seg.header.conv == e.conv)) [
    | inr other ↦ rw (other, process) (Receives-nothing n e e (refl, refl) v)
    | inl same ↦
        rw (same, process)
          (Receives-from n e _ _ (refl, refl) (dispatch-Receives n current seg _ t h g v))
  ]
