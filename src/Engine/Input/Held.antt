-- ===== src/Engine/Input/Held.antt =====
-- What the engine acknowledges, it holds (`input` of kcp-core/src/engine.rs).
use rust_kcp.Base.{
  ℕ, zero, suc, ◌+◌, ◌<◌, ◌^◌, ◌≡◌, refl, sym, ap₂, ◌∙◌, arith, List, [], ◌∷◌, ◌++◌, length,
  length-append, u32, add32, Bool-cases, Option-cases, inl, inr, ◌⊎◌, ltb, leb, ltb→lt, ltb→ge,
  ◌==◌, eqb→eq, eqb→ne, subst,
}
use rust_kcp.Base.BTreeMap.{lookup, erase, insert, or_insert}
use rust_kcp.Base.BTreeMap.Held.{Held, erase-Held, insert-Held, insert-Held-same, or_insert-Held}
use rust_kcp.Protocol.{KcpSegment}
use rust_kcp.Protocol.Seq.{seq_before, seq_before-u32}
use rust_kcp.Engine.{KcpEngine}
use rust_kcp.Engine.Ack.{ack_push}
use rust_kcp.Engine.Recv.{RecvState, recv_state, move_loop, move_to_recv_queue}
use rust_kcp.Engine.Input.{parse_data, on_push}

-- Segment `a` of the stream, under its sequence number, is behind the expected one or held.
abbrev pub Kept : ℕ → ℕ → RecvState → Type 0
Kept a n s = (a < n) ⊎ Held (u32 a) s.buf

-- A later state of the receive side that has not let go of segment `a`. The expected position has
-- moved by as much as the receive queue got longer, from `waiting`.
abbrev pub StillKept : ℕ → ℕ → ℕ → RecvState → Type 0
StillKept a n waiting s =
    (k : ℕ) × (s.nxt ≡ u32 k) × (k + waiting ≡ n + length s.queue) × Kept a k s

move_on-Kept :
    (a n : ℕ) (s : RecvState) (queue : List KcpSegment)
    → s.nxt ≡ u32 n
    → a < n + 2 ^ 31
    → Kept a n s
    → Kept a (suc n) (record { buf = erase s.nxt s.buf; queue = queue; nxt = add32 s.nxt 1 })
move_on-Kept a n s queue e h (inl p) = inl (omega arith)
move_on-Kept a n s queue e h (inr p) = elim (Bool-cases (ltb a (suc n))) [
  | inl t ↦ inl (ltb→lt _ _ t)
  | inr t ↦ inr (erase-Held (u32 a) s.nxt s.buf (λ q. absurd (omega (arith, ltb→ge _ _ t, e, q))) p)
]

put_back-Kept :
    (a n : ℕ) (s : RecvState) (seg : KcpSegment)
    → Kept a n s
    → Kept a n (record s { buf = insert s.nxt seg (erase s.nxt s.buf) })
put_back-Kept a n s seg (inl p) = inl p
put_back-Kept a n s seg (inr p) = elim (Bool-cases (u32 a == s.nxt)) [
  | inl t ↦ inr (
      subst (λ k. Held k (insert s.nxt seg (erase s.nxt s.buf))) (sym (eqb→eq _ _ t))
        (insert-Held-same s.nxt seg (erase s.nxt s.buf)))
  | inr t ↦ inr (
      insert-Held (u32 a) s.nxt seg _ (eqb→ne _ _ t)
        (erase-Held (u32 a) s.nxt s.buf (eqb→ne _ _ t) p))
]

move_loop-Kept :
    (fuel wnd a n : ℕ) (s : RecvState)
    → s.nxt ≡ u32 n
    → a < n + 2 ^ 31
    → Kept a n s
    → StillKept a n (length s.queue) (move_loop fuel wnd s)
unfolding move_loop
move_loop-Kept zero wnd a n s e h p = (n, e, omega arith, p)
move_loop-Kept (suc fuel) wnd a n s e h p = elim (Option-cases (lookup s.nxt s.buf)) [
  | inl absent ↦ rw (absent, move_loop) (n, e, omega arith, p)
  | inr (seg, found) ↦ elim (Bool-cases (leb wnd (length s.queue))) [
    | inl full ↦ rw (found, full, move_loop) (n, e, omega arith, put_back-Kept a n s seg p)
    | inr room ↦
        let z : add32 s.nxt 1 ≡ u32 (suc n) = omega arith in
        let queue = s.queue ++ seg ∷ [] in
        let s' : RecvState = record {
          buf = erase s.nxt s.buf;
          queue = queue;
          nxt = add32 s.nxt 1;
        } in
        let (k, q, l, r) =
          move_loop-Kept fuel wnd a (suc n) s' z (omega arith) (move_on-Kept a n s queue e h p) in
        rw (found, room, move_loop) (k, q, omega (arith, length-append s.queue (seg ∷ [])), r)
  ]
]

stored-StillKept :
    (a n : ℕ) (seg : KcpSegment) (e : KcpEngine)
    → seg.header.sn ≡ u32 a
    → e.rcv_nxt ≡ u32 n
    → a < n + 2 ^ 31
    → StillKept a n (length e.rcv_queue) (
        recv_state
          (move_to_recv_queue (record e { rcv_buf = or_insert seg.header.sn seg e.rcv_buf })))
unfolding move_to_recv_queue recv_state
stored-StillKept a n seg e q r h =
    let buf = or_insert seg.header.sn seg e.rcv_buf in
    move_loop-Kept (suc (length buf)) e.wnd.rcv a n
      (record { buf = buf; queue = e.rcv_queue; nxt = e.rcv_nxt }) r h
      (inr (subst (λ k. Held k buf) q (or_insert-Held seg.header.sn seg e.rcv_buf)))

-- A data segment under the sequence number of stream position a, less than 2 ^ 31 from the
-- expected position, is either ignored altogether or acknowledged once; in the second case it is
-- not lost: afterwards the expected position, which has moved forward by the number of segments
-- that joined the receive queue, is beyond a, or the receive buffer holds an entry for a.
pub on_push-StillKept :
    (a n : ℕ) (seg : KcpSegment) (e : KcpEngine)
    → seg.header.sn ≡ u32 a
    → e.rcv_nxt ≡ u32 n
    → a < n + 2 ^ 31
    → n < a + 2 ^ 31
    → let e' = on_push seg e in
      (e' ≡ e)
      ⊎ ((e'.ack_list ≡ e.ack_list ++ (seg.header.sn, seg.header.ts) ∷ [])
          × StillKept a n (length e.rcv_queue) (recv_state e'))
unfolding on_push parse_data ack_push recv_state
on_push-StillKept a n seg e q r h k =
    let order : seq_before seg.header.sn e.rcv_nxt ≡ ltb a n =
      ap₂ seq_before q r ∙ seq_before-u32 a n h k in
    elim (Bool-cases (seq_before seg.header.sn (add32 e.rcv_nxt e.wnd.rcv))) [
      | inr far ↦ rw (far, on_push) (inl refl)
      | inl near ↦ elim (Bool-cases (seq_before seg.header.sn e.rcv_nxt)) [
        | inl dup ↦
            rw (near, dup, on_push)
              (inr (
                refl,
                (n, unfold recv_state in r, omega arith, inl (ltb→lt _ _ (sym order ∙ dup))),
              ))
        | inr ahead ↦
            rw (near, ahead, on_push, parse_data)
              (inr (
                unfold move_to_recv_queue in refl,
                stored-StillKept a n seg (ack_push seg.header.sn seg.header.ts e) q r h,
              ))
      ]
    ]
