-- ===== src/Engine/Recv/Reassembly.antt =====
-- `recv` on a queue that starts with a whole message (kcp-core/src/engine.rs).
use rust_kcp.Base.{
  ℕ, zero, suc, ◌+◌, ◌≤◌, ◌<◌, ◌^◌, ◌≡◌, ◌≢◌, refl, arith, List, [], ◌∷◌, ◌++◌, append_assoc,
  append-nil, length, length-append, none, pos, ◌⊎◌, sym, ◌∙◌, subst, Option, some, Option-cases,
  Bool-cases, inl, inr, leb, ltb, add32, ◌%◌, bit_or, ◌&&◌,
}
use rust_kcp.Base.BTreeMap.{lookup, erase}
use rust_kcp.Error.{KcpCoreResult, ok}
use rust_kcp.Protocol.{KcpSegment}
use rust_kcp.Engine.{KcpEngine}
use rust_kcp.Engine.Payloads.{payloads, IsChain}
use rust_kcp.Engine.Recv.{
  RecvState, recv_state, move_loop, move_to_recv_queue, ask_tell, message_length, peek_size,
  assemble, deliver, recv,
}

message_length-chain :
    (n : ℕ) (segs more : List KcpSegment)
    → IsChain (suc n) segs
    → message_length (segs ++ more) ≡ length (payloads segs)
unfolding message_length
message_length-chain n [] more c = absurd c
message_length-chain zero (seg ∷ []) more (e, c) = rw (e, append-nil seg.payload) refl
message_length-chain zero (seg ∷ s ∷ segs) more (e, c) = absurd c
message_length-chain (suc n) (seg ∷ segs) more (e, c) =
    ground (arith, length-append seg.payload (payloads segs), message_length-chain n segs more c)

assemble-chain :
    (n limit : ℕ) (bytes : List ℕ) (segs more : List KcpSegment)
    → IsChain (suc n) segs
    → length bytes + length (payloads segs) ≤ limit
    → assemble limit bytes (segs ++ more) ≡ (bytes ++ payloads segs, more)
unfolding assemble
assemble-chain n limit bytes [] more c h = absurd c
assemble-chain zero limit bytes (seg ∷ []) more (e, c) h = ground (arith, append-nil seg.payload)
assemble-chain zero limit bytes (seg ∷ s ∷ segs) more (e, c) h = absurd c
assemble-chain (suc n) limit bytes (seg ∷ segs) more (e, c) h = ground (
  arith,
  length-append bytes seg.payload,
  length-append seg.payload (payloads segs),
  append_assoc bytes seg.payload (payloads segs),
  assemble-chain n limit (bytes ++ seg.payload) segs more c,
)

length-chain : (n : ℕ) (segs more : List KcpSegment) → IsChain n segs → n ≤ length (segs ++ more)
length-chain zero segs more c = omega arith
length-chain (suc n) [] more c = absurd c
length-chain (suc n) (seg ∷ segs) more (e, c) = omega (arith, length-chain n segs more c)

peek_size-chain :
    (n : ℕ) (segs more : List KcpSegment)
    → IsChain (suc n) segs
    → length (payloads segs) < 2 ^ 31
    → peek_size (segs ++ more) ≡ pos (length (payloads segs))
unfolding peek_size
peek_size-chain n [] more c h = absurd c
peek_size-chain zero (seg ∷ []) more (e, c) h = ground (arith, append-nil seg.payload)
peek_size-chain zero (seg ∷ s ∷ segs) more (e, c) h = absurd c
peek_size-chain (suc n) (seg ∷ segs) more (e, c) h =
    ground (
      arith,
      message_length-chain (suc n) (seg ∷ segs) more (e, c),
      length-chain (suc n) segs more c,
    )

recv-deliver :
    (n : ℕ) (segs more : List KcpSegment) (e : KcpEngine)
    → IsChain (suc n) segs
    → e.rcv_queue ≡ segs ++ more
    → 0 < length (payloads segs)
    → length (payloads segs) < 2 ^ 31
    → recv e ≡ deliver e (payloads segs) more
unfolding recv
recv-deliver n segs more e c q lo hi = ground (
  arith,
  peek_size-chain n segs more c hi,
  assemble-chain n (length (payloads segs)) [] segs more c,
)

-- The receive queue only gets longer, at its end.
move_loop_appends :
    (fuel wnd : ℕ) (s : RecvState)
    → (moved : List KcpSegment) × ((move_loop fuel wnd s).queue ≡ s.queue ++ moved)
unfolding move_loop
move_loop_appends zero wnd s = ([], sym (append-nil s.queue))
move_loop_appends (suc fuel) wnd s = elim (Option-cases (lookup s.nxt s.buf)) [
  | inl absent ↦ rw (absent, move_loop) ([], sym (append-nil s.queue))
  | inr (seg, found) ↦ elim (Bool-cases (leb wnd (length s.queue))) [
    | inl full ↦ rw (found, full, move_loop) ([], sym (append-nil s.queue))
    | inr room ↦
        let s' : RecvState = record {
          buf = erase s.nxt s.buf;
          queue = s.queue ++ seg ∷ [];
          nxt = add32 s.nxt 1;
        } in
        let (moved, q) = move_loop_appends fuel wnd s' in
        rw (found, room, move_loop) (seg ∷ moved, q ∙ append_assoc s.queue (seg ∷ []) moved)
  ]
]

-- What a delivery of `bytes` leaves: the queue goes on with `more`, the bytes are counted, and the
-- peer is told of a window that has opened.
pub record Delivered (e : KcpEngine) (bytes : List ℕ) (more : List KcpSegment) (e' : KcpEngine)
    : Type 0 where
  pub moved : List KcpSegment
  pub queue : e'.rcv_queue ≡ more ++ moved
  pub counted : e'.stats.bytes_received ≡ (e.stats.bytes_received + length bytes) % 2 ^ 64
  pub told :
      e.wnd.rcv ≤ length e.rcv_queue
      → length e'.rcv_queue < e.wnd.rcv
      → e'.probe.flags ≡ bit_or e.probe.flags 2

deliver-Delivered :
    (e : KcpEngine) (bytes : List ℕ) (more : List KcpSegment)
    → 0 < length bytes
    → let (e', r) = deliver e bytes more in (r ≡ ok (some bytes)) × Delivered e bytes more e'
unfolding deliver move_to_recv_queue ask_tell recv_state
deliver-Delivered e [] more h = absurd (omega arith)
deliver-Delivered e (b ∷ bs) more h =
    let s =
      move_loop (suc (length e.rcv_buf)) e.wnd.rcv
        (record { buf = e.rcv_buf; queue = more; nxt = e.rcv_nxt }) in
    let (moved, q) =
      move_loop_appends (suc (length e.rcv_buf)) e.wnd.rcv
        (record { buf = e.rcv_buf; queue = more; nxt = e.rcv_nxt }) in
    elim (Bool-cases (leb e.wnd.rcv (length e.rcv_queue) && ltb (length s.queue) e.wnd.rcv)) [
      | inl t ↦
          rw (t, deliver)
            (refl, record { moved = moved; queue = q; counted = refl; told = λ h k. refl })
      | inr t ↦
          rw (t, deliver)
            (
              refl,
              record {
                moved = moved;
                queue = q;
                counted = refl;
                told = λ h k. absurd (ground arith);
              },
            )
    ]

-- When the receive queue starts with a chain of fragments whose frg counts down to 0 and whose
-- bytes number between 1 and 2 ^ 31 - 1, recv returns exactly these bytes as one message. The
-- queue then goes on with the rest of what was there, and nothing of it is lost; the bytes are
-- counted; and if the window was full and is open now, the flag that tells the peer is set.
pub recv_chain :
    (n : ℕ) (segs more : List KcpSegment) (e : KcpEngine)
    → IsChain (suc n) segs
    → e.rcv_queue ≡ segs ++ more
    → 0 < length (payloads segs)
    → length (payloads segs) < 2 ^ 31
    → let (e', r) = recv e in (r ≡ ok (some (payloads segs))) × Delivered e (payloads segs) more e'
recv_chain n segs more e c q lo hi =
    let z : recv e ≡ deliver e (payloads segs) more = recv-deliver n segs more e c q lo hi in
    subst
      (λ (x : KcpEngine × KcpCoreResult (Option (List ℕ))).
        (x.1 ≡ ok (some (payloads segs))) × Delivered e (payloads segs) more x.0)
      (sym z) (deliver-Delivered e (payloads segs) more lo)

-- Recv gives nothing and changes nothing while the queue is empty or starts with an incomplete
-- message; so it does while the queue starts with a whole message of no bytes, which hides all
-- that is behind it.
pub recv_blocked :
    (e : KcpEngine)
    → (e.rcv_queue ≡ []
        ⊎ ((seg : KcpSegment) × (more : List KcpSegment) × (e.rcv_queue ≡ seg ∷ more)
            × ((seg.header.frg ≢ 0) × (length more < seg.header.frg)
                ⊎ (seg.header.frg ≡ 0) × (seg.payload ≡ []))))
    → recv e ≡ (e, ok none)
unfolding recv peek_size
recv_blocked e h = ground arith
