-- ===== src/Engine/Recv.antt =====
-- kcp-core/src/engine.rs: `recv`, `peek_size` and `move_to_recv_queue`.
pub mod Reassembly
pub mod Order
use rust_kcp.Base.{
  ℕ, zero, suc, ◌+◌, true, false, List, [], ◌∷◌, ◌++◌, Option, none, some, length, ltb, leb, ◌==◌,
  ◌&&◌, if◌then◌else◌, u32, add32, add64, ℤ, negsuc, signed32, is_pos, nonneg_part, bit_or,
}
use rust_kcp.Base.BTreeMap.{lookup, erase, insert}
use rust_kcp.Error.{KcpCoreResult, ok}
use rust_kcp.Protocol.{KcpSegment}
use rust_kcp.Protocol.Constants.{ikcp_ask_tell}
use rust_kcp.Engine.{KcpEngine}

-- The sum of `peek_size`'s loop
unfoldable pub message_length : List KcpSegment → ℕ
message_length [] = 0
message_length (seg ∷ segs) =
    if seg.header.frg == 0 then length seg.payload else length seg.payload + message_length segs

-- The casts to `i32` keep the low 32 bits.
unfoldable pub peek_size : List KcpSegment → ℤ
unfolding message_length
peek_size [] = negsuc 0
peek_size (seg ∷ segs) =
    if seg.header.frg == 0
    then signed32 (u32 (length seg.payload))
    else if ltb (length (seg ∷ segs)) (seg.header.frg + 1)
    then negsuc 0
    else signed32 (u32 (message_length (seg ∷ segs)))

-- The `while let` of `recv`: the bytes taken so far, and the queue
unfoldable pub assemble : ℕ → List ℕ → List KcpSegment → List ℕ × List KcpSegment
assemble limit bytes [] = (bytes, [])
assemble limit bytes (seg ∷ segs) = elim (ltb limit (length bytes + length seg.payload)) [
  | true ↦ (bytes, seg ∷ segs)
  | false ↦ elim (seg.header.frg == 0) [
    | true ↦ (bytes ++ seg.payload, segs)
    | false ↦ assemble limit (bytes ++ seg.payload) segs
  ]
]

-- The receive side that `move_to_recv_queue` works on
pub record RecvState : Type 0 where
  pub buf : List (ℕ × KcpSegment)
  pub queue : List KcpSegment
  pub nxt : ℕ

-- Each round takes an entry out of `rcv_buf`, so one more than its length is fuel enough.
unfoldable pub move_loop : ℕ → ℕ → RecvState → RecvState
move_loop zero wnd s = s
move_loop (suc fuel) wnd s = elim (lookup s.nxt s.buf) [
  | none ↦ s
  | some seg ↦ elim (leb wnd (length s.queue)) [
    | true ↦ record s { buf = insert s.nxt seg (erase s.nxt s.buf) }
    | false ↦
        move_loop fuel wnd
          (record { buf = erase s.nxt s.buf; queue = s.queue ++ seg ∷ []; nxt = add32 s.nxt 1 })
  ]
]

unfoldable pub recv_state : KcpEngine → RecvState
recv_state e = record { buf = e.rcv_buf; queue = e.rcv_queue; nxt = e.rcv_nxt }

unfoldable pub move_to_recv_queue : KcpEngine → KcpEngine
unfolding move_loop recv_state
move_to_recv_queue e =
    let s = move_loop (suc (length e.rcv_buf)) e.wnd.rcv (recv_state e) in
    record e { rcv_buf = s.buf; rcv_queue = s.queue; rcv_nxt = s.nxt }

unfoldable pub ask_tell : KcpEngine → KcpEngine
ask_tell e =
    let probe = e.probe in
    record e { probe = record probe { flags = bit_or probe.flags ikcp_ask_tell } }

-- What follows the loop, from the bytes and the queue that it leaves
unfoldable pub deliver :
    KcpEngine → List ℕ → List KcpSegment → KcpEngine × KcpCoreResult (Option (List ℕ))
deliver e [] queue = (record e { rcv_queue = queue }, ok none)
deliver e (b ∷ bs) queue =
    let stats = e.stats in
    let recovered = leb e.wnd.rcv (length e.rcv_queue) in
    let e' = move_to_recv_queue (record e {
      rcv_queue = queue;
      stats = record stats { bytes_received = add64 stats.bytes_received (length (b ∷ bs)) };
    }) in
    (
      if recovered && ltb (length e'.rcv_queue) e'.wnd.rcv then ask_tell e' else e',
      ok (some (b ∷ bs)),
    )

unfoldable pub recv : KcpEngine → KcpEngine × KcpCoreResult (Option (List ℕ))
unfolding peek_size assemble
recv e =
    if is_pos (peek_size e.rcv_queue)
    then (let (bytes, queue) = assemble (nonneg_part (peek_size e.rcv_queue)) [] e.rcv_queue in
        deliver e bytes queue)
    else (e, ok none)
