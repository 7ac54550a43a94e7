-- ===== src/Engine/Send/Grows.antt =====
-- `send` (kcp-core/src/engine.rs): how much longer it makes the queue.
use rust_kcp.Base.{
  ℕ, zero, suc, ◌+◌, ◌-◌, ◌≤◌, ◌≡◌, refl, arith, Bool, true, false, List, [], ◌∷◌, ◌++◌, length,
  length-append, is_empty, min, take, drop, ltb, ltb→ge, Bool-cases, inl, inr, Option-cases,
  split_back, some,
}
use rust_kcp.Protocol.{KcpSegment}
use rust_kcp.Engine.Send.Stream.{split_back_lem}
use rust_kcp.Engine.{KcpEngine}
use rust_kcp.Engine
use rust_kcp.Engine.Send.{
  fragment, fragment_loop, fragment_count, max_frags, queue_fragments, count_sent, send, merge_last,
  merge_into,
}

fragment_loop-length :
    (rounds now conv : ℕ) (stream : Bool) (count mss i offset : ℕ) (bytes : List ℕ)
    (queue : List KcpSegment)
    → length (fragment_loop rounds now conv stream count mss i offset bytes queue)
      ≡ length queue + rounds
unfolding fragment_loop
fragment_loop-length zero now conv stream count mss i offset bytes queue = omega arith
fragment_loop-length (suc rounds) now conv stream count mss i offset bytes queue =
    let n = min mss (length bytes - offset) in
    let seg = fragment now conv stream count i (take n (drop offset bytes)) in
    omega (
      arith,
      fragment_loop-length rounds now conv stream count mss (i + 1) (offset + n) bytes
          (queue ++ seg ∷ []),
      length-append queue (seg ∷ []),
    )

merge_into-length :
    (mss : ℕ) (bytes : List ℕ) (queue front : List KcpSegment) (last : KcpSegment)
    → queue ≡ front ++ last ∷ []
    → length (merge_into mss bytes queue (some (front, last))).queue ≡ length queue
unfolding merge_into
merge_into-length mss bytes queue front last q = elim (Bool-cases (ltb (length last.payload) mss)) [
  | inl room ↦
      rw (room, merge_into, q) (omega (arith, length-append front _, length-append front _))
  | inr full ↦ rw (full, merge_into) refl
]

merge_last-length :
    (stream : Bool) (mss : ℕ) (bytes : List ℕ) (queue : List KcpSegment)
    → length (merge_last stream mss bytes queue).queue ≡ length queue
unfolding merge_last merge_into
merge_last-length false mss bytes queue = refl
merge_last-length true mss bytes queue = elim (Option-cases (split_back queue)) [
  | inl e ↦ rw (e, merge_into) refl
  | inr ((front, last), e) ↦
      rw e (merge_into-length mss bytes queue front last (split_back_lem queue front last e))
]

-- A call of `send` lengthens the queue by what the receive window allows at most.
abbrev pub Grows : KcpEngine → KcpEngine → Type 0
Grows e e' =
    (e'.config ≡ e.config) × (length e'.snd_queue ≤ length e.snd_queue + min e.config.rcv_wnd 128)

queue_fragments-Grows :
    (now : ℕ) (bytes : List ℕ) (e : KcpEngine) → Grows e (queue_fragments now bytes e).0
unfolding queue_fragments count_sent max_frags
queue_fragments-Grows now bytes e =
    let mss = Engine.mss e in
    let count = fragment_count mss (length bytes) in
    elim (Bool-cases (ltb (max_frags e) count)) [
      | inl t ↦ rw (t, queue_fragments) (refl, omega arith)
      | inr t ↦
          rw (t, queue_fragments)
            (
              refl,
              omega (
                arith,
                ltb→ge _ _ t,
                fragment_loop-length count now e.conv e.config.stream_mode count mss 0 0 bytes
                    e.snd_queue,
              ),
            )
    ]

pub send-Grows : (now : ℕ) (bytes : List ℕ) (e : KcpEngine) → Grows e (send now bytes e).0
unfolding send count_sent
send-Grows now bytes e =
    let m = merge_last e.config.stream_mode (Engine.mss e) bytes e.snd_queue in
    let z = merge_last-length e.config.stream_mode (Engine.mss e) bytes e.snd_queue in
    let q =
      queue_fragments-Grows now m.rest (record e { last_activity = now; snd_queue = m.queue }) in
    elim (Bool-cases (is_empty bytes)) [
      | inl t ↦ rw (t, send) (refl, omega arith)
      | inr t ↦ elim (Bool-cases (is_empty m.rest)) [
        | inl u ↦ rw (t, u, send) (refl, omega (arith, z))
        | inr u ↦ rw (t, u, send) (q.0, omega (arith, z, q.1))
      ]
    ]
