-- ===== src/Engine/Send/Sized.antt =====
-- The size of the segments that `send` (kcp-core/src/engine.rs) queues.
use rust_kcp.Base.{
  ℕ, zero, suc, ◌+◌, ◌-◌, ◌≤◌, ◌≡◌, refl, arith, Bool, true, false, List, [], ◌∷◌, ◌++◌, length,
  All-append, some, Option-cases, Bool-cases, inl, inr, take, drop, min, length-take, length-append,
  split_back, ltb, ltb→lt, is_empty, subst,
}
use rust_kcp.Protocol.{KcpSegment, size, push}
use rust_kcp.Engine.{KcpEngine}
use rust_kcp.Engine
use rust_kcp.Engine.Send.{
  extend_segment, merge_into, merge_last, fragment, fragment_loop, fragment_count, max_frags,
  count_sent, queue_fragments, send,
}
use rust_kcp.Engine.Send.Stream.{split_back_lem}
use rust_kcp.Engine.Flush.Packed.{AllFit, IsSized, IsSized-same}

fragment-size :
    (now conv : ℕ) (stream : Bool) (count i : ℕ) (bytes : List ℕ)
    → size (fragment now conv stream count i bytes) ≡ 24 + length bytes
unfolding fragment push size
fragment-size now conv stream count i bytes = ground arith

fragment_loop-AllFit :
    (mtu rounds now conv : ℕ) (stream : Bool) (count mss i offset : ℕ) (bytes : List ℕ)
    (queue : List KcpSegment)
    → 24 + mss ≤ mtu
    → AllFit mtu queue
    → AllFit mtu (fragment_loop rounds now conv stream count mss i offset bytes queue)
unfolding fragment_loop
fragment_loop-AllFit mtu zero now conv stream count mss i offset bytes queue h f = f
fragment_loop-AllFit mtu (suc rounds) now conv stream count mss i offset bytes queue h f =
    let n = min mss (length bytes - offset) in
    let piece = take n (drop offset bytes) in
    fragment_loop-AllFit mtu rounds now conv stream count mss (i + 1) (offset + n) bytes _ h (
      All-append _ queue _ f (
        omega
            (arith, fragment-size now conv stream count i piece, length-take n (drop offset bytes)),
        tt,
      ))

All-split :
    (mtu : ℕ) (xs ys : List KcpSegment) → AllFit mtu (xs ++ ys) → AllFit mtu xs × AllFit mtu ys
All-split mtu [] ys f = (tt, f)
All-split mtu (x ∷ xs) ys f = ((f.0, (All-split mtu xs ys f.1).0), (All-split mtu xs ys f.1).1)

merge_into-AllFit :
    (mtu mss : ℕ) (bytes : List ℕ) (queue front : List KcpSegment) (last : KcpSegment)
    → 24 + mss ≤ mtu
    → AllFit mtu queue
    → queue ≡ front ++ last ∷ []
    → AllFit mtu (merge_into mss bytes queue (some (front, last))).queue
unfolding merge_into extend_segment size
merge_into-AllFit mtu mss bytes queue front last h f q =
    let n = min (length bytes) (mss - length last.payload) in
    elim (Bool-cases (ltb (length last.payload) mss)) [
      | inl room ↦
          rw (room, merge_into)
            (All-append _ front _ (All-split mtu front _ (subst (AllFit mtu) q f)).0 (
              omega (
                arith,
                ltb→lt _ _ room,
                length-append last.payload (take n bytes),
                length-take n bytes,
              ),
              tt,
            ))
      | inr full ↦ rw (full, merge_into) f
    ]

merge_last-AllFit :
    (mtu : ℕ) (stream : Bool) (mss : ℕ) (bytes : List ℕ) (queue : List KcpSegment)
    → 24 + mss ≤ mtu
    → AllFit mtu queue
    → AllFit mtu (merge_last stream mss bytes queue).queue
unfolding merge_last merge_into
merge_last-AllFit mtu false mss bytes queue h f = f
merge_last-AllFit mtu true mss bytes queue h f = elim (Option-cases (split_back queue)) [
  | inl e ↦ rw (e, merge_into) f
  | inr ((front, last), e) ↦
      rw e
        (merge_into-AllFit mtu mss bytes queue front last h f (split_back_lem queue front last e))
]

mss-le : {mtu : ℕ} (e : KcpEngine) → IsSized mtu e → 24 + Engine.mss e ≤ e.config.mtu
unfolding Engine.mss
mss-le e v = omega (arith, v.roomy, v.small)

queue-IsSized :
    {mtu : ℕ} (e : KcpEngine) (queue : List KcpSegment)
    → AllFit e.config.mtu queue
    → IsSized mtu e
    → IsSized mtu (record e { snd_queue = queue })
queue-IsSized e queue f v = IsSized-same e _ refl (refl, refl) f v.buf_fits v

queue_fragments-IsSized :
    {mtu : ℕ} (now : ℕ) (bytes : List ℕ) (e : KcpEngine)
    → IsSized mtu e
    → IsSized mtu (queue_fragments now bytes e).0
unfolding queue_fragments count_sent
queue_fragments-IsSized now bytes e v =
    let count = fragment_count (Engine.mss e) (length bytes) in
    elim (Bool-cases (ltb (max_frags e) count)) [
      | inl over ↦ rw (over, queue_fragments) v
      | inr fits ↦
          rw (fits, queue_fragments)
            (IsSized-same e _ refl (refl, refl)
              (fragment_loop-AllFit e.config.mtu count now e.conv e.config.stream_mode count
                (Engine.mss e) 0 0 bytes e.snd_queue (mss-le e v) v.queue_fits)
              v.buf_fits v)
    ]

pub send-IsSized :
    {mtu : ℕ} (now : ℕ) (bytes : List ℕ) (e : KcpEngine)
    → IsSized mtu e
    → IsSized mtu (send now bytes e).0
unfolding send Engine.mss count_sent
send-IsSized now bytes e v =
    let e1 = record e { last_activity = now } in
    let w = IsSized-same e e1 refl (refl, refl) v.queue_fits v.buf_fits v in
    let m = merge_last e.config.stream_mode (Engine.mss e) bytes e.snd_queue in
    let merged =
      queue-IsSized e1 m.queue
        (merge_last-AllFit e.config.mtu e.config.stream_mode (Engine.mss e) bytes e.snd_queue
          (mss-le e v) v.queue_fits)
        w in
    elim (Bool-cases (is_empty bytes)) [
      | inl none_given ↦ rw none_given w
      | inr some_given ↦ elim (Bool-cases (is_empty m.rest)) [
        | inl all ↦
            rw (some_given, all)
              (IsSized-same _ _ refl (refl, refl) merged.queue_fits merged.buf_fits merged)
        | inr more ↦
            rw (some_given, more)
              (queue_fragments-IsSized now m.rest (record e1 { snd_queue = m.queue }) merged)
      ]
    ]
