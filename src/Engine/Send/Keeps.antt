-- ===== src/Engine/Send/Keeps.antt =====
-- What `send` (kcp-core/src/engine.rs) leaves of a property of the queued segments.
use rust_kcp.Base.{
  ℕ, zero, suc, ◌+◌, ◌-◌, min, Bool, true, false, List, [], ◌∷◌, ◌++◌, length, All, All-append,
  take, drop, split_back, ltb, is_empty, Bool-cases, Option-cases, inl, inr, subst,
}
use rust_kcp.Protocol.{KcpSegment}
use rust_kcp.Engine
use rust_kcp.Engine.{KcpEngine}
use rust_kcp.Engine.Send.{
  extend_segment, merge_into, merge_last, fragment, fragment_loop, fragment_count, max_frags,
  count_sent, queue_fragments, send,
}
use rust_kcp.Engine.Send.Stream.{split_back_lem}

module _ {ℓ} (P : KcpSegment → Type ℓ)
    (cut : (now conv : ℕ) (stream : Bool) (count i : ℕ) (bytes : List ℕ)
      → P (fragment now conv stream count i bytes))
    (extended : (last : KcpSegment) (bytes : List ℕ) → P (extend_segment last bytes)) where
  fragment_loop-All :
      (rounds now conv : ℕ) (stream : Bool) (count mss i offset : ℕ) (bytes : List ℕ)
      (queue : List KcpSegment)
      → All P queue
      → All P (fragment_loop rounds now conv stream count mss i offset bytes queue)
  unfolding fragment_loop
  fragment_loop-All zero now conv stream count mss i offset bytes queue f = f
  fragment_loop-All (suc rounds) now conv stream count mss i offset bytes queue f =
      let n = min mss (length bytes - offset) in
      fragment_loop-All rounds now conv stream count mss (i + 1) (offset + n) bytes _
        (All-append P queue _ f (cut now conv stream count i (take n (drop offset bytes)), tt))

  All-front : (xs ys : List KcpSegment) → All P (xs ++ ys) → All P xs
  All-front [] ys f = tt
  All-front (x ∷ xs) ys f = (f.0, All-front xs ys f.1)

  merge_last-All :
      (stream : Bool) (mss : ℕ) (bytes : List ℕ) (queue : List KcpSegment)
      → All P queue
      → All P (merge_last stream mss bytes queue).queue
  unfolding merge_last merge_into
  merge_last-All false mss bytes queue f = f
  merge_last-All true mss bytes queue f = elim (Option-cases (split_back queue)) [
    | inl e ↦ rw (e, merge_into) f
    | inr ((front, last), e) ↦ elim (Bool-cases (ltb (length last.payload) mss)) [
      | inr full ↦ rw (e, full, merge_into) f
      | inl room ↦
          rw (e, room, merge_into)
            (All-append P front _
              (All-front front _ (subst (All P) (split_back_lem queue front last e) f))
              (extended last _, tt))
    ]
  ]

  pub send-All :
      (now : ℕ) (bytes : List ℕ) (e : KcpEngine)
      → All P e.snd_queue
      → All P (send now bytes e).0.snd_queue
  unfolding send queue_fragments count_sent merge_last Engine.mss
  send-All now bytes e f =
      let m = merge_last e.config.stream_mode (Engine.mss e) bytes e.snd_queue in
      let g = merge_last-All e.config.stream_mode (Engine.mss e) bytes e.snd_queue f in
      let count = fragment_count (Engine.mss e) (length m.rest) in
      elim (Bool-cases (is_empty bytes)) [
        | inl t ↦ rw (t, send) f
        | inr t ↦ elim (Bool-cases (is_empty m.rest)) [
          | inl u ↦ rw (t, u, send) g
          | inr u ↦ elim (Bool-cases (ltb (max_frags e) count)) [
            | inl w ↦ rw (t, u, send, queue_fragments) (unfold max_frags in rw w g)
            | inr w ↦
                rw (t, u, send, queue_fragments)
                  (unfold max_frags in
                    rw w (
                      fragment_loop-All count now e.conv e.config.stream_mode count (Engine.mss e) 0
                        0 m.rest m.queue g))
          ]
        ]
      ]
