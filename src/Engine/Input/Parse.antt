-- ===== src/Engine/Input/Parse.antt =====
-- `input` on a datagram that consists of encoded segments (kcp-core/src/engine.rs).
use rust_kcp.Base.{
  ℕ, zero, suc, ◌+◌, ◌≤◌, ◌<◌, ◌≡◌, ◌≢◌, refl, ◌∙◌, arith, false, List, [], ◌∷◌, ◌++◌, append_assoc,
  length, length-append, take-append, drop-append, All, ltb, ge→ltb, lt→ltb,
}
use rust_kcp.Error.{ok, err, protocol, packet_too_small}
use rust_kcp.Protocol.{KcpSegment, header_size}
use rust_kcp.Protocol.Wire.{ByteCodec, IsSegment, received, encode, decode-encode, length-encode}
use rust_kcp.Engine.{KcpEngine}
use rust_kcp.Engine.Input.{AckTrack, no_ack, process, input_loop, finish_input, input}

-- Decoded segments, one after the other
abbrev pub process_all : ℕ → List KcpSegment → KcpEngine × AckTrack → KcpEngine × AckTrack
process_all current [] s = s
process_all current (seg ∷ segs) s = process_all current segs (process current (received seg) s)

module _ (codec : ByteCodec) where
  -- The datagram of some segments
  abbrev pub datagram : List KcpSegment → List ℕ
  datagram [] = []
  datagram (seg ∷ segs) = encode codec seg ++ datagram segs

  loop_step :
      (current fuel : ℕ) (seg : KcpSegment) (more : List ℕ) (s : KcpEngine × AckTrack)
      → IsSegment seg
      → input_loop codec current (suc fuel) (encode codec seg ++ more) s
        ≡ input_loop codec current fuel more (process current (received seg) s)
  unfolding input_loop
  loop_step current fuel seg more s v =
      let n = header_size + seg.header.len in
      let len : length (encode codec seg) ≡ n = omega (arith, length-encode codec seg, v.len_lem) in
      let (whole, head) = decode-encode codec seg more v in
      let all = length-append (encode codec seg) more in
      let long : ltb (length (encode codec seg ++ more)) header_size ≡ false =
        ge→ltb _ _ (omega (arith, all, len)) in
      let full : ltb (length (encode codec seg ++ more)) n ≡ false =
        ge→ltb _ _ (omega (arith, all, len)) in
      rw
        (
          long,
          head,
          full,
          take-append n (encode codec seg) more len,
          whole,
          drop-append n (encode codec seg) more len,
          input_loop,
        )
        refl

  -- Trailing bytes that are too few for a header are ignored.
  loop_end :
      (current fuel : ℕ) (rest : List ℕ) (s : KcpEngine × AckTrack)
      → length rest < header_size
      → input_loop codec current fuel rest s ≡ s
  unfolding input_loop
  loop_end current zero rest s h = refl
  loop_end current (suc fuel) rest s h = rw (lt→ltb _ _ h, input_loop) refl

  loop-datagram :
      (current fuel : ℕ) (segs : List KcpSegment) (rest : List ℕ) (s : KcpEngine × AckTrack)
      → All IsSegment segs
      → length rest < header_size
      → length (datagram segs) ≤ fuel
      → input_loop codec current fuel (datagram segs ++ rest) s ≡ process_all current segs s
  loop-datagram current fuel [] rest s v h f = loop_end current fuel rest s h
  loop-datagram current zero (seg ∷ segs) rest s v h f =
      absurd
        (omega (arith, length-append (encode codec seg) (datagram segs), length-encode codec seg))
  loop-datagram current (suc fuel) (seg ∷ segs) rest s v h f =
      rw (append_assoc (encode codec seg) (datagram segs) rest) (
        loop_step current fuel seg (datagram segs ++ rest) s v.0
        ∙ loop-datagram current fuel segs rest _ v.1 h (
            omega
              (arith, length-append (encode codec seg) (datagram segs), length-encode codec seg)))

  -- On the encodings of one or more well-formed segments, with fewer than 24 bytes behind them,
  -- input succeeds; it processes each of these segments, in order and nothing else, and then
  -- updates the send side once.
  pub input-datagram :
      (current : ℕ) (segs : List KcpSegment) (rest : List ℕ) (e : KcpEngine)
      → segs ≢ []
      → All IsSegment segs
      → length rest < header_size
      → input codec current (datagram segs ++ rest) e ≡ (
        finish_input e.snd_una
            (process_all current segs (record e { last_activity = current }, no_ack)),
        ok tt,
      )
  unfolding input
  input-datagram current [] rest e ne v h = absurd (ne refl)
  input-datagram current (seg ∷ segs) rest e ne v h =
      let bytes = datagram (seg ∷ segs) in
      let all = length-append bytes rest in
      let long : ltb (length (bytes ++ rest)) header_size ≡ false = ge→ltb _ _ (
        omega (
          arith,
          all,
          length-append (encode codec seg) (datagram segs),
          length-encode codec seg,
        )) in
      let fuel : length bytes ≤ length (bytes ++ rest) = omega (arith, all) in
      rw (long, loop-datagram current (length (bytes ++ rest)) (seg ∷ segs) rest _ v h fuel) refl

  -- A datagram that is shorter than a header is refused, and only the time of the last activity
  -- changes.
  pub input_short :
      (current : ℕ) (bytes : List ℕ) (e : KcpEngine)
      → length bytes < header_size
      → input codec current bytes e
        ≡ (record e { last_activity = current }, err (protocol packet_too_small))
  unfolding input
  input_short current bytes e h = rw (lt→ltb _ _ h) refl
