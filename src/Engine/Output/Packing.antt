-- ===== src/Engine/Output/Packing.antt =====
-- Packing of segments into datagrams (`output_segment`, `flush_out_buf` of
-- kcp-core/src/engine.rs): nothing is lost and no datagram exceeds the MTU.
use rust_kcp.Base.{
  ℕ, ◌+◌, ◌≤◌, ◌≡◌, refl, arith, List, [], ◌∷◌, ◌++◌, length, length-append, All, All-append,
  concat, concat-append, ltb, is_empty, not, ◌&&◌, Bool-cases, inl, inr, append_assoc, append-nil,
  true, ltb→ge, ap, ◌∙◌, sym,
}
use rust_kcp.Protocol.{KcpSegment, size}
use rust_kcp.Protocol.Wire.{ByteCodec, encode, length-encode}
use rust_kcp.Engine.{KcpEngine}
use rust_kcp.Engine.Output.{split_out_buf, flush_out_buf, append_segment, output_segment}

-- All bytes that the engine has put out and not drained, the pending ones last
abbrev pub wire_bytes : KcpEngine → List ℕ
wire_bytes e = concat e.output_queue ++ e.out_buf

-- No datagram, nor the pending one, is longer than the MTU.
pub record IsPacked (e : KcpEngine) : Type 0 where
  pub queued : All (λ d. length d ≤ e.config.mtu) e.output_queue
  pub pending : length e.out_buf ≤ e.config.mtu

wire_bytes-split : (e : KcpEngine) → wire_bytes (split_out_buf e) ≡ wire_bytes e
unfolding split_out_buf
wire_bytes-split e =
    append-nil (concat (e.output_queue ++ e.out_buf ∷ []))
    ∙ concat-append e.output_queue (e.out_buf ∷ [])
    ∙ ap (◌++◌ (concat e.output_queue)) (append-nil e.out_buf)

pub wire_bytes-flush_out_buf : (e : KcpEngine) → wire_bytes (flush_out_buf e) ≡ wire_bytes e
unfolding flush_out_buf
wire_bytes-flush_out_buf e = elim (Bool-cases (is_empty e.out_buf)) [
  | inl t ↦ rw (t, flush_out_buf) refl
  | inr t ↦ rw (t, flush_out_buf) (wire_bytes-split e)
]

split_out_buf-IsPacked : (e : KcpEngine) → IsPacked e → IsPacked (split_out_buf e)
unfolding split_out_buf
split_out_buf-IsPacked e v = record {
  queued = All-append _ e.output_queue (e.out_buf ∷ []) v.queued (v.pending, tt);
  pending = omega arith;
}

is_empty-nil : (bytes : List ℕ) → is_empty bytes ≡ true → bytes ≡ []
is_empty-nil [] h = refl
is_empty-nil (b ∷ bs) h = absurd (cc)

module _ (codec : ByteCodec) where
  wire_bytes-append_segment :
      (seg : KcpSegment) (e : KcpEngine)
      → wire_bytes (append_segment codec seg e) ≡ wire_bytes e ++ encode codec seg
  unfolding append_segment
  wire_bytes-append_segment seg e =
      sym (append_assoc (concat e.output_queue) e.out_buf (encode codec seg))

  -- `output_segment` appends the segment's encoding to what the engine puts out and changes none
  -- of the bytes before it.
  pub wire_bytes-output_segment :
      (seg : KcpSegment) (e : KcpEngine)
      → wire_bytes (output_segment codec seg e) ≡ wire_bytes e ++ encode codec seg
  unfolding output_segment
  wire_bytes-output_segment seg e =
      elim (Bool-cases
        (ltb e.config.mtu (length e.out_buf + size seg) && not (is_empty e.out_buf))) [
          | inl t ↦
              rw (t, output_segment)
                (wire_bytes-append_segment seg (split_out_buf e)
                  ∙ ap (λ bs. bs ++ encode codec seg) (wire_bytes-split e))
          | inr t ↦ rw (t, output_segment) (wire_bytes-append_segment seg e)
        ]

  append_segment-IsPacked :
      (seg : KcpSegment) (e : KcpEngine)
      → length e.out_buf + size seg ≤ e.config.mtu
      → IsPacked e
      → IsPacked (append_segment codec seg e)
  unfolding append_segment size
  append_segment-IsPacked seg e h v = record {
    queued = v.queued;
    pending = omega (arith, length-append e.out_buf (encode codec seg), length-encode codec seg);
  }

  -- When every datagram is within the MTU, a segment that fits the MTU leaves every datagram
  -- within it.
  pub output_segment-IsPacked :
      (seg : KcpSegment) (e : KcpEngine)
      → size seg ≤ e.config.mtu
      → IsPacked e
      → IsPacked (output_segment codec seg e)
  unfolding output_segment
  output_segment-IsPacked seg e h v =
      elim (Bool-cases (ltb e.config.mtu (length e.out_buf + size seg))) [
        | inl t ↦ elim (Bool-cases (is_empty e.out_buf)) [
          | inl n ↦
              rw (t, n, output_segment)
                (append_segment-IsPacked seg e (omega (arith, ap length (is_empty-nil e.out_buf n)))
                  v)
          | inr n ↦
              rw (t, n, output_segment)
                (append_segment-IsPacked seg (split_out_buf e) (unfold split_out_buf in omega arith)
                  (split_out_buf-IsPacked e v))
        ]
        | inr t ↦ rw (t, output_segment) (append_segment-IsPacked seg e (ltb→ge _ _ t) v)
      ]

  -- What else the packing leaves alone
  pub output_segment_keeps :
      (seg : KcpSegment) (e : KcpEngine)
      → let e' = output_segment codec seg e in
        (e'.config ≡ e.config)
        × (e'.snd_buf ≡ e.snd_buf)
        × (e'.snd_queue ≡ e.snd_queue)
        × (e'.dead_link ≡ e.dead_link)
  unfolding output_segment
  output_segment_keeps seg e =
      elim (Bool-cases
        (ltb e.config.mtu (length e.out_buf + size seg) && not (is_empty e.out_buf))) [
          | inl t ↦ rw (t, output_segment) (refl, refl, refl, refl)
          | inr t ↦ rw (t, output_segment) (refl, refl, refl, refl)
        ]
