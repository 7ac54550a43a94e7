-- ===== src/Engine/Transmit/Marking.antt =====
-- The scan of the send buffer (`mark_segments_for_send` of kcp-core/src/engine.rs) and the sending
-- loop behind it.
use rust_kcp.Base.{
  ℕ, zero, suc, ◌+◌, ◌-◌, ◌≤◌, ◌<◌, ◌^◌, ◌≡◌, ◌≢◌, refl, sym, ap, ◌∙◌, subst, arith, Bool, List, [],
  ◌∷◌, length, All, Option, none, some, Option-cases, Bool-cases, inl, inr, ◌⊎◌, get_elem?, ltb,
  leb, leb→le, leb→gt,
}
use rust_kcp.Error.{KcpCoreResult, ok, err, connection_lost}
use rust_kcp.Protocol.{KcpSegment}
use rust_kcp.Protocol.Wire.{ByteCodec}
use rust_kcp.Engine.{KcpEngine}
use rust_kcp.Engine.Output.{output_segment}
use rust_kcp.Engine.Output.Packing.{output_segment_keeps}
use rust_kcp.Engine.Transmit.{
  Reason, first, timeout, fast, reason, MarkContext, arm, Marked, mark_one, mark_loop, send_marked,
  mark_segments_for_send, flush_data_segments, after_sending, mark_context, resend_threshold,
  first_delay,
}

-- What the scan keeps of a segment: its number, its place in a message and its bytes
abbrev pub SameData : List KcpSegment → List KcpSegment → Type 0
SameData [] [] = Unit {0}
SameData [] (y ∷ ys) = ⊥
SameData (x ∷ xs) [] = ⊥
SameData (x ∷ xs) (y ∷ ys) =
    (y.header.sn ≡ x.header.sn)
    × (y.header.frg ≡ x.header.frg)
    × (y.payload ≡ x.payload)
    × SameData xs ys

mark_one-data :
    (c : MarkContext) (i : ℕ) (seg : KcpSegment) (r : Option Reason) (m : Marked)
    (segs : List KcpSegment)
    → SameData segs m.segments
    → SameData (seg ∷ segs) (mark_one c i seg r m).segments
unfolding mark_one
mark_one-data c i seg none m segs h = (refl, refl, refl, h)
mark_one-data c i seg (some first) m segs h = (refl, refl, refl, h)
mark_one-data c i seg (some timeout) m segs h = (refl, refl, refl, h)
mark_one-data c i seg (some fast) m segs h = (refl, refl, refl, h)

-- The scan of the send buffer changes no segment's number, fragment number or bytes, and loses
-- none.
pub mark_loop-SameData :
    (c : MarkContext) (i : ℕ) (segs : List KcpSegment) → SameData segs (mark_loop c i segs).segments
unfolding mark_loop mark_one
mark_loop-SameData c i [] = tt
mark_loop-SameData c i (seg ∷ segs) =
    mark_one-data c i seg (reason c.current c.resend seg) (mark_loop c (i + 1) segs) segs
      (mark_loop-SameData c (i + 1) segs)

arm-sent :
    (c : MarkContext) (seg : KcpSegment) (r : Reason)
    → seg.xmit < 2 ^ 32 - 1
    → 1 ≤ (arm c r seg).xmit
unfolding arm
arm-sent c seg first h = omega arith
arm-sent c seg timeout h = omega arith
arm-sent c seg fast h = omega arith

reason-none :
    (current resend : ℕ) (seg : KcpSegment) → reason current resend seg ≡ none → 1 ≤ seg.xmit
unfolding reason
reason-none current resend seg h = ground arith

mark_one-sent :
    (c : MarkContext) (i : ℕ) (seg : KcpSegment) (r : Option Reason) (m : Marked)
    → reason c.current c.resend seg ≡ r
    → seg.xmit < 2 ^ 32 - 1
    → All (λ s. 1 ≤ s.xmit) m.segments
    → All (λ s. 1 ≤ s.xmit) (mark_one c i seg r m).segments
unfolding mark_one
mark_one-sent c i seg none m q h a = (reason-none c.current c.resend seg q, a)
mark_one-sent c i seg (some r) m q h a = (arm-sent c seg r h, a)

-- After the scan no segment is left that was never sent, when no segment's 32-bit counter of
-- transmissions is at its end before.
pub mark_loop-sent :
    (c : MarkContext) (i : ℕ) (segs : List KcpSegment)
    → All (λ s. s.xmit < 2 ^ 32 - 1) segs
    → All (λ s. 1 ≤ s.xmit) (mark_loop c i segs).segments
unfolding mark_loop mark_one
mark_loop-sent c i [] h = tt
mark_loop-sent c i (seg ∷ segs) h =
    mark_one-sent c i seg (reason c.current c.resend seg) (mark_loop c (i + 1) segs) refl h.0
      (mark_loop-sent c (i + 1) segs h.1)

mark_one-indices :
    (c : MarkContext) (i hi : ℕ) (seg : KcpSegment) (r : Option Reason) (m : Marked)
    → i < hi
    → All (λ j. j < hi) m.indices
    → All (λ j. j < hi) (mark_one c i seg r m).indices
unfolding mark_one
mark_one-indices c i hi seg none m h a = a
mark_one-indices c i hi seg (some r) m h a = (h, a)

mark_one-length :
    (c : MarkContext) (i : ℕ) (seg : KcpSegment) (r : Option Reason) (m : Marked)
    → length (mark_one c i seg r m).segments ≡ suc (length m.segments)
unfolding mark_one
mark_one-length c i seg none m = refl
mark_one-length c i seg (some r) m = refl

mark_loop-length :
    (c : MarkContext) (i : ℕ) (segs : List KcpSegment)
    → length (mark_loop c i segs).segments ≡ length segs
unfolding mark_loop mark_one
mark_loop-length c i [] = refl
mark_loop-length c i (seg ∷ segs) =
    mark_one-length c i seg (reason c.current c.resend seg) _
    ∙ ap suc (mark_loop-length c (i + 1) segs)

-- The scan names only places of the buffer.
pub mark_loop-indices :
    (c : MarkContext) (i hi : ℕ) (segs : List KcpSegment)
    → i + length segs ≤ hi
    → All (λ j. j < hi) (mark_loop c i segs).indices
unfolding mark_loop mark_one
mark_loop-indices c i hi [] h = tt
mark_loop-indices c i hi (seg ∷ segs) h =
    mark_one-indices c i hi seg (reason c.current c.resend seg) (mark_loop c (i + 1) segs)
      (omega arith) (mark_loop-indices c (i + 1) hi segs (omega arith))

-- How the sending loop ends: at the end of the list, when no segment that it sent has reached the
-- limit, or at the first one that has.
abbrev pub Sent : List KcpSegment → ℕ → List ℕ → KcpCoreResult (Unit {0}) → Type 0
Sent buf dead is r =
    ((r ≡ ok tt) × All (λ i. (seg : KcpSegment) → get_elem? buf i ≡ some seg → seg.xmit < dead) is)
    ⊎ ((r ≡ err connection_lost)
        × ((i : ℕ) × (seg : KcpSegment) × (get_elem? buf i ≡ some seg) × (dead ≤ seg.xmit)))

same_segment : (x y : KcpSegment) → some x ≡ some y → x ≡ y
same_segment x y h = cc

Sent-step :
    (buf : List KcpSegment) (dead i : ℕ) (is : List ℕ) (seg : KcpSegment)
    (r : KcpCoreResult (Unit {0}))
    → get_elem? buf i ≡ some seg
    → seg.xmit < dead
    → Sent buf dead is r
    → Sent buf dead (i ∷ is) r
Sent-step buf dead i is seg r g h (inl (q, a)) =
    inl (q, ((λ s g'. subst (λ o. o.xmit < dead) (same_segment seg s (sym g ∙ g')) h), a))
Sent-step buf dead i is seg r g h (inr x) = inr x

get_elem?-none : (buf : List KcpSegment) (i : ℕ) → i < length buf → get_elem? buf i ≢ none
get_elem?-none [] i h q = absurd (omega arith)
get_elem?-none (x ∷ xs) zero h q = absurd (cc)
get_elem?-none (x ∷ xs) (suc i) h q = get_elem?-none xs i (omega arith) q

module _ (codec : ByteCodec) where
  send_marked-Sent :
      (is : List ℕ) (e : KcpEngine) (buf : List KcpSegment) (dead : ℕ)
      → e.snd_buf ≡ buf
      → e.dead_link ≡ dead
      → All (λ i. i < length buf) is
      → Sent buf dead is (send_marked codec is e).1
  unfolding send_marked
  send_marked-Sent [] e buf dead b d h = inl (refl, tt)
  send_marked-Sent (i ∷ is) e buf dead b d h = elim (Option-cases (get_elem? e.snd_buf i)) [
    | inl n ↦ absurd (get_elem?-none buf i h.0 (subst (λ x. get_elem? x i ≡ none) b n))
    | inr (seg, g) ↦ elim (Bool-cases (leb e.dead_link seg.xmit)) [
      | inl t ↦
          rw (g, t, send_marked)
            (inr (
              refl,
              (
                i,
                seg,
                subst (λ x. get_elem? x i ≡ some seg) b g,
                subst (λ x. x ≤ seg.xmit) d (leb→le _ _ t),
              ),
            ))
      | inr t ↦
          rw (g, t, send_marked)
            (Sent-step buf dead i is seg _ (subst (λ x. get_elem? x i ≡ some seg) b g)
              (subst (λ x. seg.xmit < x) d (leb→gt _ _ t))
              (send_marked-Sent is (output_segment codec seg e) buf dead
                ((output_segment_keeps codec seg e).1 ∙ b)
                ((output_segment_keeps codec seg e).3 ∙ d) h.1))
    ]
  ]

  after_sending-result :
      (lost change : Bool) (resend : ℕ) (x : KcpEngine × KcpCoreResult (Unit {0}))
      → (after_sending lost change resend x).1 ≡ x.1
  after_sending-result lost change resend (e, ok u) = refl
  after_sending-result lost change resend (e, err x) = refl

  -- A round of sending returns Ok, and then no segment that the scan chose has been sent as often
  -- as dead_link allows, or it returns ConnectionLost, and then one segment of the buffer has
  -- been; it has no other error.
  pub flush_data_segments_lem :
      (current : ℕ) (e : KcpEngine)
      → let m =
          mark_loop (mark_context current (resend_threshold e) (first_delay e) e) 0 e.snd_buf in
        Sent m.segments e.dead_link m.indices (flush_data_segments codec current e).1
  unfolding flush_data_segments mark_segments_for_send
  flush_data_segments_lem current e =
      let c = mark_context current (resend_threshold e) (first_delay e) e in
      let m = mark_loop c 0 e.snd_buf in
      let e' = (mark_segments_for_send current (resend_threshold e) (first_delay e) e).0 in
      subst (Sent m.segments e.dead_link m.indices)
        (sym (
          after_sending-result (ltb 0 m.timeouts) (ltb 0 m.fasts) (resend_threshold e)
            (send_marked codec m.indices e')))
        (send_marked-Sent m.indices e' m.segments e.dead_link refl refl (
          mark_loop-indices c 0 (length m.segments) e.snd_buf
            (omega (arith, mark_loop-length c 0 e.snd_buf))))
