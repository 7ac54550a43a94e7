-- ===== src/Engine/Flush/Acks.antt =====
-- `flush_acks` (kcp-core/src/engine.rs): what is acknowledged to the peer.
use rust_kcp.Base.{
  ℕ, arith, ◌+◌, ◌-◌, ◌%◌, ◌^◌, ◌≡◌, refl, sym, ap, ◌∙◌, List, [], ◌∷◌, ◌++◌, append_assoc,
  append-nil, length, map, ltb, is_empty, not, ◌&&◌, Bool-cases, inl, inr, u16,
}
use rust_kcp.Protocol.{KcpSegment, size, ack}
use rust_kcp.Protocol.Wire.{ByteCodec, encode}
use rust_kcp.Engine.{KcpEngine, wnd_unused}
use rust_kcp.Engine.Output.{output_segment}
use rust_kcp.Engine.Output.Packing.{wire_bytes, wire_bytes-output_segment}
use rust_kcp.Engine.Input.Parse.{datagram}
use rust_kcp.Engine.Flush.{ack_segment, output_acks, flush_acks}

-- The acknowledgement of segment `sn`, sent at `ts`, as a segment without data
abbrev pub acknowledgement : ℕ → ℕ → ℕ → ℕ × ℕ → KcpSegment
acknowledgement conv free expected (sn, ts) = record {
  header = record {
    conv = conv;
    cmd = 82;
    frg = 0;
    wnd = free;
    ts = ts;
    sn = sn;
    una = expected;
    len = 0;
  };
  payload = [];
  resendts = 0;
  rto = 200;
  fastack = 0;
  xmit = 0;
}

ack_segment-eq :
    (now conv free expected : ℕ) (acks : List (ℕ × ℕ))
    → map (ack_segment now conv free expected) acks ≡ map (acknowledgement conv free expected) acks
unfolding ack_segment ack
ack_segment-eq now conv free expected [] = refl
ack_segment-eq now conv free expected ((sn, ts) ∷ acks) =
    ap (◌∷◌ (acknowledgement conv free expected (sn, ts)))
      (ack_segment-eq now conv free expected acks)

free_window : (e : KcpEngine) → u16 (wnd_unused e) ≡ (e.wnd.rcv - length e.rcv_queue) % 2 ^ 16
unfolding wnd_unused
free_window e = ground arith

module _ (codec : ByteCodec) where
  output_segment_state :
      (seg : KcpSegment) (e : KcpEngine)
      → let e' = output_segment codec seg e in (e'.conv ≡ e.conv) × (e'.ack_list ≡ e.ack_list)
  unfolding output_segment
  output_segment_state seg e =
      elim (Bool-cases
        (ltb e.config.mtu (length e.out_buf + size seg) && not (is_empty e.out_buf))) [
          | inl t ↦ rw (t, output_segment) (refl, refl)
          | inr t ↦ rw (t, output_segment) (refl, refl)
        ]

  output_acks_lem :
      (now wnd una : ℕ) (acks : List (ℕ × ℕ)) (e : KcpEngine)
      → let e' = output_acks codec now wnd una acks e in
        (wire_bytes e' ≡ wire_bytes e ++ datagram codec (map (ack_segment now e.conv wnd una) acks))
        × (e'.ack_list ≡ e.ack_list)
  unfolding output_acks
  output_acks_lem now wnd una [] e = (sym (append-nil (wire_bytes e)), refl)
  output_acks_lem now wnd una (a ∷ acks) e =
      let seg = ack_segment now e.conv wnd una a in
      let e1 = output_segment codec seg e in
      let (c, l) = output_segment_state seg e in
      let rest = output_acks_lem now wnd una acks e1 in
      (
        rest.0
            ∙ ap (λ n. wire_bytes e1 ++ datagram codec (map (ack_segment now n wnd una) acks)) c
            ∙ ap (λ bs. bs ++ datagram codec (map (ack_segment now e.conv wnd una) acks))
                (wire_bytes-output_segment codec seg e)
            ∙ append_assoc (wire_bytes e) (encode codec seg) _,
        rest.1 ∙ l,
      )

  -- `flush_acks` puts out, behind what waits, exactly one acknowledgement for each received
  -- segment on the list, in order, with its number and its time stamp, the room that the receive
  -- queue has in its window (its low 16 bits) and the number that is expected, and empties the
  -- list.
  pub flush_acks_lem :
      (now : ℕ) (e : KcpEngine)
      → let e' = flush_acks codec now e in
        (wire_bytes e'
          ≡ wire_bytes e
            ++ datagram codec (
                map
                  (acknowledgement e.conv ((e.wnd.rcv - length e.rcv_queue) % 2 ^ 16) e.rcv_nxt)
                  e.ack_list))
        × (e'.ack_list ≡ [])
  unfolding flush_acks
  flush_acks_lem now e =
      let una = e.rcv_nxt in
      let (bytes, none_left) =
        output_acks_lem now (u16 (wnd_unused e)) una e.ack_list (record e { ack_list = [] }) in
      (
        bytes
            ∙ ap (λ segs. wire_bytes e ++ datagram codec segs)
                (ack_segment-eq now e.conv (u16 (wnd_unused e)) una e.ack_list)
            ∙ ap
                (λ free.
                  wire_bytes e ++ datagram codec (map (acknowledgement e.conv free una) e.ack_list))
                (free_window e),
        none_left,
      )
