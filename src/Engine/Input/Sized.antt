-- ===== src/Engine/Input/Sized.antt =====
-- What `input` (kcp-core/src/engine.rs) leaves of the sizes of what is to be sent and put out.
use rust_kcp.Base.{
  ℕ, zero, suc, ◌+◌, ◌≡◌, ◌≤◌, refl, ap, arith, List, length, Option-cases, Bool-cases, inl, inr,
  ltb, ◌==◌, take, is_neg, ℤ, if◌then◌else◌,
}
use rust_kcp.Protocol.{KcpSegment, size, header_size}
use rust_kcp.Protocol.Seq.{time_diff}
use rust_kcp.Protocol.Wire.{ByteCodec, decode, decode_header}
use rust_kcp.Engine.{KcpEngine}
use rust_kcp.Engine.Ack.{parse_una, parse_ack, parse_fastack, shrink_buf, not_in_flight, ack_push}
use rust_kcp.Protocol.Constants.{ikcp_cmd_ack, ikcp_cmd_push, ikcp_cmd_wask}
use rust_kcp.Engine.Ack.Keeps.{drop_before-All, remove_acked-All, bump_fastack-All}
use rust_kcp.Engine.Rtt.{update_ack}
use rust_kcp.Engine.Congestion.{update_cwnd}
use rust_kcp.Engine.Recv.{move_to_recv_queue, ask_tell}
use rust_kcp.Engine.Input.{
  AckTrack, no_ack, process, on_ack, on_push, parse_data, dispatch, input_loop, finish_input, input,
}
use rust_kcp.Engine.Flush.Packed.{AllFit, IsSized, IsSized-same}

fastack-size :
    (mtu n : ℕ) (seg : KcpSegment) → size seg ≤ mtu → size (record seg { fastack = n }) ≤ mtu
unfolding size
fastack-size mtu n seg h = h

-- The send side's data and the output are the same.
abbrev pub SameOutput : KcpEngine → KcpEngine → Type 0
SameOutput e e' =
    (e'.config ≡ e.config)
    × (e'.output_queue ≡ e.output_queue)
    × (e'.out_buf ≡ e.out_buf)
    × (e'.snd_queue ≡ e.snd_queue)
    × (e'.snd_buf ≡ e.snd_buf)

pub SameOutput-IsSized :
    {mtu : ℕ} (e e' : KcpEngine) → SameOutput e e' → IsSized mtu e → IsSized mtu e'
SameOutput-IsSized e e' (c, q, b, f, g) v =
    IsSized-same e e' (ap (λ x. x.mtu) c) (q, b) (rw f v.queue_fits) (rw g v.buf_fits) v

buf-IsSized :
    {mtu : ℕ} (e : KcpEngine) (buf : List KcpSegment)
    → AllFit e.config.mtu buf
    → IsSized mtu e
    → IsSized mtu (record e { snd_buf = buf })
buf-IsSized e buf f v = IsSized-same e _ refl (refl, refl) v.queue_fits f v

parse_ack-IsSized :
    {mtu : ℕ} (sn : ℕ) (e : KcpEngine) → IsSized mtu e → IsSized mtu (parse_ack sn e)
unfolding parse_ack
parse_ack-IsSized sn e v = elim (Bool-cases (not_in_flight sn e)) [
  | inl t ↦ rw (t, parse_ack) v
  | inr t ↦ rw (t, parse_ack) (buf-IsSized e _ (remove_acked-All _ sn e.snd_buf v.buf_fits) v)
]

parse_fastack-IsSized :
    {mtu : ℕ} (sn ts : ℕ) (e : KcpEngine) → IsSized mtu e → IsSized mtu (parse_fastack sn ts e)
unfolding parse_fastack
parse_fastack-IsSized sn ts e v = elim (Bool-cases (not_in_flight sn e)) [
  | inl t ↦ rw (t, parse_fastack) v
  | inr t ↦
      rw (t, parse_fastack)
        (buf-IsSized e _
          (bump_fastack-All _ sn ts e.snd_buf (λ n seg h. fastack-size e.config.mtu n seg h)
            v.buf_fits)
          v)
]

sampled-SameOutput :
    (rtt : ℤ) (e : KcpEngine) → SameOutput e (if is_neg rtt then e else update_ack rtt e)
unfolding update_ack
sampled-SameOutput rtt e = ground arith

on_ack-IsSized :
    {mtu : ℕ} (current : ℕ) (seg : KcpSegment) (e : KcpEngine)
    → IsSized mtu e
    → IsSized mtu (on_ack current seg e)
unfolding on_ack
on_ack-IsSized current seg e v =
    parse_ack-IsSized seg.header.sn _
      (SameOutput-IsSized e _ (sampled-SameOutput (time_diff current seg.header.ts) e) v)

on_push-SameOutput : (seg : KcpSegment) (e : KcpEngine) → SameOutput e (on_push seg e)
unfolding on_push parse_data move_to_recv_queue ack_push
on_push-SameOutput seg e = ground arith

dispatch-IsSized :
    {mtu : ℕ} (current : ℕ) (seg : KcpSegment) (e : KcpEngine) (t : AckTrack)
    → IsSized mtu e
    → IsSized mtu (dispatch current seg (e, t)).0
unfolding dispatch ask_tell
dispatch-IsSized current seg e t v = elim (Bool-cases (seg.header.cmd == ikcp_cmd_ack)) [
  | inl a ↦ rw (a, dispatch) (on_ack-IsSized current seg e v)
  | inr a ↦ elim (Bool-cases (seg.header.cmd == ikcp_cmd_push)) [
    | inl p ↦ rw (a, p, dispatch) (SameOutput-IsSized e _ (on_push-SameOutput seg e) v)
    | inr p ↦ elim (Bool-cases (seg.header.cmd == ikcp_cmd_wask)) [
      | inl w ↦ rw (a, p, w, dispatch) (SameOutput-IsSized e _ (refl, refl, refl, refl, refl) v)
      | inr w ↦ rw (a, p, w, dispatch) v
    ]
  ]
]

process-IsSized :
    {mtu : ℕ} (current : ℕ) (seg : KcpSegment) (e : KcpEngine) (t : AckTrack)
    → IsSized mtu e
    → IsSized mtu (process current seg (e, t)).0
unfolding process parse_una
process-IsSized current seg e t v = elim (Bool-cases (seg.header.conv == e.conv)) [
  | inr other ↦ rw (other, process) v
  | inl same ↦
      rw (same, process)
        (dispatch-IsSized current seg _ t (
          IsSized-same e _ refl (refl, refl) v.queue_fits
            (drop_before-All _ seg.header.una e.snd_buf v.buf_fits) v))
]

finish_input-IsSized :
    {mtu : ℕ} (una : ℕ) (e : KcpEngine) (t : AckTrack)
    → IsSized mtu e
    → IsSized mtu (finish_input una (e, t))
unfolding finish_input shrink_buf update_cwnd
finish_input-IsSized {mtu} una e t v =
    let e1 = shrink_buf e in
    let w1 = SameOutput-IsSized e e1 (refl, refl, refl, refl, refl) v in
    let e2 = if t.flag then parse_fastack t.max_ack t.latest_ts e1 else e1 in
    let w2 : IsSized mtu e2 = elim (Bool-cases t.flag) [
      | inl f ↦ rw f (parse_fastack-IsSized t.max_ack t.latest_ts e1 w1)
      | inr f ↦ rw f w1
    ] in
    SameOutput-IsSized e2 _ (ground arith) w2

module _ (codec : ByteCodec) where
  -- What each segment keeps, the loop keeps.
  pub input_loop_keeps {ℓ} :
      (P : KcpEngine → Type ℓ) (current : ℕ)
      → ((seg : KcpSegment) (d : KcpEngine) (u : AckTrack) → P d → P (process current seg (d, u)).0)
      → (fuel : ℕ) (buf : List ℕ) (e : KcpEngine) (t : AckTrack) → P e
      → P (input_loop codec current fuel buf (e, t)).0
  unfolding input_loop
  input_loop_keeps P current f zero buf e t v = v
  input_loop_keeps P current f (suc fuel) buf e t v =
      elim (Bool-cases (ltb (length buf) header_size)) [
        | inl short ↦ rw (short, input_loop) v
        | inr long ↦ elim (Option-cases (decode_header codec buf)) [
          | inl none_h ↦ rw (long, none_h, input_loop) v
          | inr ((h, rest), head) ↦ elim (Bool-cases (ltb (length buf) (header_size + h.len))) [
            | inl cut ↦ rw (long, head, cut, input_loop) v
            | inr full ↦ elim (Option-cases (decode codec (take (header_size + h.len) buf))) [
              | inl none_s ↦ rw (long, head, full, none_s, input_loop) v
              | inr (seg, whole) ↦
                  rw (long, head, full, whole, input_loop)
                    (input_loop_keeps P current f fuel _ (process current seg (e, t)).0
                      (process current seg (e, t)).1 (f seg e t v))
            ]
          ]
        ]
      ]

  pub input-IsSized :
      {mtu : ℕ} (current : ℕ) (bytes : List ℕ) (e : KcpEngine)
      → IsSized mtu e
      → IsSized mtu (input codec current bytes e).0
  unfolding input
  input-IsSized current bytes e v =
      let e' = record e { last_activity = current } in
      let w = SameOutput-IsSized e e' (refl, refl, refl, refl, refl) v in
      let s = input_loop codec current (length bytes) bytes (e', no_ack) in
      elim (Bool-cases (ltb (length bytes) header_size)) [
        | inl short ↦ rw short w
        | inr long ↦ rw long (
            finish_input-IsSized e.snd_una s.0 s.1 (
              input_loop_keeps (IsSized _) current (λ seg d u. process-IsSized current seg d u)
                (length bytes) bytes e' no_ack w))
      ]
