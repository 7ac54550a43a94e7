-- ===== src/Engine/Sending/Acking.antt =====
-- `input` and `recv` (kcp-core/src/engine.rs) leave the numbers and the payloads of what is in
-- flight alone.
use rust_kcp.Base.{
  ℕ, refl, arith, List, length, Bool-cases, inl, inr, ltb, ◌==◌, is_neg, ℤ, if◌then◌else◌, is_pos,
  nonneg_part, [], ◌∷◌,
}
use rust_kcp.Protocol.{KcpSegment, header_size}
use rust_kcp.Protocol.Constants.{ikcp_cmd_ack, ikcp_cmd_push, ikcp_cmd_wask}
use rust_kcp.Protocol.Seq.{time_diff}
use rust_kcp.Protocol.Wire.{ByteCodec}
use rust_kcp.Engine.{KcpEngine}
use rust_kcp.Engine.Ack.{parse_una, parse_ack, parse_fastack, shrink_buf, not_in_flight, ack_push}
use rust_kcp.Engine.Ack.Keeps.{drop_before-All, remove_acked-All, bump_fastack-All}
use rust_kcp.Engine.Rtt.{update_ack}
use rust_kcp.Engine.Congestion.{update_cwnd}
use rust_kcp.Engine.Recv.{move_to_recv_queue, ask_tell, assemble, peek_size, deliver, recv}
use rust_kcp.Engine.Input.{
  AckTrack, no_ack, process, on_ack, on_push, parse_data, dispatch, input_loop, finish_input, input,
  set_remote,
}
use rust_kcp.Engine.Input.Sized.{input_loop_keeps}
use rust_kcp.Engine.Sending.{KeepsLog, SameSending, SameSending-KeepsLog, buf-KeepsLog}

module _ (codec : ByteCodec) where
  sampled-SameSending :
      (rtt : ℤ) (e : KcpEngine) → SameSending codec e (if is_neg rtt then e else update_ack rtt e)
  unfolding update_ack
  sampled-SameSending rtt e = ground arith

  on_push-SameSending : (seg : KcpSegment) (e : KcpEngine) → SameSending codec e (on_push seg e)
  unfolding on_push parse_data move_to_recv_queue ack_push
  on_push-SameSending seg e = ground arith

  deliver-SameSending :
      (e : KcpEngine) (bytes : List ℕ) (queue : List KcpSegment)
      → SameSending codec e (deliver e bytes queue).0
  unfolding deliver move_to_recv_queue ask_tell
  deliver-SameSending e [] queue = (refl, refl, refl, refl, refl)
  deliver-SameSending e (b ∷ bs) queue = ground arith

  pub recv-SameSending : (e : KcpEngine) → SameSending codec e (recv e).0
  unfolding recv
  recv-SameSending e =
      let limit = nonneg_part (peek_size e.rcv_queue) in
      let taken = assemble limit [] e.rcv_queue in
      elim (Bool-cases (is_pos (peek_size e.rcv_queue))) [
        | inl t ↦ rw (t, recv) (deliver-SameSending e taken.0 taken.1)
        | inr t ↦ rw (t, recv) (refl, refl, refl, refl, refl)
      ]

  module _ {log : List (List ℕ)} {queue : List KcpSegment} where
    parse_ack-KeepsLog :
        (sn : ℕ) (e : KcpEngine)
        → KeepsLog codec log queue e
        → KeepsLog codec log queue (parse_ack sn e)
    unfolding parse_ack
    parse_ack-KeepsLog sn e v = elim (Bool-cases (not_in_flight sn e)) [
      | inl t ↦ rw (t, parse_ack) v
      | inr t ↦
          rw (t, parse_ack) (buf-KeepsLog codec e _ (remove_acked-All _ sn e.snd_buf v.in_flight) v)
    ]

    parse_fastack-KeepsLog :
        (sn ts : ℕ) (e : KcpEngine)
        → KeepsLog codec log queue e
        → KeepsLog codec log queue (parse_fastack sn ts e)
    unfolding parse_fastack
    parse_fastack-KeepsLog sn ts e v = elim (Bool-cases (not_in_flight sn e)) [
      | inl t ↦ rw (t, parse_fastack) v
      | inr t ↦
          rw (t, parse_fastack)
            (buf-KeepsLog codec e _ (bump_fastack-All _ sn ts e.snd_buf (λ n seg l. l) v.in_flight)
              v)
    ]

    on_ack-KeepsLog :
        (current : ℕ) (seg : KcpSegment) (e : KcpEngine)
        → KeepsLog codec log queue e
        → KeepsLog codec log queue (on_ack current seg e)
    unfolding on_ack shrink_buf
    on_ack-KeepsLog current seg e v =
        SameSending-KeepsLog codec _ _ (refl, refl, refl, refl, refl)
          (parse_ack-KeepsLog seg.header.sn _ (
            SameSending-KeepsLog codec e _ (sampled-SameSending (time_diff current seg.header.ts) e)
              v))

    dispatch-KeepsLog :
        (current : ℕ) (seg : KcpSegment) (e : KcpEngine) (t : AckTrack)
        → KeepsLog codec log queue e
        → KeepsLog codec log queue (dispatch current seg (e, t)).0
    unfolding dispatch ask_tell
    dispatch-KeepsLog current seg e t v = elim (Bool-cases (seg.header.cmd == ikcp_cmd_ack)) [
      | inl a ↦ rw (a, dispatch) (on_ack-KeepsLog current seg e v)
      | inr a ↦ elim (Bool-cases (seg.header.cmd == ikcp_cmd_push)) [
        | inl p ↦ rw (a, p, dispatch) (SameSending-KeepsLog codec e _ (on_push-SameSending seg e) v)
        | inr p ↦ elim (Bool-cases (seg.header.cmd == ikcp_cmd_wask)) [
          | inl w ↦
              rw (a, p, w, dispatch)
                (SameSending-KeepsLog codec e _ (refl, refl, refl, refl, refl) v)
          | inr w ↦ rw (a, p, w, dispatch) v
        ]
      ]
    ]

    process-KeepsLog :
        (current : ℕ) (seg : KcpSegment) (e : KcpEngine) (t : AckTrack)
        → KeepsLog codec log queue e
        → KeepsLog codec log queue (process current seg (e, t)).0
    unfolding process parse_una set_remote
    process-KeepsLog current seg e t v = elim (Bool-cases (seg.header.conv == e.conv)) [
      | inr other ↦ rw (other, process) v
      | inl same ↦
          rw (same, process)
            (dispatch-KeepsLog current seg _ t (
              SameSending-KeepsLog codec _ _ (refl, refl, refl, refl, refl)
                (buf-KeepsLog codec e _ (drop_before-All _ seg.header.una e.snd_buf v.in_flight)
                  v)))
    ]

    finish_input-KeepsLog :
        (una : ℕ) (e : KcpEngine) (t : AckTrack)
        → KeepsLog codec log queue e
        → KeepsLog codec log queue (finish_input una (e, t))
    unfolding finish_input shrink_buf update_cwnd
    finish_input-KeepsLog una e t v =
        let e1 = shrink_buf e in
        let w1 = SameSending-KeepsLog codec e e1 (refl, refl, refl, refl, refl) v in
        let e2 = if t.flag then parse_fastack t.max_ack t.latest_ts e1 else e1 in
        let w2 : KeepsLog codec log queue e2 = elim (Bool-cases t.flag) [
          | inl f ↦ rw f (parse_fastack-KeepsLog t.max_ack t.latest_ts e1 w1)
          | inr f ↦ rw f w1
        ] in
        SameSending-KeepsLog codec e2 _ (ground arith) w2

    pub input-KeepsLog :
        (current : ℕ) (bytes : List ℕ) (e : KcpEngine)
        → KeepsLog codec log queue e
        → KeepsLog codec log queue (input codec current bytes e).0
    unfolding input
    input-KeepsLog current bytes e v =
        let e' = record e { last_activity = current } in
        let w = SameSending-KeepsLog codec e e' (refl, refl, refl, refl, refl) v in
        let s = input_loop codec current (length bytes) bytes (e', no_ack) in
        elim (Bool-cases (ltb (length bytes) header_size)) [
          | inl short ↦ rw short w
          | inr long ↦ rw long (
              finish_input-KeepsLog e.snd_una s.0 s.1 (
                input_loop_keeps codec (KeepsLog codec log queue) current
                  (λ seg d u x. process-KeepsLog current seg d u x) (length bytes) bytes e' no_ack
                  w))
        ]
