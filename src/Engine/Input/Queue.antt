-- ===== src/Engine/Input/Queue.antt =====
-- `input` (kcp-core/src/engine.rs) leaves the configuration, the send
-- queue and the conversation id alone.
use rust_kcp.Base.{ℕ, ◌≡◌, refl, ◌∙◌, arith, List, length, Bool-cases, inl, inr, ltb, ◌==◌}
use rust_kcp.Protocol.Constants.{ikcp_cmd_ack, ikcp_cmd_push, ikcp_cmd_wask}
use rust_kcp.Protocol.{KcpSegment, header_size}
use rust_kcp.Protocol.Wire.{ByteCodec}
use rust_kcp.Engine.{KcpEngine}
use rust_kcp.Engine.Ack.{parse_una, parse_ack, parse_fastack, shrink_buf, ack_push}
use rust_kcp.Engine.Rtt.{update_ack}
use rust_kcp.Engine.Congestion.{update_cwnd}
use rust_kcp.Engine.Recv.{move_to_recv_queue, ask_tell}
use rust_kcp.Engine.Input.{
  AckTrack, no_ack, process, on_ack, on_push, parse_data, dispatch, input_loop, finish_input, input,
  set_remote,
}
use rust_kcp.Engine.Input.Sized.{input_loop_keeps}

abbrev pub SameQueue : KcpEngine → KcpEngine → Type 0
SameQueue e e' = (e'.config ≡ e.config) × (e'.snd_queue ≡ e.snd_queue) × (e'.conv ≡ e.conv)

on_ack-SameQueue :
    (current : ℕ) (seg : KcpSegment) (e : KcpEngine) → SameQueue e (on_ack current seg e)
unfolding on_ack parse_ack update_ack shrink_buf
on_ack-SameQueue current seg e = ground arith

on_push-SameQueue : (seg : KcpSegment) (e : KcpEngine) → SameQueue e (on_push seg e)
unfolding on_push parse_data move_to_recv_queue ack_push
on_push-SameQueue seg e = ground arith

dispatch-SameQueue :
    (current : ℕ) (seg : KcpSegment) (e : KcpEngine) (t : AckTrack)
    → SameQueue e (dispatch current seg (e, t)).0
unfolding dispatch ask_tell
dispatch-SameQueue current seg e t =
    let a = on_ack-SameQueue current seg e in
    let p = on_push-SameQueue seg e in
    elim (Bool-cases (seg.header.cmd == ikcp_cmd_ack)) [
      | inl h ↦ rw (h, dispatch) a
      | inr h ↦ elim (Bool-cases (seg.header.cmd == ikcp_cmd_push)) [
        | inl i ↦ rw (h, i, dispatch) p
        | inr i ↦ elim (Bool-cases (seg.header.cmd == ikcp_cmd_wask)) [
          | inl j ↦ rw (h, i, j, dispatch) (refl, refl, refl)
          | inr j ↦ rw (h, i, j, dispatch) (refl, refl, refl)
        ]
      ]
    ]

process-SameQueue :
    (current : ℕ) (seg : KcpSegment) (e d : KcpEngine) (t : AckTrack)
    → SameQueue e d
    → SameQueue e (process current seg (d, t)).0
unfolding process parse_una set_remote
process-SameQueue current seg e d t v = elim (Bool-cases (seg.header.conv == d.conv)) [
  | inr other ↦ rw (other, process) v
  | inl same ↦
      let w =
        dispatch-SameQueue current seg (parse_una seg.header.una (set_remote seg.header.wnd d)) t in
      rw (same, process) (w.0 ∙ v.0, w.1 ∙ v.1, w.2 ∙ v.2)
]

finish_input-SameQueue :
    (una : ℕ) (e : KcpEngine) (t : AckTrack) → SameQueue e (finish_input una (e, t))
unfolding finish_input shrink_buf parse_fastack update_cwnd
finish_input-SameQueue una e t = ground arith

pub input-SameQueue :
    (codec : ByteCodec) (current : ℕ) (bytes : List ℕ) (e : KcpEngine)
    → SameQueue e (input codec current bytes e).0
unfolding input
input-SameQueue codec current bytes e =
    let e' = record e { last_activity = current } in
    let s = input_loop codec current (length bytes) bytes (e', no_ack) in
    elim (Bool-cases (ltb (length bytes) header_size)) [
      | inl short ↦ rw short (refl, refl, refl)
      | inr long ↦
          let v =
            input_loop_keeps codec (SameQueue e') current
              (λ seg d u w. process-SameQueue current seg e' d u w) (length bytes) bytes e' no_ack
              (refl, refl, refl) in
          let w = finish_input-SameQueue e.snd_una s.0 s.1 in
          rw long (w.0 ∙ v.0, w.1 ∙ v.1, w.2 ∙ v.2)
    ]
