-- ===== src/Engine/Flush/Leaves.antt =====
-- What `flush` of kcp-core/src/engine.rs leaves alone: the receive side, the configuration, the
-- conversation id and the time of the last activity. The send queue only gets shorter.
use rust_kcp.Base.{
  ℕ, ◌-◌, ◌≤◌, ◌≡◌, refl, ◌∙◌, if◌then◌else◌, arith, Bool, List, [], ◌∷◌, ◌++◌, length,
  Option-cases, Bool-cases, inl, inr, get_elem?, leb, ltb, ◌==◌, bit_and, is_empty, is_neg, add32,
}
use rust_kcp.Error.{KcpCoreResult, ok, err}
use rust_kcp.Protocol.{KcpSegment}
use rust_kcp.Protocol.Constants.{ikcp_ask_send, ikcp_ask_tell, ikcp_cmd_wask, ikcp_cmd_wins}
use rust_kcp.Protocol.Seq.{time_diff}
use rust_kcp.Protocol.Wire.{ByteCodec}
use rust_kcp.Engine.{KcpEngine}
use rust_kcp.Engine.Recv.{recv_state}
use rust_kcp.Engine.Input.Receiver.{SameReceiver}
use rust_kcp.Engine.Output.{flush_out_buf, output_segment, append_segment, split_out_buf}
use rust_kcp.Engine.Congestion.{
  update_congestion_on_loss, update_congestion_control, on_lost, on_change, reset_cwnd,
}
use rust_kcp.Engine.Probe.{
  schedule_probe, create_probe_segment, send_probe, clear_flags, handle_window_probe,
}
use rust_kcp.Engine.SendBuf.{send_window, launch, launch_loop, move_to_send_buf}
use rust_kcp.Engine.Transmit.{
  mark_loop, mark_context, resend_threshold, first_delay, mark_segments_for_send, send_marked,
  after_sending, flush_data_segments,
}
use rust_kcp.Engine.Flush.{
  ack_segment, output_acks, flush_acks, finish_flush, flush, update, keep_alive_probe,
}

pub record Leaves (e e' : KcpEngine) : Type 0 where
  pub receiver : SameReceiver e e'
  pub config : e'.config ≡ e.config
  pub conv : e'.conv ≡ e.conv
  pub active : e'.last_activity ≡ e.last_activity
  pub shorter : length e'.snd_queue ≤ length e.snd_queue

pub Leaves-refl : (e : KcpEngine) → Leaves e e
Leaves-refl e = record {
  receiver = (refl, refl);
  config = refl;
  conv = refl;
  active = refl;
  shorter = omega arith;
}

pub Leaves-trans : (e d e' : KcpEngine) → Leaves e d → Leaves d e' → Leaves e e'
Leaves-trans e d e' l m = record {
  receiver = (m.receiver.0 ∙ l.receiver.0, m.receiver.1 ∙ l.receiver.1);
  config = m.config ∙ l.config;
  conv = m.conv ∙ l.conv;
  active = m.active ∙ l.active;
  shorter = omega (arith, l.shorter, m.shorter);
}

flush_out_buf-Leaves : (e : KcpEngine) → Leaves e (flush_out_buf e)
unfolding flush_out_buf split_out_buf recv_state
flush_out_buf-Leaves e = elim (Bool-cases (is_empty e.out_buf)) [
  | inl t ↦ rw (t, flush_out_buf) (Leaves-refl e)
  | inr t ↦
      rw (t, flush_out_buf)
        (record {
          receiver = (refl, refl);
          config = refl;
          conv = refl;
          active = refl;
          shorter = omega arith;
        })
]

loss-Leaves :
    (lost change : Bool) (resend : ℕ) (e : KcpEngine)
    → Leaves e (update_congestion_on_loss lost change resend e)
unfolding update_congestion_on_loss on_lost on_change reset_cwnd recv_state
loss-Leaves lost change resend e = record {
  receiver = ground arith;
  config = ground arith;
  conv = ground arith;
  active = ground arith;
  shorter = ground arith;
}

launch_loop_shorter :
    (current : ℕ) (e : KcpEngine) (limit : ℕ) (queue buf : List KcpSegment) (nxt : ℕ)
    → length (launch_loop current e limit queue buf nxt).queue ≤ length queue
unfolding launch_loop
launch_loop_shorter current e limit [] buf nxt = omega arith
launch_loop_shorter current e limit (seg ∷ queue) buf nxt =
    elim (Bool-cases (is_neg (time_diff nxt limit))) [
      | inl room ↦
          rw (room, launch_loop)
            (omega (
              arith,
              launch_loop_shorter current e limit queue (buf ++ launch current e nxt seg ∷ [])
                  (add32 nxt 1),
            ))
      | inr full ↦ rw (full, launch_loop) (omega arith)
    ]

move_to_send_buf-Leaves : (current : ℕ) (e : KcpEngine) → Leaves e (move_to_send_buf current e)
unfolding move_to_send_buf recv_state
move_to_send_buf-Leaves current e = record {
  receiver = (refl, refl);
  config = refl;
  conv = refl;
  active = refl;
  shorter =
      launch_loop_shorter current e (add32 e.snd_una (send_window e)) e.snd_queue e.snd_buf
        e.snd_nxt;
}

module _ (codec : ByteCodec) where
  output_segment-Leaves : (seg : KcpSegment) (e : KcpEngine) → Leaves e (output_segment codec seg e)
  unfolding output_segment append_segment split_out_buf recv_state
  output_segment-Leaves seg e = record {
    receiver = ground arith;
    config = ground arith;
    conv = ground arith;
    active = ground arith;
    shorter = ground arith;
  }

  output_acks-Leaves :
      (now wnd una : ℕ) (acks : List (ℕ × ℕ)) (e : KcpEngine)
      → Leaves e (output_acks codec now wnd una acks e)
  unfolding output_acks
  output_acks-Leaves now wnd una [] e = Leaves-refl e
  output_acks-Leaves now wnd una (a ∷ acks) e =
      let seg = ack_segment now e.conv wnd una a in
      Leaves-trans e (output_segment codec seg e) _ (output_segment-Leaves seg e)
        (output_acks-Leaves now wnd una acks _)

  send_probe-Leaves : (now bit cmd : ℕ) (e : KcpEngine) → Leaves e (send_probe codec now bit cmd e)
  unfolding send_probe
  send_probe-Leaves now bit cmd e = elim (Bool-cases (bit_and e.probe.flags bit == 0)) [
    | inl t ↦ rw (t, send_probe) (Leaves-refl e)
    | inr t ↦ rw (t, send_probe) (output_segment-Leaves (create_probe_segment now cmd e) e)
  ]

  send_marked-Leaves : (is : List ℕ) (e : KcpEngine) → Leaves e (send_marked codec is e).0
  unfolding send_marked
  send_marked-Leaves [] e = Leaves-refl e
  send_marked-Leaves (i ∷ is) e = elim (Option-cases (get_elem? e.snd_buf i)) [
    | inl n ↦ rw (n, send_marked) (Leaves-refl e)
    | inr (seg, g) ↦
        let sent = output_segment-Leaves seg e in
        elim (Bool-cases (leb e.dead_link seg.xmit)) [
          | inl t ↦ rw (g, t, send_marked) sent
          | inr t ↦ rw (g, t, send_marked) (Leaves-trans e _ _ sent (send_marked-Leaves is _))
        ]
  ]

  finish-Leaves :
      (lost change : Bool) (resend : ℕ) (x : KcpEngine × KcpCoreResult (Unit {0}))
      → Leaves x.0 (finish_flush (after_sending lost change resend x)).0
  unfolding update_congestion_control recv_state
  finish-Leaves lost change resend (e, ok u) =
      let d = update_congestion_on_loss lost change resend e in
      let l = Leaves-trans e d _ (loss-Leaves lost change resend e) (flush_out_buf-Leaves d) in
      record {
        receiver = (l.receiver.0, l.receiver.1);
        config = l.config;
        conv = l.conv;
        active = l.active;
        shorter = l.shorter;
      }
  finish-Leaves lost change resend (e, err x) = Leaves-refl e

  flush_acks-Leaves : (now : ℕ) (e : KcpEngine) → Leaves e (flush_acks codec now e)
  unfolding flush_acks recv_state
  flush_acks-Leaves now e =
      let l = output_acks-Leaves now _ _ e.ack_list (record e { ack_list = [] }) in
      record {
        receiver = (l.receiver.0, l.receiver.1);
        config = l.config;
        conv = l.conv;
        active = l.active;
        shorter = l.shorter;
      }

  handle_window_probe-Leaves :
      (current : ℕ) (e : KcpEngine) → Leaves e (handle_window_probe codec current e)
  unfolding handle_window_probe clear_flags recv_state
  handle_window_probe-Leaves current e =
      let e1 = record e { probe = schedule_probe current e.wnd.rmt e.probe } in
      let l =
        Leaves-trans e1 _ _ (send_probe-Leaves current ikcp_ask_send ikcp_cmd_wask e1)
          (send_probe-Leaves current ikcp_ask_tell ikcp_cmd_wins _) in
      record {
        receiver = (l.receiver.0, l.receiver.1);
        config = l.config;
        conv = l.conv;
        active = l.active;
        shorter = l.shorter;
      }

  data-Leaves :
      (current : ℕ) (e : KcpEngine)
      → Leaves e (finish_flush (flush_data_segments codec current e)).0
  unfolding flush_data_segments mark_segments_for_send recv_state
  data-Leaves current e =
      let m = mark_loop (mark_context current (resend_threshold e) (first_delay e) e) 0 e.snd_buf in
      let e' = (mark_segments_for_send current (resend_threshold e) (first_delay e) e).0 in
      let l = Leaves-trans e' _ _ (send_marked-Leaves m.indices e') (
        finish-Leaves (ltb 0 m.timeouts) (ltb 0 m.fasts) (resend_threshold e)
          (send_marked codec m.indices e')) in
      record {
        receiver = (l.receiver.0, l.receiver.1);
        config = l.config;
        conv = l.conv;
        active = l.active;
        shorter = l.shorter;
      }

  pub flush-Leaves : (current : ℕ) (e : KcpEngine) → Leaves e (flush codec current e).0
  unfolding flush
  flush-Leaves current e =
      let e1 = flush_acks codec current e in
      let e2 = handle_window_probe codec current e1 in
      let e3 = move_to_send_buf current e2 in
      Leaves-trans e e1 _ (flush_acks-Leaves current e) (
        Leaves-trans e1 e2 _ (handle_window_probe-Leaves current e1)
          (Leaves-trans e2 e3 _ (move_to_send_buf-Leaves current e2) (data-Leaves current e3)))

  pub update-Leaves : (now : ℕ) (e : KcpEngine) → Leaves e (update codec now e).0
  unfolding update recv_state
  update-Leaves now e =
      let last = if ltb now e.last_update then now else e.last_update in
      elim (Bool-cases (leb e.config.nodelay.interval (now - last))) [
        | inl t ↦
            let l = flush-Leaves now (record e { last_update = now }) in
            rw (t, update)
              (record {
                receiver = (l.receiver.0, l.receiver.1);
                config = l.config;
                conv = l.conv;
                active = l.active;
                shorter = l.shorter;
              })
        | inr t ↦
            rw (t, update)
              (record {
                receiver = (refl, refl);
                config = refl;
                conv = refl;
                active = refl;
                shorter = omega arith;
              })
      ]

  pub keep_alive_probe-Leaves :
      (now : ℕ) (e : KcpEngine) → Leaves e (keep_alive_probe codec now e).0
  unfolding keep_alive_probe recv_state
  keep_alive_probe-Leaves now e =
      let l = flush-Leaves now _ in
      record {
        receiver = (l.receiver.0, l.receiver.1);
        config = l.config;
        conv = l.conv;
        active = l.active;
        shorter = l.shorter;
      }
