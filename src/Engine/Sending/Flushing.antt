-- ===== src/Engine/Sending/Flushing.antt =====
-- `flush` (kcp-core/src/engine.rs): each data segment that it puts out carries the payload of its
-- number.
use rust_kcp.Base.{
  ℕ, ◌<◌, ◌^◌, zero, suc, ◌+◌, ◌-◌, ◌≡◌, ◌≢◌, refl, sym, ap, ◌∙◌, subst, arith, inl, inr, Bool,
  List, [], ◌∷◌, ◌++◌, append-nil, All, Bool-cases, Option, none, some, Option-cases, get_elem?,
  ltb, leb, bit_and, ◌==◌, concat, if◌then◌else◌,
}
use rust_kcp.Error.{KcpCoreResult, ok, err}
use rust_kcp.Protocol.{KcpSegment, ack}
use rust_kcp.Protocol
use rust_kcp.Protocol.Constants.{
  ikcp_ask_send, ikcp_ask_tell, ikcp_cmd_push, ikcp_cmd_wask, ikcp_cmd_wins,
}
use rust_kcp.Protocol.Wire.{ByteCodec}
use rust_kcp.Engine.{KcpEngine}
use rust_kcp.Engine.Payloads.{payloads}
use rust_kcp.Engine.Congestion.{update_congestion_on_loss, update_congestion_control}
use rust_kcp.Engine.Probe.{
  schedule_probe, create_probe_segment, send_probe, clear_flags, handle_window_probe,
}
use rust_kcp.Engine.SendBuf.{move_to_send_buf}
use rust_kcp.Engine.Transmit.{
  Reason, first, timeout, fast, reason, MarkContext, Marked, mark_one, mark_loop, mark_context,
  resend_threshold, first_delay, mark_segments_for_send, send_marked, after_sending,
  flush_data_segments,
}
use rust_kcp.Engine.Flush.{
  ack_segment, output_acks, flush_acks, finish_flush, flush, update, keep_alive_probe,
}
use rust_kcp.Engine.Sending.{
  IsLogged, IsLogged-Carries, KeepsLog, SameSending, SameSending-KeepsLog, buf-KeepsLog,
  output_segment-KeepsLog, flush_out_buf-KeepsLog,
}
use rust_kcp.Engine.Sending.Launching.{
  front_of, front_of_self, ExtendsLog, move_to_send_buf-ExtendsLog,
}

mark_one-IsLogged :
    (log : List (List ℕ)) (c : MarkContext) (i : ℕ) (seg : KcpSegment) (r : Option Reason)
    (m : Marked)
    → IsLogged log seg
    → All (IsLogged log) m.segments
    → All (IsLogged log) (mark_one c i seg r m).segments
unfolding mark_one
mark_one-IsLogged log c i seg none m f g = (f, g)
mark_one-IsLogged log c i seg (some first) m f g = (f, g)
mark_one-IsLogged log c i seg (some timeout) m f g = (f, g)
mark_one-IsLogged log c i seg (some fast) m f g = (f, g)

mark_loop-IsLogged :
    (log : List (List ℕ)) (c : MarkContext) (i : ℕ) (segs : List KcpSegment)
    → All (IsLogged log) segs
    → All (IsLogged log) (mark_loop c i segs).segments
unfolding mark_loop
mark_loop-IsLogged log c i [] f = tt
mark_loop-IsLogged log c i (seg ∷ segs) f =
    mark_one-IsLogged log c i seg (reason c.current c.resend seg) (mark_loop c (i + 1) segs) f.0
      (mark_loop-IsLogged log c (i + 1) segs f.1)

get_elem?-IsLogged :
    (log : List (List ℕ)) (i : ℕ) (segs : List KcpSegment) (seg : KcpSegment)
    → All (IsLogged log) segs
    → get_elem? segs i ≡ some seg
    → IsLogged log seg
get_elem?-IsLogged log i [] seg f h = absurd (cc)
get_elem?-IsLogged log zero (x ∷ xs) seg f h = let e : x ≡ seg = cc in subst (IsLogged log) e f.0
get_elem?-IsLogged log (suc i) (x ∷ xs) seg f h = get_elem?-IsLogged log i xs seg f.1 h

loss-SameSending :
    (codec : ByteCodec) (lost change : Bool) (resend : ℕ) (e : KcpEngine)
    → SameSending codec e (update_congestion_on_loss lost change resend e)
unfolding update_congestion_on_loss
loss-SameSending codec lost change resend e = ground arith

module _ (codec : ByteCodec) where
  output_acks-KeepsLog :
      {log : List (List ℕ)} {queue : List KcpSegment} (now wnd una : ℕ) (acks : List (ℕ × ℕ))
      (e : KcpEngine)
      → KeepsLog codec log queue e
      → KeepsLog codec log queue (output_acks codec now wnd una acks e)
  unfolding output_acks ack
  output_acks-KeepsLog now wnd una [] e v = v
  output_acks-KeepsLog now wnd una (a ∷ acks) e v = output_acks-KeepsLog now wnd una acks _ (
      output_segment-KeepsLog codec (ack_segment now e.conv wnd una a) e
        (refl, omega arith, inl λ h. omega (arith, h)) v)

  flush_acks-KeepsLog :
      {log : List (List ℕ)} {queue : List KcpSegment} (now : ℕ) (e : KcpEngine)
      → KeepsLog codec log queue e
      → KeepsLog codec log queue (flush_acks codec now e)
  unfolding flush_acks
  flush_acks-KeepsLog now e v =
      output_acks-KeepsLog now _ _ e.ack_list _
        (SameSending-KeepsLog codec e _ (refl, refl, refl, refl, refl) v)

  send_probe-KeepsLog :
      {log : List (List ℕ)} {queue : List KcpSegment} (now bit cmd : ℕ) (e : KcpEngine)
      → cmd ≢ ikcp_cmd_push
      → cmd < 2 ^ 8
      → KeepsLog codec log queue e
      → KeepsLog codec log queue (send_probe codec now bit cmd e)
  unfolding send_probe create_probe_segment Protocol.new_segment
  send_probe-KeepsLog now bit cmd e ne fits v = elim (Bool-cases (bit_and e.probe.flags bit == 0)) [
    | inl t ↦ rw (t, send_probe) v
    | inr t ↦
        rw (t, send_probe)
          (output_segment-KeepsLog codec (create_probe_segment now cmd e) e (refl, fits, inl ne) v)
  ]

  handle_window_probe-KeepsLog :
      {log : List (List ℕ)} {queue : List KcpSegment} (current : ℕ) (e : KcpEngine)
      → KeepsLog codec log queue e
      → KeepsLog codec log queue (handle_window_probe codec current e)
  unfolding handle_window_probe clear_flags
  handle_window_probe-KeepsLog current e v =
      let e1 = record e { probe = schedule_probe current e.wnd.rmt e.probe } in
      let v1 = SameSending-KeepsLog codec e e1 (refl, refl, refl, refl, refl) v in
      let v2 =
        send_probe-KeepsLog current ikcp_ask_send ikcp_cmd_wask e1 (λ h. omega (arith, h))
          (omega arith) v1 in
      let v3 =
        send_probe-KeepsLog current ikcp_ask_tell ikcp_cmd_wins _ (λ h. omega (arith, h))
          (omega arith) v2 in
      SameSending-KeepsLog codec _ _ (refl, refl, refl, refl, refl) v3

  send_marked-KeepsLog :
      {log : List (List ℕ)} {queue : List KcpSegment} (is : List ℕ) (e : KcpEngine)
      → KeepsLog codec log queue e
      → KeepsLog codec log queue (send_marked codec is e).0
  unfolding send_marked
  send_marked-KeepsLog [] e v = v
  send_marked-KeepsLog {log} (i ∷ is) e v = elim (Option-cases (get_elem? e.snd_buf i)) [
    | inl n ↦ rw (n, send_marked) v
    | inr (seg, g) ↦
        let sent =
          output_segment-KeepsLog codec seg e
            (IsLogged-Carries log seg (get_elem?-IsLogged log i e.snd_buf seg v.in_flight g)) v in
        elim (Bool-cases (leb e.dead_link seg.xmit)) [
          | inl t ↦ rw (g, t, send_marked) sent
          | inr t ↦ rw (g, t, send_marked) (send_marked-KeepsLog is _ sent)
        ]
  ]

  finish-KeepsLog :
      {log : List (List ℕ)} {queue : List KcpSegment} (lost change : Bool) (resend : ℕ)
      (x : KcpEngine × KcpCoreResult (Unit {0}))
      → KeepsLog codec log queue x.0
      → KeepsLog codec log queue (finish_flush (after_sending lost change resend x)).0
  unfolding update_congestion_control
  finish-KeepsLog lost change resend (e, ok u) v =
      let w = SameSending-KeepsLog codec e _ (loss-SameSending codec lost change resend e) v in
      SameSending-KeepsLog codec _ _ (refl, refl, refl, refl, refl)
        (flush_out_buf-KeepsLog codec _ w)
  finish-KeepsLog lost change resend (e, err x) v = v

  data-KeepsLog :
      {log : List (List ℕ)} {queue : List KcpSegment} (current : ℕ) (e : KcpEngine)
      → KeepsLog codec log queue e
      → KeepsLog codec log queue (finish_flush (flush_data_segments codec current e)).0
  unfolding flush_data_segments mark_segments_for_send
  data-KeepsLog {log} current e v =
      let c = mark_context current (resend_threshold e) (first_delay e) e in
      let m = mark_loop c 0 e.snd_buf in
      let e' = (mark_segments_for_send current (resend_threshold e) (first_delay e) e).0 in
      let w =
        SameSending-KeepsLog codec _ e' (refl, refl, refl, refl, refl)
          (buf-KeepsLog codec e m.segments (mark_loop-IsLogged log c 0 e.snd_buf v.in_flight) v) in
      finish-KeepsLog (ltb 0 m.timeouts) (ltb 0 m.fasts) (resend_threshold e)
        (send_marked codec m.indices e') (send_marked-KeepsLog m.indices e' w)

  -- What comes after the numbering
  ExtendsLog-then :
      {log : List (List ℕ)} {queue : List KcpSegment} (e e' : KcpEngine)
      → ((l : List (List ℕ)) → KeepsLog codec l e.snd_queue e → KeepsLog codec l e.snd_queue e')
      → ExtendsLog codec log queue e
      → ExtendsLog codec log queue e'
  ExtendsLog-then {log} {queue} e e' f x =
      let w = f (log ++ x.taken) x.sending in
      record {
        taken = x.taken;
        is_front = x.is_front ∙ ap (front_of queue) (sym w.waiting);
        moved = x.moved ∙ ap (λ q. concat x.taken ++ payloads q) (sym w.waiting);
        sending = subst (λ q. KeepsLog codec (log ++ x.taken) q e') (sym w.waiting) w;
      }

  pub ExtendsLog-nothing :
      {log : List (List ℕ)} {queue : List KcpSegment} (e : KcpEngine)
      → KeepsLog codec log queue e
      → ExtendsLog codec log queue e
  ExtendsLog-nothing {log} {queue} e v = record {
    taken = [];
    is_front = sym (front_of_self e.snd_queue) ∙ ap (λ q. front_of q e.snd_queue) v.waiting;
    moved = ap payloads (sym v.waiting);
    sending =
        subst (λ l. KeepsLog codec l e.snd_queue e) (sym (append-nil log))
          (subst (λ q. KeepsLog codec log q e) (sym v.waiting) v);
  }

  pub flush-ExtendsLog :
      {log : List (List ℕ)} {queue : List KcpSegment} (current : ℕ) (e : KcpEngine)
      → KeepsLog codec log queue e
      → ExtendsLog codec log queue (flush codec current e).0
  unfolding flush
  flush-ExtendsLog current e v =
      let e2 = handle_window_probe codec current (flush_acks codec current e) in
      let v2 = handle_window_probe-KeepsLog current _ (flush_acks-KeepsLog current e v) in
      ExtendsLog-then (move_to_send_buf current e2) _
        (λ l w. data-KeepsLog current (move_to_send_buf current e2) w)
        (move_to_send_buf-ExtendsLog codec current e2 v2)

  pub update-ExtendsLog :
      {log : List (List ℕ)} {queue : List KcpSegment} (now : ℕ) (e : KcpEngine)
      → KeepsLog codec log queue e
      → ExtendsLog codec log queue (update codec now e).0
  unfolding update
  update-ExtendsLog now e v =
      let last = if ltb now e.last_update then now else e.last_update in
      elim (Bool-cases (leb e.config.nodelay.interval (now - last))) [
        | inl t ↦ rw t (
            flush-ExtendsLog now _
              (SameSending-KeepsLog codec e _ (refl, refl, refl, refl, refl) v))
        | inr t ↦
            rw t (
              ExtendsLog-nothing _
                (SameSending-KeepsLog codec e _ (refl, refl, refl, refl, refl) v))
      ]

  pub keep_alive-ExtendsLog :
      {log : List (List ℕ)} {queue : List KcpSegment} (now : ℕ) (e : KcpEngine)
      → KeepsLog codec log queue e
      → ExtendsLog codec log queue (keep_alive_probe codec now e).0
  unfolding keep_alive_probe
  keep_alive-ExtendsLog now e v =
      flush-ExtendsLog now _ (SameSending-KeepsLog codec e _ (refl, refl, refl, refl, refl) v)
