-- ===== src/Engine/Flush/Packed.antt =====
-- The size of what the engine puts out (`flush` of kcp-core/src/engine.rs).
use rust_kcp.Base.{
  ℕ, ◌+◌, ◌≤◌, ◌<◌, ◌^◌, ◌≡◌, refl, ap, ◌∙◌, subst, arith, Bool, List, [], ◌∷◌, All, All-append,
  Option, none, some, Option-cases, Bool-cases, inl, inr, get_elem?, leb, ltb, is_empty, bit_and,
  ◌==◌, is_neg, zero, suc, add32,
}
use rust_kcp.Error.{KcpCoreResult, ok, err}
use rust_kcp.Protocol.{KcpSegment, size, ack}
use rust_kcp.Protocol.Seq.{time_diff}
use rust_kcp.Protocol.Wire.{ByteCodec}
use rust_kcp.Engine.{KcpEngine}
use rust_kcp.Engine.Output.{flush_out_buf, output_segment}
use rust_kcp.Engine.Output.Packing.{IsPacked, output_segment-IsPacked, output_segment_keeps}
use rust_kcp.Engine.Congestion.{update_congestion_on_loss, update_congestion_control}
use rust_kcp.Protocol.Constants.{ikcp_ask_send, ikcp_ask_tell, ikcp_cmd_wask, ikcp_cmd_wins}
use rust_kcp.Engine.Probe.{
  schedule_probe, create_probe_segment, send_probe, clear_flags, handle_window_probe,
}
use rust_kcp.Engine.SendBuf.{send_window, launch, launch_loop, move_to_send_buf}
use rust_kcp.Engine.Transmit.{
  Reason, first, timeout, fast, reason, MarkContext, Marked, mark_one, mark_loop, mark_context,
  resend_threshold, first_delay, mark_segments_for_send, send_marked, after_sending,
  flush_data_segments,
}
use rust_kcp.Engine.Flush.{ack_segment, output_acks, flush_acks, finish_flush, flush}

-- Segments that fit a datagram of `mtu` bytes
abbrev pub AllFit : ℕ → List KcpSegment → Type 0
AllFit mtu = All (λ seg. size seg ≤ mtu)

-- Every segment to be sent fits the MTU, and so does every datagram.
pub record IsSized (mtu : ℕ) (e : KcpEngine) : Type 0 where
  pub is_mtu : e.config.mtu ≡ mtu
  pub roomy : 24 ≤ e.config.mtu
  pub small : e.config.mtu < 2 ^ 32
  pub queue_fits : AllFit e.config.mtu e.snd_queue
  pub buf_fits : AllFit e.config.mtu e.snd_buf
  pub packed : IsPacked e

-- What leaves the output and the MTU alone
pub IsSized-same :
    {mtu : ℕ} (e e' : KcpEngine)
    → e'.config.mtu ≡ e.config.mtu
    → (e'.output_queue ≡ e.output_queue) × (e'.out_buf ≡ e.out_buf)
    → AllFit e.config.mtu e'.snd_queue
    → AllFit e.config.mtu e'.snd_buf
    → IsSized mtu e
    → IsSized mtu e'
IsSized-same e e' m (q, b) f g v = record {
  is_mtu = m ∙ v.is_mtu;
  roomy = omega (arith, v.roomy);
  small = omega (arith, v.small);
  queue_fits = rw m f;
  buf_fits = rw m g;
  packed = record { queued = rw (m, q) v.packed.queued; pending = rw (m, b) v.packed.pending };
}

AllFit-get :
    (mtu i : ℕ) (segs : List KcpSegment) (seg : KcpSegment)
    → AllFit mtu segs
    → get_elem? segs i ≡ some seg
    → size seg ≤ mtu
AllFit-get mtu i [] seg f h = absurd (cc)
AllFit-get mtu zero (x ∷ xs) seg f h = let e : x ≡ seg = cc in subst (λ s. size s ≤ mtu) e f.0
AllFit-get mtu (suc i) (x ∷ xs) seg f h = AllFit-get mtu i xs seg f.1 h

launch_loop-AllFit :
    (mtu current : ℕ) (e : KcpEngine) (limit : ℕ) (queue buf : List KcpSegment) (nxt : ℕ)
    → AllFit mtu queue
    → AllFit mtu buf
    → let s = launch_loop current e limit queue buf nxt in AllFit mtu s.queue × AllFit mtu s.buf
unfolding launch_loop launch size
launch_loop-AllFit mtu current e limit [] buf nxt f g = (tt, g)
launch_loop-AllFit mtu current e limit (seg ∷ queue) buf nxt f g =
    elim (Bool-cases (is_neg (time_diff nxt limit))) [
      | inl room ↦
          rw (room, launch_loop)
            (launch_loop-AllFit mtu current e limit queue _ _ f.1
              (All-append _ buf (launch current e nxt seg ∷ []) g (f.0, tt)))
      | inr full ↦ rw (full, launch_loop) (f, g)
    ]

mark_one-AllFit :
    (mtu : ℕ) (c : MarkContext) (i : ℕ) (seg : KcpSegment) (r : Option Reason) (m : Marked)
    → size seg ≤ mtu
    → AllFit mtu m.segments
    → AllFit mtu (mark_one c i seg r m).segments
unfolding mark_one size
mark_one-AllFit mtu c i seg none m f g = (f, g)
mark_one-AllFit mtu c i seg (some first) m f g = (f, g)
mark_one-AllFit mtu c i seg (some timeout) m f g = (f, g)
mark_one-AllFit mtu c i seg (some fast) m f g = (f, g)

mark_loop-AllFit :
    (mtu : ℕ) (c : MarkContext) (i : ℕ) (segs : List KcpSegment)
    → AllFit mtu segs
    → AllFit mtu (mark_loop c i segs).segments
unfolding mark_loop mark_one
mark_loop-AllFit mtu c i [] f = tt
mark_loop-AllFit mtu c i (seg ∷ segs) f =
    mark_one-AllFit mtu c i seg (reason c.current c.resend seg) (mark_loop c (i + 1) segs) f.0
      (mark_loop-AllFit mtu c (i + 1) segs f.1)

loss-IsSized :
    {mtu : ℕ} (lost change : Bool) (resend : ℕ) (e : KcpEngine)
    → IsSized mtu e
    → IsSized mtu (update_congestion_on_loss lost change resend e)
unfolding update_congestion_on_loss
loss-IsSized lost change resend e v =
    let e' = update_congestion_on_loss lost change resend e in
    let same : (e'.config ≡ e.config)
        × (e'.output_queue ≡ e.output_queue)
        × (e'.out_buf ≡ e.out_buf)
        × (e'.snd_queue ≡ e.snd_queue)
        × (e'.snd_buf ≡ e.snd_buf) =
      ground arith in
    IsSized-same e e' (ap (λ c. c.mtu) same.0) (same.1, same.2) (rw same.3 v.queue_fits)
      (rw same.4 v.buf_fits) v

flush_out_buf-IsSized : {mtu : ℕ} (e : KcpEngine) → IsSized mtu e → IsSized mtu (flush_out_buf e)
unfolding flush_out_buf
flush_out_buf-IsSized e v = elim (Bool-cases (is_empty e.out_buf)) [
  | inl t ↦ rw (t, flush_out_buf) v
  | inr t ↦
      rw (t, flush_out_buf)
        (record {
          is_mtu = v.is_mtu;
          roomy = v.roomy;
          small = v.small;
          queue_fits = v.queue_fits;
          buf_fits = v.buf_fits;
          packed = record {
            queued =
                All-append _ e.output_queue (e.out_buf ∷ []) v.packed.queued (v.packed.pending, tt);
            pending = omega arith;
          };
        })
]

module _ (codec : ByteCodec) where
  output_segment-IsSized :
      {mtu : ℕ} (seg : KcpSegment) (e : KcpEngine)
      → size seg ≤ e.config.mtu
      → IsSized mtu e
      → IsSized mtu (output_segment codec seg e)
  output_segment-IsSized seg e h v =
      let (c, b, q, d) = output_segment_keeps codec seg e in
      record {
        is_mtu = ap (λ x. x.mtu) c ∙ v.is_mtu;
        roomy = rw c v.roomy;
        small = rw c v.small;
        queue_fits = rw (c, q) v.queue_fits;
        buf_fits = rw (c, b) v.buf_fits;
        packed = output_segment-IsPacked codec seg e h v.packed;
      }

  output_acks-IsSized :
      {mtu : ℕ} (now wnd una : ℕ) (acks : List (ℕ × ℕ)) (e : KcpEngine)
      → IsSized mtu e
      → IsSized mtu (output_acks codec now wnd una acks e)
  unfolding output_acks ack size
  output_acks-IsSized now wnd una [] e v = v
  output_acks-IsSized now wnd una (a ∷ acks) e v =
      output_acks-IsSized now wnd una acks _
        (output_segment-IsSized (ack_segment now e.conv wnd una a) e v.roomy v)

  send_probe-IsSized :
      {mtu : ℕ} (now bit cmd : ℕ) (e : KcpEngine)
      → IsSized mtu e
      → IsSized mtu (send_probe codec now bit cmd e)
  unfolding send_probe create_probe_segment size rust_kcp.Protocol.new_segment
  send_probe-IsSized now bit cmd e v = elim (Bool-cases (bit_and e.probe.flags bit == 0)) [
    | inl t ↦ rw (t, send_probe) v
    | inr t ↦
        rw (t, send_probe) (output_segment-IsSized (create_probe_segment now cmd e) e v.roomy v)
  ]

  send_marked-IsSized :
      {mtu : ℕ} (is : List ℕ) (e : KcpEngine)
      → IsSized mtu e
      → IsSized mtu (send_marked codec is e).0
  unfolding send_marked
  send_marked-IsSized [] e v = v
  send_marked-IsSized (i ∷ is) e v = elim (Option-cases (get_elem? e.snd_buf i)) [
    | inl n ↦ rw (n, send_marked) v
    | inr (seg, g) ↦
        let sent =
          output_segment-IsSized seg e (AllFit-get e.config.mtu i e.snd_buf seg v.buf_fits g) v in
        elim (Bool-cases (leb e.dead_link seg.xmit)) [
          | inl t ↦ rw (g, t, send_marked) sent
          | inr t ↦ rw (g, t, send_marked) (send_marked-IsSized is _ sent)
        ]
  ]

  finish-IsSized :
      {mtu : ℕ} (lost change : Bool) (resend : ℕ) (x : KcpEngine × KcpCoreResult (Unit {0}))
      → IsSized mtu x.0
      → IsSized mtu (finish_flush (after_sending lost change resend x)).0
  unfolding update_congestion_control
  finish-IsSized lost change resend (e, ok u) v =
      let w = flush_out_buf-IsSized _ (loss-IsSized lost change resend e v) in
      IsSized-same _ _ refl (refl, refl) w.queue_fits w.buf_fits w
  finish-IsSized lost change resend (e, err x) v = v

  flush_acks-IsSized :
      {mtu : ℕ} (now : ℕ) (e : KcpEngine) → IsSized mtu e → IsSized mtu (flush_acks codec now e)
  unfolding flush_acks
  flush_acks-IsSized now e v =
      output_acks-IsSized now _ _ e.ack_list _
        (IsSized-same e _ refl (refl, refl) v.queue_fits v.buf_fits v)

  handle_window_probe-IsSized :
      {mtu : ℕ} (current : ℕ) (e : KcpEngine)
      → IsSized mtu e
      → IsSized mtu (handle_window_probe codec current e)
  unfolding handle_window_probe clear_flags
  handle_window_probe-IsSized current e v =
      let e1 = record e { probe = schedule_probe current e.wnd.rmt e.probe } in
      let w = send_probe-IsSized current ikcp_ask_tell ikcp_cmd_wins _ (
        send_probe-IsSized current ikcp_ask_send ikcp_cmd_wask e1
          (IsSized-same e e1 refl (refl, refl) v.queue_fits v.buf_fits v)) in
      IsSized-same _ _ refl (refl, refl) w.queue_fits w.buf_fits w

  move_to_send_buf-IsSized :
      {mtu : ℕ} (current : ℕ) (e : KcpEngine)
      → IsSized mtu e
      → IsSized mtu (move_to_send_buf current e)
  unfolding move_to_send_buf
  move_to_send_buf-IsSized current e v =
      let (f, g) =
        launch_loop-AllFit e.config.mtu current e (add32 e.snd_una (send_window e)) e.snd_queue
          e.snd_buf e.snd_nxt v.queue_fits v.buf_fits in
      IsSized-same e _ refl (refl, refl) f g v

  data-IsSized :
      {mtu : ℕ} (current : ℕ) (e : KcpEngine)
      → IsSized mtu e
      → IsSized mtu (finish_flush (flush_data_segments codec current e)).0
  unfolding flush_data_segments mark_segments_for_send
  data-IsSized current e v =
      let c = mark_context current (resend_threshold e) (first_delay e) e in
      let m = mark_loop c 0 e.snd_buf in
      let e' = (mark_segments_for_send current (resend_threshold e) (first_delay e) e).0 in
      finish-IsSized (ltb 0 m.timeouts) (ltb 0 m.fasts) (resend_threshold e)
        (send_marked codec m.indices e')
        (send_marked-IsSized m.indices e' (
          IsSized-same e e' refl (refl, refl) v.queue_fits
            (mark_loop-AllFit e.config.mtu c 0 e.snd_buf v.buf_fits) v))

  -- `flush` sends nothing that is longer than the MTU, whether it succeeds or not.
  pub flush-IsSized :
      {mtu : ℕ} (current : ℕ) (e : KcpEngine)
      → IsSized mtu e
      → IsSized mtu (flush codec current e).0
  unfolding flush
  flush-IsSized current e v = data-IsSized current _ (
      move_to_send_buf-IsSized current _
        (handle_window_probe-IsSized current _ (flush_acks-IsSized current e v)))
