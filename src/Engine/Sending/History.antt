-- ===== src/Engine/Sending/History.antt =====
-- Any sequence of calls of an engine (kcp-core/src/engine.rs): what its datagrams carry, against
-- the bytes that were sent.
use rust_kcp.Base.{
  ℕ, u32, length, ◌≤◌, ◌<◌, ◌^◌, ◌≡◌, refl, sym, ap, ◌∙◌, subst, arith, List, [], ◌∷◌, ◌++◌,
  append_assoc, append-nil, concat, concat-append, All, All-append,
}
use rust_kcp.Config.{KcpCoreConfig}
use rust_kcp.Protocol.Wire.{ByteCodec}
use rust_kcp.Engine.{KcpEngine, new, set_conv, drain_output}
use rust_kcp.Engine.Payloads.{payloads}
use rust_kcp.Engine.Send.{send}
use rust_kcp.Engine.Flush.Packed.{IsSized}
use rust_kcp.Engine.Calls.{
  Call, call_send, call_recv, call_input, call_flush, call_update, call_keep_alive, call_set_conv,
  call, drained, call-IsSized, after_drain-IsSized, new-IsSized,
}
use rust_kcp.Engine.Sending.{IsOwn, IsOwn-nil, IsOwn-more, KeepsLog, SameSending-KeepsLog, All-more}
use rust_kcp.Engine.Sending.Queueing.{accepted, send-accepted, send-KeepsLog}
use rust_kcp.Engine.Sending.Launching.{front_of, ExtendsLog}
use rust_kcp.Engine.Sending.Flushing.{
  flush-ExtendsLog, update-ExtendsLog, keep_alive-ExtendsLog, ExtendsLog-nothing,
}
use rust_kcp.Engine.Sending.Acking.{input-KeepsLog, recv-SameSending}

abbrev pub given : Call → KcpEngine → List ℕ
given (call_send now bytes) e = accepted now bytes e
given call_recv e = []
given (call_input now bytes) e = []
given (call_flush now) e = []
given (call_update now) e = []
given (call_keep_alive now) e = []
given (call_set_conv conv) e = []

-- The payloads that a call numbers: those that leave the queue
abbrev pub numbered_by : Call → KcpEngine → KcpEngine → List (List ℕ)
numbered_by (call_send now bytes) e e' = []
numbered_by call_recv e e' = front_of e.snd_queue e'.snd_queue
numbered_by (call_input now bytes) e e' = front_of e.snd_queue e'.snd_queue
numbered_by (call_flush now) e e' = front_of e.snd_queue e'.snd_queue
numbered_by (call_update now) e e' = front_of e.snd_queue e'.snd_queue
numbered_by (call_keep_alive now) e e' = front_of e.snd_queue e'.snd_queue
numbered_by (call_set_conv conv) e e' = front_of e.snd_queue e'.snd_queue

module _ (codec : ByteCodec) where
  -- What was queued and what is given are the payloads that get numbers, and what is queued then.
  record Numbering (log taken : List (List ℕ)) (bytes : List ℕ) (e e' : KcpEngine) : Type 0 where
    moved : payloads e.snd_queue ++ bytes ≡ concat taken ++ payloads e'.snd_queue
    sending : KeepsLog codec (log ++ taken) e'.snd_queue e'

  ExtendsLog-Numbering :
      {log : List (List ℕ)} (e e' : KcpEngine)
      → ExtendsLog codec log e.snd_queue e'
      → Numbering log (front_of e.snd_queue e'.snd_queue) [] e e'
  ExtendsLog-Numbering {log} e e' x =
      subst (λ taken. Numbering log taken [] e e') x.is_front
        (record { moved = append-nil (payloads e.snd_queue) ∙ x.moved; sending = x.sending })

  call-Numbering :
      {log : List (List ℕ)} (c : Call) (e : KcpEngine)
      → 25 ≤ e.config.mtu
      → e.config.mtu < 2 ^ 32
      → KeepsLog codec log e.snd_queue e
      → Numbering log (numbered_by c e (call codec c e)) (given c e) e (call codec c e)
  unfolding call set_conv
  call-Numbering {log} (call_send now bytes) e lo hi v =
      let w = send-KeepsLog codec now bytes e v in
      record {
        moved = sym (send-accepted now bytes e lo hi);
        sending =
            subst (λ l. KeepsLog codec l (send now bytes e).0.snd_queue (send now bytes e).0)
              (sym (append-nil log)) w;
      }
  call-Numbering call_recv e lo hi v =
      ExtendsLog-Numbering e _
        (ExtendsLog-nothing codec _ (SameSending-KeepsLog codec e _ (recv-SameSending codec e) v))
  call-Numbering (call_input now bytes) e lo hi v =
      ExtendsLog-Numbering e _ (ExtendsLog-nothing codec _ (input-KeepsLog codec now bytes e v))
  call-Numbering (call_flush now) e lo hi v =
      ExtendsLog-Numbering e _ (flush-ExtendsLog codec now e v)
  call-Numbering (call_update now) e lo hi v =
      ExtendsLog-Numbering e _ (update-ExtendsLog codec now e v)
  call-Numbering (call_keep_alive now) e lo hi v =
      ExtendsLog-Numbering e _ (keep_alive-ExtendsLog codec now e v)
  call-Numbering (call_set_conv conv) e lo hi v =
      ExtendsLog-Numbering e _ (
        ExtendsLog-nothing codec _
          (SameSending-KeepsLog codec e _ (refl, refl, refl, refl, refl) v))

  -- The engine after these calls, drained after each
  unfoldable pub after_calls : List Call → KcpEngine → KcpEngine
  after_calls [] e = e
  after_calls (c ∷ calls) e = after_calls calls (drain_output (call codec c e)).0

  -- The bytes that these calls queue
  unfoldable pub sent_bytes : List Call → KcpEngine → List ℕ
  sent_bytes [] e = []
  sent_bytes (c ∷ calls) e = given c e ++ sent_bytes calls (drain_output (call codec c e)).0

  drain-KeepsLog :
      {log : List (List ℕ)} (e : KcpEngine)
      → KeepsLog codec log e.snd_queue e
      → KeepsLog codec log e.snd_queue (drain_output e).0
  unfolding drain_output
  drain-KeepsLog e v = record {
    waiting = refl;
    lengths = v.lengths;
    next = v.next;
    in_flight = v.in_flight;
    pending = v.pending;
    queued = tt;
  }

  -- The payloads that these calls number, in order: number `k` is for the payload at place `k`.
  unfoldable pub numbered : List Call → KcpEngine → List (List ℕ)
  numbered [] e = []
  numbered (c ∷ calls) e =
      numbered_by c e (call codec c e) ++ numbered calls (drain_output (call codec c e)).0

  -- The payloads numbered are, one behind the other and with what still waits in the queue behind
  -- them, the bytes sent; the next number is their count; each datagram is of segments that carry
  -- them.
  pub record Carried (log more : List (List ℕ)) (queue sent : List ℕ) (left : KcpEngine)
      (datagrams : List (List ℕ)) : Type 0 where
    pub whole : queue ++ sent ≡ concat more ++ payloads left.snd_queue
    pub next : left.snd_nxt ≡ u32 (length (log ++ more))
    pub carried : All (IsOwn codec (log ++ more)) datagrams

  calls-Carried :
      {mtu : ℕ} (calls : List Call) (log : List (List ℕ)) (e : KcpEngine)
      → 25 ≤ mtu
      → IsSized mtu e
      → KeepsLog codec log e.snd_queue e
      → Carried log
          (numbered calls e)
          (payloads e.snd_queue)
          (sent_bytes calls e)
          (after_calls calls e)
          (drained codec calls e)
  unfolding after_calls sent_bytes numbered drained drain_output
  calls-Carried [] log e lo z v = record {
    whole = append-nil (payloads e.snd_queue);
    next = v.next ∙ ap (λ l. u32 (length l)) (sym (append-nil log));
    carried = tt;
  }
  calls-Carried (c ∷ calls) log e lo z v =
      let e1 = call codec c e in
      let e2 = (drain_output e1).0 in
      let z1 = call-IsSized codec c e z in
      let n = call-Numbering c e (omega (arith, z.is_mtu, lo)) z.small v in
      let first = numbered_by c e e1 in
      let later = numbered calls e2 in
      let more =
        calls-Carried calls (log ++ first) e2 lo (after_drain-IsSized codec e1 z1)
          (drain-KeepsLog e1 n.sending) in
      let rest = sent_bytes calls e2 in
      let left = payloads (after_calls calls e2).snd_queue in
      let l = append_assoc log first later in
      record {
        whole =
            sym (append_assoc (payloads e.snd_queue) (given c e) rest)
            ∙ ap (λ bs. bs ++ rest) n.moved
            ∙ append_assoc (concat first) (payloads e1.snd_queue) rest
            ∙ ap (◌++◌ (concat first)) more.whole
            ∙ sym (append_assoc (concat first) (concat later) left)
            ∙ ap (λ bs. bs ++ left) (sym (concat-append first later));
        next = more.next ∙ ap (λ x. u32 (length x)) l;
        carried =
            subst (λ x. All (IsOwn codec x) (drained codec (c ∷ calls) e)) l
              (All-append _ e1.output_queue _
                (All-more _ _ e1.output_queue (IsOwn-more codec (log ++ first) later)
                  n.sending.queued)
                more.carried);
      }

  -- Whatever calls are made of a new engine with a 32-bit MTU, with whatever arguments and clock
  -- readings, and whatever datagrams it is given: take the payloads of the segments that have left
  -- the send queue, in the order in which they left it. With what still waits in the queue behind
  -- them they are the bytes that the calls of send queued, in their order; snd_nxt is their count,
  -- modulo 2 ^ 32; and each datagram that the driver drains is the encoding of segments, of which
  -- each data segment has as its number the place of a payload among them, modulo 2 ^ 32, and that
  -- payload and its length, first sent or sent again.
  pub drained_carries :
      (calls : List Call) (now conv : ℕ) (config : KcpCoreConfig)
      → config.mtu < 2 ^ 32
      → let e = new now conv config in
        Carried []
          (numbered calls e)
          []
          (sent_bytes calls e)
          (after_calls calls e)
          (drained codec calls e)
  unfolding new
  drained_carries calls now conv config h =
      calls-Carried calls [] (new now conv config) (omega arith)
        (new-IsSized codec now conv config h)
        (record {
          waiting = refl;
          lengths = tt;
          next = omega arith;
          in_flight = tt;
          pending = IsOwn-nil codec [];
          queued = tt;
        })
