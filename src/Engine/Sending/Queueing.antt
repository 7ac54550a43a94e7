-- ===== src/Engine/Sending/Queueing.antt =====
-- `send` (kcp-core/src/engine.rs): which bytes it queues, and that it leaves what is numbered alone.
use rust_kcp.Base.{
  ℕ, zero, suc, ◌+◌, ◌≤◌, ◌<◌, ◌^◌, ◌≡◌, ◌≢◌, ◌⊎◌, refl, sym, ap, ◌∙◌, arith, inl, inr, List, [],
  ◌∷◌, ◌++◌, append-nil, length, length-append, take, take-append, All, Bool, Bool-cases, leb,
  leb→le,
}
use rust_kcp.Error.{KcpCoreResult, ok, err}
use rust_kcp.Protocol.Wire.{ByteCodec}
use rust_kcp.Engine
use rust_kcp.Engine.{KcpEngine, new, set_conv, drain_output}
use rust_kcp.Engine.Payloads.{payloads}
use rust_kcp.Engine.Send.{
  fragment, extend_segment, merge_last, fragment_count, max_frags, count_sent, queue_fragments,
  send,
}
use rust_kcp.Protocol.{KcpSegment, push}
use rust_kcp.Engine.Send.Keeps.{send-All}
use rust_kcp.Engine.Send.Stream.{merge_last-Splits, send_bytes}
use rust_kcp.Engine.Calls.{}
use rust_kcp.Engine.Sending.{HasLength, KeepsLog}
use rust_kcp.Engine.Sending.Flushing.{}

-- The bytes that a call of `send` queues: all of them, or when it fails those that it has merged.
abbrev pub joined : List ℕ → ℕ → KcpCoreResult (Unit {0}) → List ℕ
joined bytes merged (ok u) = bytes
joined bytes merged (err x) = take merged bytes

abbrev pub accepted : ℕ → List ℕ → KcpEngine → List ℕ
accepted now bytes e =
    let m = merge_last e.config.stream_mode (Engine.mss e) bytes e.snd_queue in
    joined bytes m.extend (send now bytes e).1

take-front : (k n : ℕ) (ys bs : List ℕ) → k ≡ length ys + n → take k (ys ++ bs) ≡ ys ++ take n bs
take-front k n [] bs h = let z : k ≡ n = omega arith in rw z refl
take-front zero n (y ∷ ys) bs h = absurd (omega arith)
take-front (suc k) n (y ∷ ys) bs h = ap (◌∷◌ y) (take-front k n ys bs (omega arith))

front_part :
    (n : ℕ) (xs rest ys bs : List ℕ)
    → xs ++ rest ≡ ys ++ bs
    → n + length rest ≡ length bs
    → xs ≡ ys ++ take n bs
front_part n xs rest ys bs h k =
    let z : length xs ≡ length ys + n =
      omega (arith, length-append xs rest, length-append ys bs, ap length h) in
    sym (take-append (length xs) xs rest refl)
    ∙ ap (take (length xs)) h
    ∙ take-front (length xs) n ys bs z

nil_or : (xs : List ℕ) → (xs ≡ []) ⊎ (xs ≢ [])
nil_or [] = inl refl
nil_or (x ∷ xs) = inr λ e. cc

pub send-accepted :
    (now : ℕ) (bytes : List ℕ) (e : KcpEngine)
    → 25 ≤ e.config.mtu
    → e.config.mtu < 2 ^ 32
    → payloads (send now bytes e).0.snd_queue ≡ payloads e.snd_queue ++ accepted now bytes e
send-accepted now bytes e lo hi = elim (nil_or bytes) [
  | inl none_given ↦ rw none_given (unfold send in sym (append-nil (payloads e.snd_queue)))
  | inr some_given ↦
      let m = merge_last e.config.stream_mode (Engine.mss e) bytes e.snd_queue in
      let result =
        λ (x : KcpCoreResult (Unit {0})). payloads e.snd_queue ++ joined bytes m.extend x in
      let (fits, over) = send_bytes now bytes e some_given lo hi in
      let split = merge_last-Splits e.config.stream_mode (Engine.mss e) bytes e.snd_queue in
      elim (Bool-cases (leb (fragment_count (Engine.mss e) (length m.rest)) (max_frags e))) [
        | inl few ↦ let (r, q) = fits (inr (leb→le _ _ few)) in q ∙ ap result (sym r)
        | inr many ↦ elim (nil_or m.rest) [
          | inl all ↦ let (r, q) = fits (inl all) in q ∙ ap result (sym r)
          | inr more ↦
              let (r, q) = over more (ground arith) in
              front_part m.extend _ m.rest (payloads e.snd_queue) bytes q split.1
              ∙ ap result (sym r)
        ]
      ]
]

fragment-HasLength :
    (now conv : ℕ) (stream : Bool) (count i : ℕ) (bytes : List ℕ)
    → HasLength (fragment now conv stream count i bytes)
unfolding fragment push
fragment-HasLength now conv stream count i bytes = ground arith

extend_segment-HasLength :
    (last : KcpSegment) (bytes : List ℕ) → HasLength (extend_segment last bytes)
unfolding extend_segment
extend_segment-HasLength last bytes = refl

send-AllHasLength :
    (now : ℕ) (bytes : List ℕ) (e : KcpEngine)
    → All HasLength e.snd_queue
    → All HasLength (send now bytes e).0.snd_queue
send-AllHasLength now bytes e f =
    send-All HasLength fragment-HasLength extend_segment-HasLength now bytes e f

module _ (codec : ByteCodec) where
  pub send-KeepsLog :
      {log : List (List ℕ)} (now : ℕ) (bytes : List ℕ) (e : KcpEngine)
      → KeepsLog codec log e.snd_queue e
      → let e' = (send now bytes e).0 in KeepsLog codec log e'.snd_queue e'
  unfolding send queue_fragments count_sent
  send-KeepsLog now bytes e v =
      let e' = (send now bytes e).0 in
      let same : (e'.snd_nxt ≡ e.snd_nxt)
          × (e'.snd_buf ≡ e.snd_buf)
          × (e'.out_buf ≡ e.out_buf)
          × (e'.output_queue ≡ e.output_queue) =
        ground arith in
      record {
        waiting = refl;
        lengths = send-AllHasLength now bytes e v.lengths;
        next = same.0 ∙ v.next;
        in_flight = rw same.1 v.in_flight;
        pending = rw same.2 v.pending;
        queued = rw same.3 v.queued;
      }
