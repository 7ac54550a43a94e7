-- ===== src/Engine/Send/Stream.antt =====
-- `send` in both modes (kcp-core/src/engine.rs): which bytes it queues, when it fails too.
use rust_kcp.Base.{
  ℕ, zero, suc, ◌+◌, ◌-◌, ◌*◌, ◌≤◌, ◌<◌, ◌^◌, ◌≡◌, ◌≢◌, refl, sym, ap, ◌∙◌, arith, min, Bool, true,
  false, List, [], ◌∷◌, ◌++◌, append_assoc, append-nil, length, length-drop, length-take, take,
  drop, take-append-drop, is_empty, split_back, none, some, Option-cases, Bool-cases, inl, inr, ◌⊎◌,
  ltb, lt→ltb, if◌then◌else◌,
}
use rust_kcp.Error.{ok, err, buffer, too_many_fragments}
use rust_kcp.Protocol.{KcpSegment}
use rust_kcp.Engine
use rust_kcp.Engine.{KcpEngine}
use rust_kcp.Engine.Payloads.{payloads, payloads-append}
use rust_kcp.Engine.Send.{
  Merged, extend_segment, merge_into, merge_last, fragment_count, max_frags, count_sent,
  queue_fragments, send,
}
use rust_kcp.Engine.Send.Fragments.{
  message_fragments, payloads-fragments, fragment_count_lem, queue_fragments_lem, mss_pos,
}

pub split_back_lem :
    (q front : List KcpSegment) (last : KcpSegment)
    → split_back q ≡ some (front, last)
    → q ≡ front ++ last ∷ []
split_back_lem [] front last h = absurd (cc)
split_back_lem (x ∷ xs) front last h = elim (Option-cases (split_back xs)) [
  | inl e ↦ ground (arith, split_back_none xs e)
  | inr ((ys, y), e) ↦ ground (arith, split_back_lem xs ys y e)
]
  where
    split_back_none : (xs : List KcpSegment) → split_back xs ≡ none → xs ≡ []
    split_back_none [] h = refl
    split_back_none (x ∷ xs) h = elim (Option-cases (split_back xs)) [
      | inl e ↦ absurd (ground arith)
      | inr (p, e) ↦ absurd (ground arith)
    ]

payloads-back :
    (front : List KcpSegment) (last : KcpSegment)
    → payloads (front ++ last ∷ []) ≡ payloads front ++ last.payload
payloads-back front last =
    payloads-append front (last ∷ []) ∙ ap (◌++◌ (payloads front)) (append-nil last.payload)

-- The merge splits the bytes into those that join the queue and the rest.
abbrev Splits : List ℕ → List KcpSegment → Merged → Type 0
Splits bytes queue m =
    (payloads m.queue ++ m.rest ≡ payloads queue ++ bytes)
    × (m.extend + length m.rest ≡ length bytes)

merge_into-Splits :
    (mss : ℕ) (bytes : List ℕ) (queue front : List KcpSegment) (last : KcpSegment)
    → queue ≡ front ++ last ∷ []
    → Splits bytes queue (merge_into mss bytes queue (some (front, last)))
unfolding merge_into
merge_into-Splits mss bytes queue front last q = elim (Bool-cases (ltb (length last.payload) mss)) [
  | inr full ↦ rw (full, merge_into) (refl, omega arith)
  | inl room ↦
      let n = min (length bytes) (mss - length last.payload) in
      rw (room, merge_into)
        (
          ap (λ bs. bs ++ drop n bytes) (payloads-back front (extend_segment last (take n bytes)))
              ∙ append_assoc (payloads front) (last.payload ++ take n bytes) (drop n bytes)
              ∙ ap (◌++◌ (payloads front)) (append_assoc last.payload (take n bytes) (drop n bytes))
              ∙ ap (λ bs. payloads front ++ (last.payload ++ bs)) (take-append-drop n bytes)
              ∙ sym (append_assoc (payloads front) last.payload bytes)
              ∙ ap (λ bs. bs ++ bytes) (sym (ap payloads q ∙ payloads-back front last)),
          omega (arith, length-drop n bytes),
        )
]

pub merge_last-Splits :
    (stream : Bool) (mss : ℕ) (bytes : List ℕ) (queue : List KcpSegment)
    → Splits bytes queue (merge_last stream mss bytes queue)
unfolding merge_last
merge_last-Splits false mss bytes queue = (refl, omega arith)
merge_last-Splits true mss bytes queue = elim (Option-cases (split_back queue)) [
  | inl e ↦ rw (e, merge_into) (refl, omega arith)
  | inr ((front, last), e) ↦
      rw e (merge_into-Splits mss bytes queue front last (split_back_lem queue front last e))
]

queue_rest :
    (now extend : ℕ) (rest all : List ℕ) (e : KcpEngine)
    → 0 < Engine.mss e
    → payloads e.snd_queue ++ rest ≡ all
    → let count = fragment_count (Engine.mss e) (length rest) in
      let (e', r) =
        if is_empty rest then (count_sent extend e, ok tt) else queue_fragments now rest e in
      ((rest ≡ []) ⊎ (count ≤ max_frags e) → (r ≡ ok tt) × (payloads e'.snd_queue ≡ all))
      × (rest ≢ []
          → max_frags e < count
          → (r ≡ err (buffer (too_many_fragments count (max_frags e))))
            × (payloads e'.snd_queue ++ rest ≡ all))
unfolding count_sent
queue_rest now extend [] all e p q =
    (λ h. (refl, sym (append-nil (payloads e.snd_queue)) ∙ q), λ ne. absurd (ne refl))
queue_rest now extend (b ∷ bs) all e p q =
    let rest = b ∷ bs in
    let count = fragment_count (Engine.mss e) (length rest) in
    let done = queue_fragments_lem now rest e in
    let (lo, hi) = fragment_count_lem (Engine.mss e) (length rest) p (omega arith) in
    let whole =
      payloads-fragments count now e.conv e.config.stream_mode count (Engine.mss e) 0 0 rest
        (omega (arith, lo)) in
    (
      elim [
        | inl none_left ↦ absurd (cc)
        | inr fits ↦ (
          (done.0 fits).0,
          ap payloads (done.0 fits).1
              ∙ payloads-append e.snd_queue (message_fragments now rest e)
              ∙ ap (◌++◌ (payloads e.snd_queue)) whole
              ∙ q,
        )
      ],
      λ ne over. ((done.1 over).0, ap (λ xs. payloads xs ++ rest) (done.1 over).1 ∙ q),
    )

-- In either mode, for an MTU from 25 to 2 ^ 32 - 1 and a message that is not empty: if send
-- succeeds, all bytes of the message are queued behind those that were there; if it fails, which
-- happens exactly when what does not fit the last queued segment needs too many fragments, the
-- queued bytes and those that are not queued are together the message.
pub send_bytes :
    (now : ℕ) (bytes : List ℕ) (e : KcpEngine)
    → bytes ≢ []
    → 25 ≤ e.config.mtu
    → e.config.mtu < 2 ^ 32
    → let m = merge_last e.config.stream_mode (Engine.mss e) bytes e.snd_queue in
      let count = fragment_count (Engine.mss e) (length m.rest) in
      let (e', r) = send now bytes e in
      ((m.rest ≡ []) ⊎ (count ≤ max_frags e)
        → (r ≡ ok tt) × (payloads e'.snd_queue ≡ payloads e.snd_queue ++ bytes))
      × (m.rest ≢ []
          → max_frags e < count
          → (r ≡ err (buffer (too_many_fragments count (max_frags e))))
            × (payloads e'.snd_queue ++ m.rest ≡ payloads e.snd_queue ++ bytes))
unfolding send Engine.mss max_frags
send_bytes now [] e ne lo hi = absurd (ne refl)
send_bytes now (b ∷ bs) e ne lo hi =
    let m = merge_last e.config.stream_mode (Engine.mss e) (b ∷ bs) e.snd_queue in
    queue_rest now m.extend m.rest (payloads e.snd_queue ++ b ∷ bs)
      (record e { last_activity = now; snd_queue = m.queue }) (mss_pos e lo hi)
      (merge_last-Splits e.config.stream_mode (Engine.mss e) (b ∷ bs) e.snd_queue).0

split_back-append :
    (front : List KcpSegment) (last : KcpSegment)
    → split_back (front ++ last ∷ []) ≡ some (front, last)
split_back-append [] last = refl
split_back-append (x ∷ front) last = rw (split_back-append front last) refl

merge_last-room :
    (stream : Bool) (mss : ℕ) (bytes : List ℕ) (queue front : List KcpSegment) (last : KcpSegment)
    → stream ≡ true
    → queue ≡ front ++ last ∷ []
    → length last.payload < mss
    → mss - length last.payload ≤ length bytes
    → let room = mss - length last.payload in
      merge_last stream mss bytes queue ≡ record {
        queue = front ++ extend_segment last (take room bytes) ∷ [];
        rest = drop room bytes;
        extend = room;
      }
unfolding merge_last merge_into
merge_last-room stream mss bytes queue front last s q h k =
    let found : split_back queue ≡ some (front, last) =
      ap split_back q ∙ split_back-append front last in
    let z : min (length bytes) (mss - length last.payload) ≡ mss - length last.payload =
      omega arith in
    rw (s, found, lt→ltb _ _ h, z, merge_last, merge_into) refl

too_many : (mss max len : ℕ) → 0 < mss → max * mss < len → max < fragment_count mss len
too_many mss max len p h =
    let (lo, hi) = fragment_count_lem mss len p (omega arith) in grind (arith, lo)

nonempty_drop : (n : ℕ) (bytes : List ℕ) → n < length bytes → is_empty (drop n bytes) ≡ false
nonempty_drop n [] h = absurd (omega arith)
nonempty_drop zero (b ∷ bs) h = refl
nonempty_drop (suc n) (b ∷ bs) h = nonempty_drop n bs (omega arith)

-- In stream mode, when the last queued segment has room and the message needs more than the window
-- beyond that room, send fails, and all the same the bytes that fill the room, one at least, are
-- queued for the peer.
pub send_stream_partial :
    (now : ℕ) (bytes : List ℕ) (e : KcpEngine) (front : List KcpSegment) (last : KcpSegment)
    → e.config.stream_mode ≡ true
    → e.snd_queue ≡ front ++ last ∷ []
    → length last.payload < Engine.mss e
    → Engine.mss e - length last.payload + max_frags e * Engine.mss e < length bytes
    → let room = Engine.mss e - length last.payload in
      let count = fragment_count (Engine.mss e) (length bytes - room) in
      let (e', r) = send now bytes e in
      (r ≡ err (buffer (too_many_fragments count (max_frags e))))
      × (payloads e'.snd_queue ≡ payloads e.snd_queue ++ take room bytes)
      × (0 < length (take room bytes))
unfolding send Engine.mss max_frags
send_stream_partial now [] e front last s q h k = absurd (omega arith)
send_stream_partial now (b ∷ bs) e front last s q h k =
    let bytes = b ∷ bs in
    let room = Engine.mss e - length last.payload in
    let m =
      merge_last-room e.config.stream_mode (Engine.mss e) bytes e.snd_queue front last s q h
        (omega arith) in
    let e2 = record e {
      last_activity = now;
      snd_queue = front ++ extend_segment last (take room bytes) ∷ [];
    } in
    let over =
      too_many (Engine.mss e) (max_frags e) (length (drop room bytes)) (omega arith)
        (omega (arith, length-drop room bytes)) in
    let done = (queue_fragments_lem now (drop room bytes) e2).1 over in
    rw (m, nonempty_drop room bytes (omega arith), ← length-drop room bytes)
      (
        done.0,
        ap payloads done.1
            ∙ unfold extend_segment in
              payloads-back front (extend_segment last (take room bytes))
              ∙ sym (append_assoc (payloads front) last.payload (take room bytes))
              ∙ ap (λ bs. bs ++ take room bytes) (sym (ap payloads q ∙ payloads-back front last)),
        omega (arith, length-take room bytes),
      )
