-- ===== src/Engine/Send/Fragments.antt =====
-- `send` in message mode (kcp-core/src/engine.rs): the fragments of a message.
use rust_kcp.Base.{
  ℕ, zero, suc, ◌+◌, ◌-◌, ◌*◌, ◌≤◌, ◌<◌, ◌^◌, ◌≡◌, ◌≢◌, refl, sym, ◌∙◌, arith, Bool, true, false,
  List, [], ◌∷◌, ◌++◌, append_assoc, append-nil, length, take, drop, All, length-take, length-drop,
  take-append-drop, drop-all, drop-drop, min, ltb, Bool-cases, inl, inr, ltb→lt, ltb→ge,
}
use rust_kcp.Error.{KcpCoreResult, ok, err, buffer, too_many_fragments}
use rust_kcp.Protocol.{KcpSegment, push}
use rust_kcp.Engine.{KcpEngine}
use rust_kcp.Engine
use rust_kcp.Engine.Payloads.{payloads, IsChain}
use rust_kcp.Engine.Send.{
  fragment, fragment_loop, fragment_count, max_frags, queue_fragments, send, merge_last,
}

-- What the loop appends, as a list of its own
abbrev pub fragments : ℕ → ℕ → ℕ → Bool → ℕ → ℕ → ℕ → ℕ → List ℕ → List KcpSegment
fragments zero now conv stream count mss i offset bytes = []
fragments (suc rounds) now conv stream count mss i offset bytes =
    let size = min mss (length bytes - offset) in
    fragment now conv stream count i (take size (drop offset bytes))
    ∷ fragments rounds now conv stream count mss (i + 1) (offset + size) bytes

pub fragment_loop-fragments :
    (rounds now conv : ℕ) (stream : Bool) (count mss i offset : ℕ) (bytes : List ℕ)
    (queue : List KcpSegment)
    → fragment_loop rounds now conv stream count mss i offset bytes queue
      ≡ queue ++ fragments rounds now conv stream count mss i offset bytes
unfolding fragment_loop
fragment_loop-fragments zero now conv stream count mss i offset bytes queue = sym (append-nil queue)
fragment_loop-fragments (suc rounds) now conv stream count mss i offset bytes queue =
    fragment_loop-fragments rounds now conv stream count mss (i + 1)
      (offset + min mss (length bytes - offset)) bytes _
    ∙ append_assoc queue _ _

-- A segment that is no longer than `mss` and not empty
abbrev pub Fits : ℕ → KcpSegment → Type 0
Fits mss seg = (0 < length seg.payload) × (length seg.payload ≤ mss)

payload-fragment :
    (now conv : ℕ) (stream : Bool) (count i : ℕ) (bytes : List ℕ)
    → (fragment now conv stream count i bytes).payload ≡ bytes
unfolding fragment push
payload-fragment now conv stream count i bytes = ground arith

pub payloads-fragments :
    (rounds now conv : ℕ) (stream : Bool) (count mss i offset : ℕ) (bytes : List ℕ)
    → length bytes ≤ offset + rounds * mss
    → payloads (fragments rounds now conv stream count mss i offset bytes) ≡ drop offset bytes
payloads-fragments zero now conv stream count mss i offset bytes h =
    sym (drop-all offset bytes (omega arith))
payloads-fragments (suc rounds) now conv stream count mss i offset bytes h =
    let size = min mss (length bytes - offset) in
    rw
      (
        payload-fragment now conv stream count i (take size (drop offset bytes)),
        payloads-fragments rounds now conv stream count mss (i + 1) (offset + size) bytes
            (omega arith),
        ← drop-drop size offset bytes,
      )
      (take-append-drop size (drop offset bytes))

-- What is left after one fragment still fills the other rounds.
next_offset :
    (rounds mss offset len : ℕ)
    → 0 < mss
    → offset + suc rounds * mss < len + mss
    → offset + min mss (len - offset) + rounds * mss < len + mss
next_offset zero mss offset len p h = omega arith
next_offset (suc rounds) mss offset len p h = omega arith

pub fragments-Fits :
    (rounds now conv : ℕ) (stream : Bool) (count mss i offset : ℕ) (bytes : List ℕ)
    → 0 < mss
    → offset + rounds * mss < length bytes + mss
    → All (Fits mss) (fragments rounds now conv stream count mss i offset bytes)
fragments-Fits zero now conv stream count mss i offset bytes p h = tt
fragments-Fits (suc rounds) now conv stream count mss i offset bytes p h =
    let size = min mss (length bytes - offset) in
    (
      rw (payload-fragment now conv stream count i (take size (drop offset bytes)))
          (omega (arith, length-take size (drop offset bytes), length-drop offset bytes, room)),
      fragments-Fits rounds now conv stream count mss (i + 1) (offset + size) bytes p
          (next_offset rounds mss offset (length bytes) p h),
    )
  where
    room : offset < length bytes
    room = ground arith

pub fragments-IsChain :
    (rounds now conv count mss i offset : ℕ) (bytes : List ℕ)
    → i + rounds ≡ count
    → count ≤ 256
    → IsChain rounds (fragments rounds now conv false count mss i offset bytes)
unfolding fragment
fragments-IsChain zero now conv count mss i offset bytes e h = tt
fragments-IsChain (suc rounds) now conv count mss i offset bytes e h =
    (omega arith, fragments-IsChain rounds now conv count mss (i + 1) _ bytes (omega arith) h)

-- The count is the least number of pieces of at most `mss` bytes.
pub fragment_count_lem :
    (mss len : ℕ)
    → 0 < mss
    → 0 < len
    → (len ≤ fragment_count mss len * mss) × (fragment_count mss len * mss < len + mss)
unfolding fragment_count
fragment_count_lem mss len p h = ground arith

abbrev pub message_fragments : ℕ → List ℕ → KcpEngine → List KcpSegment
message_fragments now bytes e =
    let mss = Engine.mss e in
    let count = fragment_count mss (length bytes) in
    fragments count now e.conv e.config.stream_mode count mss 0 0 bytes

-- What `queue_fragments` does to the result and the queue
abbrev pub QueuesFragments : ℕ → List ℕ → KcpEngine → KcpEngine × KcpCoreResult (Unit {0}) → Type 0
QueuesFragments now bytes e (e', r) =
    let count = fragment_count (Engine.mss e) (length bytes) in
    (count ≤ max_frags e
      → (r ≡ ok tt) × (e'.snd_queue ≡ e.snd_queue ++ message_fragments now bytes e))
    × (max_frags e < count
        → (r ≡ err (buffer (too_many_fragments count (max_frags e))))
          × (e'.snd_queue ≡ e.snd_queue))

pub queue_fragments_lem :
    (now : ℕ) (bytes : List ℕ) (e : KcpEngine)
    → QueuesFragments now bytes e (queue_fragments now bytes e)
unfolding queue_fragments fragment_loop
queue_fragments_lem now bytes e =
    let count = fragment_count (Engine.mss e) (length bytes) in
    let loop =
      fragment_loop-fragments count now e.conv e.config.stream_mode count (Engine.mss e) 0 0 bytes
        e.snd_queue in
    elim (Bool-cases (ltb (max_frags e) count)) [
      | inl t ↦
          rw (t, queue_fragments) ((λ h. absurd (omega (arith, ltb→lt _ _ t))), λ h. (refl, refl))
      | inr t ↦
          rw (t, queue_fragments) ((λ h. (refl, loop)), λ h. absurd (omega (arith, ltb→ge _ _ t)))
    ]

merge_last_message :
    (stream : Bool) (mss : ℕ) (bytes : List ℕ) (queue : List KcpSegment)
    → stream ≡ false
    → merge_last stream mss bytes queue ≡ record { queue = queue; rest = bytes; extend = 0 }
unfolding merge_last
merge_last_message true mss bytes queue h = absurd (cc)
merge_last_message false mss bytes queue h = refl

send-eq-queue_fragments :
    (now : ℕ) (bytes : List ℕ) (e : KcpEngine)
    → e.config.stream_mode ≡ false
    → bytes ≢ []
    → send now bytes e ≡ queue_fragments now bytes (record e { last_activity = now })
unfolding send
send-eq-queue_fragments now [] e s ne = absurd (ne refl)
send-eq-queue_fragments now (b ∷ bs) e s ne =
    rw (merge_last_message e.config.stream_mode (Engine.mss e) (b ∷ bs) e.snd_queue s) refl

pub mss_pos : (e : KcpEngine) → 25 ≤ e.config.mtu → e.config.mtu < 2 ^ 32 → 0 < Engine.mss e
unfolding Engine.mss
mss_pos e lo hi = omega arith

message_fragments_lem :
    (now : ℕ) (bytes : List ℕ) (e : KcpEngine)
    → e.config.stream_mode ≡ false
    → bytes ≢ []
    → 0 < Engine.mss e
    → let count = fragment_count (Engine.mss e) (length bytes) in
      let frs = message_fragments now bytes e in
      (payloads frs ≡ bytes)
      × All (Fits (Engine.mss e)) frs
      × (count ≤ max_frags e → IsChain count frs)
unfolding max_frags Engine.mss
message_fragments_lem now [] e s ne h = absurd (ne refl)
message_fragments_lem now (b ∷ bs) e s ne h =
    let bytes = b ∷ bs in
    let count = fragment_count (Engine.mss e) (length bytes) in
    let (lo, hi) = fragment_count_lem (Engine.mss e) (length bytes) h (omega arith) in
    (
      payloads-fragments count now e.conv e.config.stream_mode count (Engine.mss e) 0 0 bytes
          (omega (arith, lo)),
      fragments-Fits count now e.conv e.config.stream_mode count (Engine.mss e) 0 0 bytes h
          (omega (arith, hi)),
      λ k. rw s (
          fragments-IsChain count now e.conv count (Engine.mss e) 0 0 bytes (omega arith)
            (omega (arith, k))),
    )

-- In message mode, for an MTU from 25 to 2 ^ 32 - 1 and a message that is not empty: if its least
-- number of pieces of one segment size is at most 128 and at most the receive window, send queues
-- it behind what is there as that many non-empty fragments, each of which fits a segment, that
-- count down to 0 and join to the message; otherwise it fails and queues nothing.
pub send_message :
    (now : ℕ) (bytes : List ℕ) (e : KcpEngine)
    → e.config.stream_mode ≡ false
    → bytes ≢ []
    → 25 ≤ e.config.mtu
    → e.config.mtu < 2 ^ 32
    → let count = fragment_count (Engine.mss e) (length bytes) in
      let frs = message_fragments now bytes e in
      let (e', r) = send now bytes e in
      (count ≤ min e.config.rcv_wnd 128
        → (r ≡ ok tt)
          × (e'.snd_queue ≡ e.snd_queue ++ frs)
          × (payloads frs ≡ bytes)
          × IsChain count frs
          × All (Fits (Engine.mss e)) frs)
      × (min e.config.rcv_wnd 128 < count
          → (r ≡ err (buffer (too_many_fragments count (min e.config.rcv_wnd 128))))
            × (e'.snd_queue ≡ e.snd_queue))
unfolding send max_frags
send_message now bytes e s ne lo hi =
    let (join, fit, chain) = message_fragments_lem now bytes e s ne (mss_pos e lo hi) in
    let done = queue_fragments_lem now bytes (record e { last_activity = now }) in
    rw (send-eq-queue_fragments now bytes e s ne) (
      unfold Engine.mss max_frags in
      (λ h. ((done.0 h).0, (done.0 h).1, join, chain h, fit), done.1))
