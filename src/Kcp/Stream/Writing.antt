-- ===== src/Kcp/Stream/Writing.antt =====
-- kcp/stream.rs: what `send` and `poll_write` put into the channel to the actor.
use rust_kcp.Base.{
  ℕ, zero, suc, ◌+◌, ◌*◌, ◌≤◌, ◌<◌, ◌≡◌, ◌⊎◌, refl, sym, ap, subst, arith, inl, inr, min, Bool,
  true, false, List, [], ◌∷◌, ◌++◌, Option, none, some, length, length-take, length-append,
  append-nil, take, ltb, leb, ltb→ge, Bool-cases, Option-cases, All, concat,
}
use native.Mathlib.Nat.{lt_of_mul-lt-mul_left, mul-le-mul_left}
use rust_kcp.Error.{ok}
use rust_kcp.Engine.{KcpEngine, mss}
use rust_kcp.Engine.Payloads.{payloads}
use rust_kcp.Engine.Send.{
  Merged, merge_into, merge_last, fragment_count, max_frags, queue_fragments,
}
use rust_kcp.Engine.Send.Stream.{merge_last-Splits, send_bytes}
use rust_kcp.Engine.Send.Fragments.{fragment_count_lem}
use rust_kcp.Engine.Send as Engine
use rust_kcp.Kcp.Config.{KcpConfig, to_core}
use rust_kcp.Kcp.Config.Valid.{IsValid}
use rust_kcp.Kcp.Stream.{
  KcpStream, Poll, ready, pending, IoError, IoResult, done, failed, broken_pipe, other_error,
  TrySend, sent, channel_closed, channel_full, stream_mss, stream_max_msg, send, poll_pending_write,
  poll_write,
}

count_within : (mss n len : ℕ) → 0 < mss → 0 < n → len ≤ mss * n → fragment_count mss len ≤ n
unfolding fragment_count
count_within size n zero p q h = let one : leb 0 size ≡ true = ground arith in rw one q
count_within size n (suc len) p q h =
    let (lo, hi) = fragment_count_lem size (suc len) p (omega arith) in
    let under : size * fragment_count size (suc len) < size * (n + 1) = omega (arith, hi, h) in
    omega (arith, lt_of_mul-lt-mul_left size under)

mss-frags :
    (c : KcpConfig) (e : KcpEngine)
    → IsValid c
    → e.config ≡ to_core c
    → (mss e ≡ stream_mss c)
      × (max_frags e ≡ min c.rcv_wnd 128)
      × (0 < stream_mss c)
      × (0 < min c.rcv_wnd 128)
unfolding mss max_frags stream_mss to_core
mss-frags c e v z = (
  rw z (omega (arith, v.mtu_from, v.mtu_to)),
  rw z refl,
  omega (arith, v.mtu_from),
  omega (arith, v.rcv_from),
)

-- What the engine does with a message from the channel
abbrev pub IsQueued : ℕ → List ℕ → KcpEngine → Type 0
IsQueued now bytes e =
    let (e', r) = Engine.send now bytes e in
    (r ≡ ok tt) × (payloads e'.snd_queue ≡ payloads e.snd_queue ++ bytes)

-- It queues a message of at most as many bytes as one call can take.
send-IsQueued :
    (now : ℕ) (bytes : List ℕ) (c : KcpConfig) (e : KcpEngine)
    → IsValid c
    → e.config ≡ to_core c
    → length bytes ≤ stream_mss c * min c.rcv_wnd 128
    → IsQueued now bytes e
unfolding Engine.send to_core
send-IsQueued now [] c e v z h = (refl, sym (append-nil (payloads e.snd_queue)))
send-IsQueued now (b ∷ bs) c e v z h =
    let bytes = b ∷ bs in
    let m = merge_last e.config.stream_mode (mss e) bytes e.snd_queue in
    let few = (merge_last-Splits e.config.stream_mode (mss e) bytes e.snd_queue).1 in
    let (same, room, pos, some_room) = mss-frags c e v z in
    let limit : mss e * max_frags e ≡ stream_mss c * min c.rcv_wnd 128 = rw (same, room) refl in
    let small : length m.rest ≤ mss e * max_frags e = omega (arith, few, h, limit) in
    let fits =
      count_within (mss e) (max_frags e) (length m.rest) (rw same pos) (rw room some_room) small in
    (send_bytes now bytes e (λ ne. cc) (rw z (omega (arith, v.mtu_from)))
        (rw z (omega (arith, v.mtu_to)))).0
      (inr fits)

-- A stream of this configuration. The limits never change.
abbrev pub HasLimits : KcpConfig → KcpStream → Type 0
HasLimits c s = (s.mss ≡ stream_mss c) × (s.max_msg ≡ stream_max_msg c)

abbrev pub AllQueued : ℕ → KcpEngine → Option (List ℕ) → Type 0
AllQueued now e none = Unit
AllQueued now e (some bytes) = IsQueued now bytes e

-- With a valid configuration, whatever a stream's send puts into the channel, the engine's send
-- accepts, in either mode: it returns Ok, and the whole message is queued behind what was there.
pub send-AllQueued :
    (accepted : Bool) (now : ℕ) (bytes : List ℕ) (c : KcpConfig) (s : KcpStream) (e : KcpEngine)
    → IsValid c
    → HasLimits c s
    → e.config ≡ to_core c
    → AllQueued now e (send accepted bytes s).0
unfolding send stream_max_msg
send-AllQueued accepted now bytes c s e v (m, x) z = elim (Bool-cases s.is_closed) [
  | inl t ↦ rw (t, send) tt
  | inr t ↦ elim (Bool-cases (ltb s.max_msg (length bytes))) [
    | inl u ↦ rw (t, u, send) tt
    | inr u ↦ elim (Bool-cases accepted) [
      | inl w ↦
          rw (t, u, w, send) (send-IsQueued now bytes c e v z (omega (arith, x, ltb→ge _ _ u)))
      | inr w ↦ rw (t, u, w, send) tt
    ]
  ]
]

-- The chunk of a write that waits is no longer than a segment.
abbrev pub WaitsWithin : ℕ → Option (List ℕ) → Type 0
WaitsWithin size none = Unit
WaitsWithin size (some chunk) = length chunk ≤ size

-- A poll of a write: a chunk goes into the channel exactly when the caller is told of its bytes, and
-- it is no longer than a segment.
abbrev pub Writes : ℕ → KcpStream × Option (List ℕ) × Poll (IoResult ℕ) → Type 0
Writes size (s', some chunk, r) =
    (r ≡ ready (done (length chunk)))
    × (length chunk ≤ size)
    × (s'.pending_write ≡ none)
    × (s'.mss ≡ size)
Writes size (s', none, r) =
    ((r ≡ pending) ⊎ ((x : IoError) × (r ≡ ready (failed x))))
    × WaitsWithin size s'.pending_write
    × (s'.mss ≡ size)

poll_pending_write-Writes :
    (waited : Poll Bool) (chunk : List ℕ) (s : KcpStream)
    → length chunk ≤ s.mss
    → s.pending_write ≡ some chunk
    → Writes s.mss (poll_pending_write waited chunk s)
unfolding poll_pending_write
poll_pending_write-Writes (ready true) chunk s h p = (refl, h, refl, refl)
poll_pending_write-Writes (ready false) chunk s h p = (inr (other_error, refl), tt, refl)
poll_pending_write-Writes pending chunk s h p = (inl refl, rw p h, refl)

first_write-Writes :
    (try : TrySend) (waited : Poll Bool) (buf : List ℕ) (s : KcpStream)
    → s.is_closed ≡ false
    → s.pending_write ≡ none
    → Writes s.mss (poll_write try waited buf s)
unfolding poll_write
first_write-Writes sent waited buf s t p =
    let within : length (take (min (length buf) s.mss) buf) ≤ s.mss =
      omega (arith, length-take (min (length buf) s.mss) buf) in
    simp (t, p, poll_write) (refl, within, refl, refl)
first_write-Writes channel_closed waited buf s t p =
    simp (t, p, poll_write) (inr (broken_pipe, refl), tt, refl)
first_write-Writes channel_full waited buf s t p =
    let chunk = take (min (length buf) s.mss) buf in
    simp (t, p, poll_write)
      (poll_pending_write-Writes waited chunk
        (record s { pending_write = some chunk; is_closed = false })
        (omega (arith, length-take (min (length buf) s.mss) buf)) refl)

pub poll_write-Writes :
    (try : TrySend) (waited : Poll Bool) (buf : List ℕ) (s : KcpStream)
    → WaitsWithin s.mss s.pending_write
    → Writes s.mss (poll_write try waited buf s)
unfolding poll_write
poll_write-Writes try waited buf s w = elim (Bool-cases s.is_closed) [
  | inl t ↦ simp (t, poll_write) (inr (broken_pipe, refl), w, refl)
  | inr t ↦ elim (Option-cases s.pending_write) [
    | inr (chunk, p) ↦
        simp (t, p, poll_write) (poll_pending_write-Writes waited chunk s (rw p at w) p)
    | inl p ↦ (first_write-Writes try waited buf s t p)
  ]
]

-- The bytes that a poll says are written
abbrev pub written : Poll (IoResult ℕ) → ℕ
written (ready (done n)) = n
written (ready (failed x)) = 0
written pending = 0

abbrev pub put_chunk : Option (List ℕ) → List (List ℕ) → List (List ℕ)
put_chunk none chunks = chunks
put_chunk (some chunk) chunks = chunk ∷ chunks

-- A row of polls: the chunks that go into the channel, and the number of bytes written
unfoldable pub poll_writes : List (TrySend × Poll Bool × List ℕ) → KcpStream → List (List ℕ) × ℕ
poll_writes [] s = ([], 0)
poll_writes ((try, waited, buf) ∷ polls) s =
    let (s', chunk, r) = poll_write try waited buf s in
    let (chunks, total) = poll_writes polls s' in (put_chunk chunk chunks, written r + total)

Writes-count :
    (size : ℕ) (x : KcpStream × Option (List ℕ) × Poll (IoResult ℕ)) (chunks : List (List ℕ))
    (total : ℕ)
    → Writes size x
    → total ≡ length (concat chunks)
    → All (λ chunk. length chunk ≤ size) chunks
    → (written x.2 + total ≡ length (concat (put_chunk x.1 chunks)))
      × All (λ chunk. length chunk ≤ size) (put_chunk x.1 chunks)
Writes-count size (s', some chunk, r) chunks total w n f =
    (omega (arith, ap written w.0, n, length-append chunk (concat chunks)), (w.1, f))
Writes-count size (s', none, r) chunks total w n f = elim w.0 [
  | inl p ↦ (omega (arith, ap written p, n), f)
  | inr (x, p) ↦ (omega (arith, ap written p, n), f)
]

Writes-waits :
    (size : ℕ) (x : KcpStream × Option (List ℕ) × Poll (IoResult ℕ))
    → Writes size x
    → (x.0.mss ≡ size) × WaitsWithin size x.0.pending_write
Writes-waits size (s', some chunk, r) w = (w.3, subst (WaitsWithin size) (sym w.2) tt)
Writes-waits size (s', none, r) w = (w.2, w.1)

-- Over any row of polls of a write, from a stream whose waiting chunk is no longer than a segment,
-- whether the channel is open, full or closed and whatever its future gives: the bytes that the
-- user is told are written are as many as the chunks put into the channel hold, and no chunk is
-- longer than a segment.
pub poll_writes_lem :
    (size : ℕ) (polls : List (TrySend × Poll Bool × List ℕ)) (s : KcpStream)
    → s.mss ≡ size
    → WaitsWithin size s.pending_write
    → let (chunks, total) = poll_writes polls s in
      (total ≡ length (concat chunks)) × All (λ chunk. length chunk ≤ size) chunks
unfolding poll_writes
poll_writes_lem size [] s z w = (refl, tt)
poll_writes_lem size ((try, waited, buf) ∷ polls) s z w =
    let x = poll_write try waited buf s in
    let v = subst (λ n. Writes n x) z (poll_write-Writes try waited buf s (rw z w)) in
    let (m, p) = Writes-waits size x v in
    let rest = poll_writes_lem size polls x.0 m p in
    Writes-count size x (poll_writes polls x.0).0 (poll_writes polls x.0).1 v rest.0 rest.1

-- A chunk of a segment at most is queued whole.
pub chunk-IsQueued :
    (now : ℕ) (chunk : List ℕ) (c : KcpConfig) (e : KcpEngine)
    → IsValid c
    → e.config ≡ to_core c
    → length chunk ≤ stream_mss c
    → IsQueued now chunk e
chunk-IsQueued now chunk c e v z h =
    let (same, room, pos, some_room) = mss-frags c e v z in
    let more : stream_mss c * 1 ≤ stream_mss c * min c.rcv_wnd 128 =
      mul-le-mul_left (stream_mss c) some_room in
    send-IsQueued now chunk c e v z (omega (arith, h, more))
