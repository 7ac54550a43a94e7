-- ===== src/Engine/Sending.antt =====
-- The send side of an engine (kcp-core/src/engine.rs): the payloads by their numbers, and what the
-- datagrams carry of them.
pub mod Launching
pub mod Flushing
pub mod Acking
pub mod Queueing
pub mod History
pub mod Transfer
use rust_kcp.Base.{
  ℕ, ◌<◌, ◌^◌, arith, zero, suc, ◌≡◌, ◌≢◌, ◌⊎◌, refl, sym, ap, ◌∙◌, subst, arith, inl, inr, List,
  [], ◌∷◌, ◌++◌, append_assoc, append-nil, length, length-append, get_elem?, Option, none, some,
  u32, All, All-append, Bool-cases, ltb, not, is_empty, ◌+◌, ◌&&◌,
}
use rust_kcp.Protocol.{KcpSegment, size}
use rust_kcp.Protocol.Constants.{ikcp_cmd_push}
use rust_kcp.Protocol.Wire.{ByteCodec, encode}
use rust_kcp.Engine.{KcpEngine}
use rust_kcp.Engine.Output.{split_out_buf, append_segment, output_segment, flush_out_buf}
use rust_kcp.Engine.Input.Parse.{datagram}

abbrev pub HasLength : KcpSegment → Type 0
HasLength seg = seg.header.len ≡ u32 (length seg.payload)

-- `log` has the payloads that were numbered so far. A segment carries the one of its number, with its
-- length.
abbrev pub IsLogged : List (List ℕ) → KcpSegment → Type 0
IsLogged log seg =
    (k : ℕ) × (seg.header.sn ≡ u32 k)
    × (get_elem? log k ≡ some seg.payload)
    × HasLength seg
    × (seg.header.cmd ≡ ikcp_cmd_push)

abbrev pub Carries : List (List ℕ) → KcpSegment → Type 0
Carries log seg =
    HasLength seg × (seg.header.cmd < 2 ^ 8) × ((seg.header.cmd ≢ ikcp_cmd_push) ⊎ IsLogged log seg)

get_elem?-more :
    (xs ys : List (List ℕ)) (k : ℕ) (x : List ℕ)
    → get_elem? xs k ≡ some x
    → get_elem? (xs ++ ys) k ≡ some x
get_elem?-more [] ys k x h = absurd (cc)
get_elem?-more (z ∷ xs) ys zero x h = h
get_elem?-more (z ∷ xs) ys (suc k) x h = get_elem?-more xs ys k x h

pub get_elem?-last :
    (xs : List (List ℕ)) (x : List ℕ) → get_elem? (xs ++ x ∷ []) (length xs) ≡ some x
get_elem?-last [] x = refl
get_elem?-last (z ∷ xs) x = get_elem?-last xs x

pub All-more {ℓ κ μ} :
    {A : Type ℓ} (P : A → Type κ) (Q : A → Type μ) (xs : List A)
    → ((x : A) → P x → Q x)
    → All P xs
    → All Q xs
All-more P Q [] f h = tt
All-more P Q (x ∷ xs) f h = (f x h.0, All-more P Q xs f h.1)

pub IsLogged-more :
    (log more : List (List ℕ)) (seg : KcpSegment) → IsLogged log seg → IsLogged (log ++ more) seg
IsLogged-more log more seg (k, n, g, l, c) = (k, n, get_elem?-more log more k seg.payload g, l, c)

pub Carries-more :
    (log more : List (List ℕ)) (seg : KcpSegment) → Carries log seg → Carries (log ++ more) seg
Carries-more log more seg (l, c, inl other) = (l, c, inl other)
Carries-more log more seg (l, c, inr n) = (l, c, inr (IsLogged-more log more seg n))

pub IsLogged-Carries : (log : List (List ℕ)) (seg : KcpSegment) → IsLogged log seg → Carries log seg
IsLogged-Carries log seg (k, n, g, l, c) = (l, omega (arith, c), inr (k, n, g, l, c))

module _ (codec : ByteCodec) where
  -- A datagram of whole segments, whose data segments carry the payloads of their numbers
  pub record IsOwn (log : List (List ℕ)) (bytes : List ℕ) : Type 0 where
    pub segments : List KcpSegment
    pub is_datagram : bytes ≡ datagram codec segments
    pub carried : All (Carries log) segments

  pub IsOwn-more :
      (log more : List (List ℕ)) (bytes : List ℕ) → IsOwn log bytes → IsOwn (log ++ more) bytes
  IsOwn-more log more bytes d = record {
    segments = d.segments;
    is_datagram = d.is_datagram;
    carried = All-more _ _ d.segments (Carries-more log more) d.carried;
  }

  datagram-snoc :
      (segs : List KcpSegment) (seg : KcpSegment)
      → datagram codec segs ++ encode codec seg ≡ datagram codec (segs ++ seg ∷ [])
  datagram-snoc [] seg = sym (append-nil (encode codec seg))
  datagram-snoc (x ∷ segs) seg =
      append_assoc (encode codec x) (datagram codec segs) (encode codec seg)
      ∙ ap (◌++◌ (encode codec x)) (datagram-snoc segs seg)

  IsOwn-snoc :
      (log : List (List ℕ)) (bytes : List ℕ) (seg : KcpSegment)
      → Carries log seg
      → IsOwn log bytes
      → IsOwn log (bytes ++ encode codec seg)
  IsOwn-snoc log bytes seg c d = record {
    segments = d.segments ++ seg ∷ [];
    is_datagram = ap (λ bs. bs ++ encode codec seg) d.is_datagram ∙ datagram-snoc d.segments seg;
    carried = All-append _ d.segments (seg ∷ []) d.carried (c, tt);
  }

  pub IsOwn-nil : (log : List (List ℕ)) → IsOwn log []
  IsOwn-nil log = record { segments = []; is_datagram = refl; carried = tt }

  -- `log` is what was numbered, `queue` what waits for its number, and all that the engine puts
  -- out is of the former.
  pub record KeepsLog (log : List (List ℕ)) (queue : List KcpSegment) (e : KcpEngine) : Type 0 where
    pub waiting : e.snd_queue ≡ queue
    pub lengths : All HasLength e.snd_queue
    pub next : e.snd_nxt ≡ u32 (length log)
    pub in_flight : All (IsLogged log) e.snd_buf
    pub pending : IsOwn log e.out_buf
    pub queued : All (IsOwn log) e.output_queue

  -- What a call leaves alone
  abbrev pub SameSending : KcpEngine → KcpEngine → Type 0
  SameSending e e' =
      (e'.snd_queue ≡ e.snd_queue)
      × (e'.snd_nxt ≡ e.snd_nxt)
      × (e'.snd_buf ≡ e.snd_buf)
      × (e'.out_buf ≡ e.out_buf)
      × (e'.output_queue ≡ e.output_queue)

  pub SameSending-KeepsLog :
      {log : List (List ℕ)} {queue : List KcpSegment} (e e' : KcpEngine)
      → SameSending e e'
      → KeepsLog log queue e
      → KeepsLog log queue e'
  SameSending-KeepsLog e e' (q, n, b, o, d) v = record {
    waiting = q ∙ v.waiting;
    lengths = rw q v.lengths;
    next = n ∙ v.next;
    in_flight = rw b v.in_flight;
    pending = rw o v.pending;
    queued = rw d v.queued;
  }

  pub buf-KeepsLog :
      {log : List (List ℕ)} {queue : List KcpSegment} (e : KcpEngine) (buf : List KcpSegment)
      → All (IsLogged log) buf
      → KeepsLog log queue e
      → KeepsLog log queue (record e { snd_buf = buf })
  buf-KeepsLog e buf f v = record {
    waiting = v.waiting;
    lengths = v.lengths;
    next = v.next;
    in_flight = f;
    pending = v.pending;
    queued = v.queued;
  }

  split_out_buf-KeepsLog :
      {log : List (List ℕ)} {queue : List KcpSegment} (e : KcpEngine)
      → KeepsLog log queue e
      → KeepsLog log queue (split_out_buf e)
  unfolding split_out_buf
  split_out_buf-KeepsLog {log} e v = record {
    waiting = v.waiting;
    lengths = v.lengths;
    next = v.next;
    in_flight = v.in_flight;
    pending = IsOwn-nil log;
    queued = All-append _ e.output_queue (e.out_buf ∷ []) v.queued (v.pending, tt);
  }

  append_segment-KeepsLog :
      {log : List (List ℕ)} {queue : List KcpSegment} (seg : KcpSegment) (e : KcpEngine)
      → Carries log seg
      → KeepsLog log queue e
      → KeepsLog log queue (append_segment codec seg e)
  unfolding append_segment
  append_segment-KeepsLog {log} seg e c v = record {
    waiting = v.waiting;
    lengths = v.lengths;
    next = v.next;
    in_flight = v.in_flight;
    pending = IsOwn-snoc log e.out_buf seg c v.pending;
    queued = v.queued;
  }

  pub output_segment-KeepsLog :
      {log : List (List ℕ)} {queue : List KcpSegment} (seg : KcpSegment) (e : KcpEngine)
      → Carries log seg
      → KeepsLog log queue e
      → KeepsLog log queue (output_segment codec seg e)
  unfolding output_segment
  output_segment-KeepsLog seg e c v =
      elim (Bool-cases
        (ltb e.config.mtu (length e.out_buf + size seg) && not (is_empty e.out_buf))) [
          | inl t ↦
              rw (t, output_segment)
                (append_segment-KeepsLog seg (split_out_buf e) c (split_out_buf-KeepsLog e v))
          | inr t ↦ rw (t, output_segment) (append_segment-KeepsLog seg e c v)
        ]

  pub flush_out_buf-KeepsLog :
      {log : List (List ℕ)} {queue : List KcpSegment} (e : KcpEngine)
      → KeepsLog log queue e
      → KeepsLog log queue (flush_out_buf e)
  unfolding flush_out_buf
  flush_out_buf-KeepsLog e v = elim (Bool-cases (is_empty e.out_buf)) [
    | inl t ↦ rw (t, flush_out_buf) v
    | inr t ↦ rw (t, flush_out_buf) (split_out_buf-KeepsLog e v)
  ]
