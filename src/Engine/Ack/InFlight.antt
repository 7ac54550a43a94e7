-- ===== src/Engine/Ack/InFlight.antt =====
-- The segments in flight by their numbers without wrap, and what an acknowledgement of all before a
-- number takes from them (`parse_una`, `shrink_buf` of kcp-core/src/engine.rs).
use rust_kcp.Base.{
  ℕ, suc, ◌+◌, ◌≤◌, ◌<◌, ◌^◌, ◌≡◌, refl, ap, ◌∙◌, arith, max, min, List, [], ◌∷◌, ◌++◌, u32,
  Bool-cases, inl, inr, ltb, ltb→lt, ltb→ge, All,
}
use rust_kcp.Protocol.{KcpSegment}
use rust_kcp.Protocol.Seq.{seq_before, seq_before-u32}
use rust_kcp.Engine.{KcpEngine}
use rust_kcp.Engine.Ack.{drop_before, parse_una, shrink_buf}

-- Segments with ascending numbers from `lo` to below `hi`
abbrev pub Numbered : ℕ → ℕ → List KcpSegment → Type 0
Numbered lo hi [] = Unit {0}
Numbered lo hi (seg ∷ segs) =
    (a : ℕ) × (seg.header.sn ≡ u32 a) × (lo ≤ a) × (a < hi) × Numbered (suc a) hi segs

-- The send side: what is in flight is numbered from `u` to below `m`, fewer than 2 ^ 30 numbers.
pub record IsSending (u m : ℕ) (e : KcpEngine) : Type 0 where
  pub oldest : e.snd_una ≡ u32 u
  pub next : e.snd_nxt ≡ u32 m
  pub ordered : u ≤ m
  pub span : m ≤ u + 2 ^ 30
  pub numbered : Numbered u m e.snd_buf

pub Numbered-mono :
    (lo lo' hi : ℕ) (segs : List KcpSegment) → lo' ≤ lo → Numbered lo hi segs → Numbered lo' hi segs
Numbered-mono lo lo' hi [] h n = tt
Numbered-mono lo lo' hi (seg ∷ segs) h (a, e, l, u, n) = (a, e, omega arith, u, n)

-- The segments that are numbered below `a`
abbrev pub AllBefore : ℕ → ℕ → List KcpSegment → Type 0
AllBefore lo a = All (λ seg. (k : ℕ) × (seg.header.sn ≡ u32 k) × (lo ≤ k) × (k < a))

AllBefore-mono :
    (lo lo' a : ℕ) (segs : List KcpSegment) → lo' ≤ lo → AllBefore lo a segs → AllBefore lo' a segs
AllBefore-mono lo lo' a [] h b = tt
AllBefore-mono lo lo' a (seg ∷ segs) h ((k, e, l, u), b) =
    ((k, e, omega arith, u), AllBefore-mono lo lo' a segs h b)

-- What `drop_before` drops and keeps
pub record Dropped (lo hi a : ℕ) (segs kept : List KcpSegment) : Type 0 where
  pub dropped : List KcpSegment
  pub split : segs ≡ dropped ++ kept
  pub before : AllBefore lo a dropped
  pub rest : Numbered (max lo a) hi kept

-- Of numbered segments, less than 2 ^ 31 apart from `a`, `drop_before` takes exactly those that are
-- numbered below `a` off the front, and keeps those from `a` on.
pub drop_before-Dropped :
    (lo hi a : ℕ) (segs : List KcpSegment)
    → a < lo + 2 ^ 31
    → hi ≤ a + 2 ^ 31
    → Numbered lo hi segs
    → Dropped lo hi a segs (drop_before (u32 a) segs)
unfolding drop_before
drop_before-Dropped lo hi a [] h k n = record { dropped = []; split = refl; before = tt; rest = tt }
drop_before-Dropped lo hi a (seg ∷ segs) h k (b, e, l, u, n) =
    let order : seq_before seg.header.sn (u32 a) ≡ ltb b a =
      ap (λ x. seq_before x (u32 a)) e ∙ seq_before-u32 b a (omega arith) (omega arith) in
    elim (Bool-cases (ltb b a)) [
      | inl lt ↦
          let d = drop_before-Dropped (suc b) hi a segs (omega arith) k n in
          rw (order ∙ lt, drop_before)
            (record {
              dropped = seg ∷ d.dropped;
              split = ap (◌∷◌ seg) d.split;
              before = (
                (b, e, l, ltb→lt _ _ lt),
                AllBefore-mono (suc b) lo a d.dropped (omega arith) d.before,
              );
              rest = Numbered-mono (max (suc b) a) (max lo a) hi _ (omega arith) d.rest;
            })
      | inr ge ↦
          rw (order ∙ ge, drop_before)
            (record {
              dropped = [];
              split = refl;
              before = tt;
              rest = (b, e, omega (arith, ltb→ge _ _ ge), u, n);
            })
    ]

-- `v` is the number of the first segment in flight, or `m` when there is none.
abbrev pub IsFirst : ℕ → ℕ → List KcpSegment → Type 0
IsFirst m v [] = v ≡ m
IsFirst m v (seg ∷ segs) = seg.header.sn ≡ u32 v

-- On a well-formed send side, a cumulative acknowledgement of all segments before number a, for a
-- less than 2 ^ 31 from the numbers in flight, takes exactly the segments below a out of flight;
-- snd_una then moves forward to the first number still in flight, or to snd_nxt, and the send side
-- stays well formed.
pub parse_una_acknowledges :
    (u m a : ℕ) (e : KcpEngine)
    → IsSending u m e
    → a < u + 2 ^ 31
    → m ≤ a + 2 ^ 31
    → let e' = shrink_buf (parse_una (u32 a) e) in
      Dropped u m a e.snd_buf e'.snd_buf
      × ((v : ℕ) × IsSending v m e' × IsFirst m v e'.snd_buf × (u ≤ v) × (min a m ≤ v))
      × (e'.snd_nxt ≡ e.snd_nxt)
unfolding parse_una shrink_buf
parse_una_acknowledges u m a e s h k =
    let d = drop_before-Dropped u m a e.snd_buf h k s.numbered in (d, after u m a e _ s d, refl)
  where
    after :
        (u m a : ℕ) (e : KcpEngine) (kept : List KcpSegment)
        → IsSending u m e
        → Dropped u m a e.snd_buf kept
        → (v : ℕ) × IsSending v m (shrink_buf (record e { snd_buf = kept }))
          × IsFirst m v kept
          × (u ≤ v)
          × (min a m ≤ v)
    after u m a e [] s d = (
      m,
      record {
        oldest = s.next;
        next = s.next;
        ordered = omega arith;
        span = omega arith;
        numbered = tt;
      },
      refl,
      s.ordered,
      omega arith,
    )
    after u m a e (x ∷ xs) s d =
        let (b, eb, l, h, n) = d.rest in
        (
          b,
          record {
            oldest = eb;
            next = s.next;
            ordered = omega arith;
            span = omega (arith, s.span);
            numbered = (b, eb, omega arith, h, n);
          },
          eb,
          omega arith,
          omega arith,
        )
