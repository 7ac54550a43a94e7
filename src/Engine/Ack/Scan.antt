-- ===== src/Engine/Ack/Scan.antt =====
-- The linear scan for a sequence number, and numbers in order of their places in `snd_buf`
-- (kcp-core/src/engine.rs).
use rust_kcp.Base.{
  ℕ, zero, suc, ◌≤◌, ◌<◌, ◌≡◌, ◌≢◌, refl, sym, ap, ◌∙◌, arith, List, [], ◌∷◌, length, u32,
  Bool-cases, inl, inr, ◌⊎◌, get_elem?, remove_at, some, ◌==◌, if◌then◌else◌, eqb→eq, eqb→ne,
}
use rust_kcp.Protocol.{KcpSegment}
use rust_kcp.Engine.Ack.InFlight.{Numbered}

-- The scan: the first segment with the number goes.
abbrev pub without : ℕ → List KcpSegment → List KcpSegment
without sn [] = []
without sn (seg ∷ segs) = if seg.header.sn == sn then segs else seg ∷ without sn segs

abbrev pub Stands : ℕ → List KcpSegment → ℕ → KcpSegment → Type 0
Stands sn segs k seg = (get_elem? segs k ≡ some seg) × (seg.header.sn ≡ sn)

pub some-sn : (x s : KcpSegment) → some x ≡ some s → s.header.sn ≡ x.header.sn
some-sn x s p = let q : s ≡ x = cc in ap (λ (y : KcpSegment). y.header.sn) q

skip :
    (sn : ℕ) (x : KcpSegment) (xs : List KcpSegment)
    → x.header.sn ≢ sn
    → ((k : ℕ) (seg : KcpSegment) → get_elem? xs k ≡ some seg → seg.header.sn ≢ sn)
    → (k : ℕ) (seg : KcpSegment) → get_elem? (x ∷ xs) k ≡ some seg
    → seg.header.sn ≢ sn
skip sn x xs ne no_one zero seg p q = ne (sym (some-sn x seg p) ∙ q)
skip sn x xs ne no_one (suc k) seg p q = no_one k seg p q

-- Either the scan finds the number at an index, or no segment has it.
pub scan_cases :
    (sn : ℕ) (segs : List KcpSegment)
    → ((k : ℕ) × (seg : KcpSegment) × Stands sn segs k seg × (without sn segs ≡ remove_at k segs))
      ⊎ (((k : ℕ) (seg : KcpSegment) → get_elem? segs k ≡ some seg → seg.header.sn ≢ sn)
          × (without sn segs ≡ segs))
scan_cases sn [] = inr ((λ k seg e. absurd (cc)), refl)
scan_cases sn (seg ∷ segs) = elim (Bool-cases (seg.header.sn == sn)) [
  | inl e ↦ inl (0, seg, (refl, eqb→eq _ _ e), rw e)
  | inr e ↦ elim (scan_cases sn segs) [
    | inl (k, s, st, w) ↦ inl (suc k, s, st, rw e (ap (◌∷◌ seg) w))
    | inr (no_one, w) ↦ inr (skip sn seg segs (eqb→ne _ _ e) no_one, rw e (ap (◌∷◌ seg) w))
  ]
]

pub Numbered-get :
    (lo hi j : ℕ) (segs : List KcpSegment) (t : KcpSegment)
    → Numbered lo hi segs
    → get_elem? segs j ≡ some t
    → (b : ℕ) × (t.header.sn ≡ u32 b) × (lo ≤ b) × (b < hi)
Numbered-get lo hi j [] t n p = absurd (cc)
Numbered-get lo hi zero (x ∷ xs) t (a, e, l, u, n) p = (a, some-sn x t p ∙ e, l, u)
Numbered-get lo hi (suc j) (x ∷ xs) t (a, e, l, u, n) p =
    let (b, eb, lb, hb) = Numbered-get (suc a) hi j xs t n p in (b, eb, omega arith, hb)

-- Two segments in order of their places have numbers in that order.
pub Numbered-order :
    (lo hi i j : ℕ) (segs : List KcpSegment) (s t : KcpSegment)
    → Numbered lo hi segs
    → get_elem? segs i ≡ some s
    → get_elem? segs j ≡ some t
    → i < j
    → (a : ℕ) × (b : ℕ) × (s.header.sn ≡ u32 a)
      × (t.header.sn ≡ u32 b)
      × (lo ≤ a)
      × (a < b)
      × (b < hi)
Numbered-order lo hi i j [] s t n p q h = absurd (cc)
Numbered-order lo hi zero zero (x ∷ xs) s t n p q h = absurd (omega arith)
Numbered-order lo hi zero (suc j) (x ∷ xs) s t (a, e, l, u, n) p q h =
    let (b, eb, lb, hb) = Numbered-get (suc a) hi j xs t n q in
    (a, b, some-sn x s p ∙ e, eb, l, lb, hb)
Numbered-order lo hi (suc i) zero (x ∷ xs) s t n p q h = absurd (omega arith)
Numbered-order lo hi (suc i) (suc j) (x ∷ xs) s t (a, e, l, u, n) p q h =
    let (b, c, eb, ec, lb, bc, ch) = Numbered-order (suc a) hi i j xs s t n p q (omega arith) in
    (b, c, eb, ec, omega arith, bc, ch)

pub get_elem?-some :
    (k : ℕ) (segs : List KcpSegment)
    → k < length segs
    → (seg : KcpSegment) × (get_elem? segs k ≡ some seg)
get_elem?-some k [] h = absurd (omega arith)
get_elem?-some zero (x ∷ xs) h = (x, refl)
get_elem?-some (suc k) (x ∷ xs) h = get_elem?-some k xs (omega arith)
