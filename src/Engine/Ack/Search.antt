-- ===== src/Engine/Ack/Search.antt =====
-- The binary search of `parse_ack` (kcp-core/src/engine.rs) against a linear scan.
use rust_kcp.Base.{
  ℕ, zero, suc, ◌+◌, ◌-◌, ◌/◌, ◌≤◌, ◌<◌, ◌^◌, ◌≡◌, refl, sym, ap, ap₂, ◌∙◌, subst, arith, true,
  false, List, [], ◌∷◌, length, u32, Bool-cases, Option-cases, inl, inr, ltb, leb, leb→le, leb→gt,
  get_elem?, some, ◌==◌, is_pos, is_neg, not, ◌&&◌, lt→ltb, ge→ltb,
}
use mathlib.Core.Logic.{◌↔◌}
use native.Mathlib.Decide.{dec_lt}
use rust_kcp.Protocol.{KcpSegment}
use rust_kcp.Protocol.Seq.{time_diff, seq_before, seq_before-u32}
use rust_kcp.Engine.{KcpEngine}
use rust_kcp.Engine.Ack.{search_loop, binary_search, remove_acked, not_in_flight, parse_ack}
use rust_kcp.Engine.Ack.InFlight.{Numbered, Numbered-mono, IsSending}
use rust_kcp.Engine.Ack.Scan.{
  without, some-sn, scan_cases, Numbered-get, Numbered-order, get_elem?-some,
}

diff_pos :
    (a b x y : ℕ)
    → x ≡ u32 a
    → y ≡ u32 b
    → a < b + 2 ^ 31
    → b < a + 2 ^ 31
    → is_pos (time_diff x y) ≡ ltb b a
unfolding time_diff
diff_pos a b x y e f h k = ground arith

diff_zero :
    (x y : ℕ)
    → x < 2 ^ 32
    → y < 2 ^ 32
    → (x ≡ y) ↔ ((not (is_neg (time_diff x y)) && not (is_pos (time_diff x y))) ≡ true)
unfolding time_diff
diff_zero x y h k = (λ e. ground arith, λ e. ground arith)

module _ (lo hi : ℕ) (segs : List KcpSegment) (n : Numbered lo hi segs) (span : hi ≤ lo + 2 ^ 31)
    (k : ℕ) (seg : KcpSegment) (at_k : get_elem? segs k ≡ some seg) where
  -- The test of a round says on which side of the place the middle stands.
  compare_places :
      (mid : ℕ) (s : KcpSegment)
      → get_elem? segs mid ≡ some s
      → (is_pos (time_diff s.header.sn seg.header.sn) ≡ true → k < mid)
        × (is_pos (time_diff s.header.sn seg.header.sn) ≡ false → mid ≤ k)
  compare_places mid s p = elim (dec_lt mid k) [
    | yes l ↦
        let (a, b, ea, eb, la, ab, bh) = Numbered-order lo hi mid k segs s seg n p at_k l in
        let d = diff_pos a b _ _ ea eb (omega arith) (omega arith) ∙ ge→ltb b a (omega arith) in
        (λ t. absurd (cc), λ t. omega arith)
    | no nl ↦ elim (dec_lt k mid) [
      | yes l ↦
          let (b, a, eb, ea, lb, ba, ah) = Numbered-order lo hi k mid segs seg s n at_k p l in
          let d = diff_pos a b _ _ ea eb (omega arith) (omega arith) ∙ lt→ltb b a ba in
          (λ t. l, λ t. absurd (cc))
      | no nm ↦
          let (a, ea, la, ha) = Numbered-get lo hi k segs seg n at_k in
          let m : mid ≡ k = omega arith in
          let same : s.header.sn ≡ seg.header.sn =
            some-sn seg s (sym at_k ∙ ap (get_elem? segs) (sym m) ∙ p) in
          let d =
            diff_pos a a _ _ (same ∙ ea) ea (omega arith) (omega arith)
            ∙ ge→ltb a a (omega arith) in
          (λ t. absurd (cc), λ t. omega arith)
    ]
  ]

  search_finds :
      (fuel base size : ℕ)
      → size ≤ fuel
      → base ≤ k
      → k < base + size
      → base + size ≤ length segs
      → search_loop fuel seg.header.sn segs base size ≡ k
  unfolding search_loop
  search_finds zero base size f l h b = absurd (omega arith)
  search_finds (suc fuel) base size f l h b = elim (Bool-cases (leb size 1)) [
    | inl one ↦ rw (one, search_loop) (omega (arith, leb→le _ _ one))
    | inr more ↦
        let big = leb→gt _ _ more in
        let (s, p) = get_elem?-some (base + size / 2) segs (omega arith) in
        let (up, down) = compare_places (base + size / 2) s p in
        elim (Bool-cases (is_pos (time_diff s.header.sn seg.header.sn))) [
          | inl t ↦
              let side = up t in
              rw (more, p, t, search_loop)
                (search_finds fuel base (size - size / 2) (omega arith) l (omega arith)
                  (omega arith))
          | inr t ↦
              let side = down t in
              rw (more, p, t, search_loop)
                (search_finds fuel (base + size / 2) (size - size / 2) (omega arith) side
                  (omega arith) (omega arith))
        ]
  ]

  get_elem?-lt :
      (segs : List KcpSegment) (j : ℕ) (s : KcpSegment)
      → get_elem? segs j ≡ some s
      → j < length segs
  get_elem?-lt [] j s p = absurd (cc)
  get_elem?-lt (x ∷ xs) zero s p = omega arith
  get_elem?-lt (x ∷ xs) (suc j) s p = omega (arith, get_elem?-lt xs j s p)

  binary_search_finds : binary_search seg.header.sn segs ≡ some k
  unfolding binary_search
  binary_search_finds =
      let found =
        search_finds (length segs) 0 (length segs) (omega arith) (omega arith)
          (omega (arith, get_elem?-lt segs k seg at_k)) (omega arith) in
      let (a, ea, la, ha) = Numbered-get lo hi k segs seg n at_k in
      rw
        (
          found,
          at_k,
          (diff_zero seg.header.sn seg.header.sn (omega arith) (omega arith)).0 refl,
          binary_search,
        )
        (ap some found)

-- Whatever the list, what the search finds has the number.
binary_search-some :
    (sn pos : ℕ) (segs : List KcpSegment)
    → sn < 2 ^ 32
    → ((k : ℕ) (s : KcpSegment) → get_elem? segs k ≡ some s → s.header.sn < 2 ^ 32)
    → binary_search sn segs ≡ some pos
    → (s : KcpSegment) × (get_elem? segs pos ≡ some s) × (s.header.sn ≡ sn)
unfolding binary_search
binary_search-some sn pos segs h small e =
    let base = search_loop (length segs) sn segs 0 (length segs) in
    elim (Option-cases (get_elem? segs base)) [
      | inl absent ↦ absurd (cc (rw (absent, binary_search) at e))
      | inr (s, p) ↦
          elim (Bool-cases
            (not (is_neg (time_diff s.header.sn sn)) && not (is_pos (time_diff s.header.sn sn)))) [
              | inr differ ↦ absurd (cc (rw (p, differ, binary_search) at e))
              | inl equal ↦
                  let q : some base ≡ some pos = rw (p, equal, binary_search) at e in
                  let z : base ≡ pos = cc in
                  (
                    s,
                    subst (λ j. get_elem? segs j ≡ some s) z p,
                    (diff_zero s.header.sn sn (small base s p) h).1 equal,
                  )
            ]
    ]

sn_small :
    (lo hi : ℕ) (segs : List KcpSegment)
    → Numbered lo hi segs
    → (k : ℕ) (s : KcpSegment) → get_elem? segs k ≡ some s
    → s.header.sn < 2 ^ 32
sn_small lo hi segs n k s p = let (a, e, l, h) = Numbered-get lo hi k segs s n p in omega arith

-- On segments in flight under ascending numbers that span at most 2 ^ 31, the binary search of
-- parse_ack removes the same segment as a linear scan for the sequence number, and none where the
-- scan finds none.
pub remove_acked-without :
    (lo hi sn : ℕ) (segs : List KcpSegment)
    → sn < 2 ^ 32
    → hi ≤ lo + 2 ^ 31
    → Numbered lo hi segs
    → remove_acked sn segs ≡ without sn segs
unfolding remove_acked
remove_acked-without lo hi sn segs h span n = elim (scan_cases sn segs) [
  | inl (k, seg, (at_k, e), w) ↦
      let found : binary_search sn segs ≡ some k =
        ap (λ x. binary_search x segs) (sym e) ∙ binary_search_finds lo hi segs n span k seg at_k in
      rw (found, remove_acked) (sym w)
  | inr (no_one, w) ↦ elim (Option-cases (binary_search sn segs)) [
    | inl absent ↦ rw (absent, remove_acked) (sym w)
    | inr (pos, found) ↦
        let (s, p, q) = binary_search-some sn pos segs h (sn_small lo hi segs n) found in
        absurd (no_one pos s p q)
  ]
]

without-Numbered :
    (lo hi sn : ℕ) (segs : List KcpSegment) → Numbered lo hi segs → Numbered lo hi (without sn segs)
without-Numbered lo hi sn [] n = tt
without-Numbered lo hi sn (seg ∷ segs) (a, e, l, u, n) = elim (Bool-cases (seg.header.sn == sn)) [
  | inl t ↦ rw t (Numbered-mono (suc a) lo hi segs (omega arith) n)
  | inr t ↦ rw t (a, e, l, u, without-Numbered (suc a) hi sn segs n)
]

-- A number that the guard refuses is not in flight.
refused_without :
    (u m sn : ℕ) (e : KcpEngine)
    → IsSending u m e
    → not_in_flight sn e ≡ true
    → without sn e.snd_buf ≡ e.snd_buf
unfolding not_in_flight
refused_without u m sn e s out = elim (scan_cases sn e.snd_buf) [
  | inr (no_one, w) ↦ w
  | inl (k, seg, (at_k, same), w) ↦
      let (a, num, lo, hi) = Numbered-get u m k e.snd_buf seg s.numbered at_k in
      let z : sn ≡ u32 a = sym same ∙ num in
      let old : seq_before sn e.snd_una ≡ false =
        ap₂ seq_before z s.oldest
        ∙ seq_before-u32 a u (omega (arith, s.span)) (omega arith)
        ∙ ge→ltb a u lo in
      let new : seq_before sn e.snd_nxt ≡ true =
        ap₂ seq_before z s.next
        ∙ seq_before-u32 a m (omega arith) (omega (arith, s.span))
        ∙ lt→ltb a m hi in
      absurd (cc (rw (old, new) at out))
]

-- On a well-formed send side, parse_ack removes from what is in flight the segment with the
-- acknowledged number, none if no segment in flight has it, and changes nothing else; the send
-- side stays well formed.
pub parse_ack_removes :
    (u m sn : ℕ) (e : KcpEngine)
    → IsSending u m e
    → sn < 2 ^ 32
    → (parse_ack sn e ≡ record e { snd_buf = without sn e.snd_buf })
      × IsSending u m (parse_ack sn e)
unfolding parse_ack
parse_ack_removes u m sn e s h =
    let kept : IsSending u m (record e { snd_buf = without sn e.snd_buf }) = record {
      oldest = s.oldest;
      next = s.next;
      ordered = s.ordered;
      span = s.span;
      numbered = without-Numbered u m sn e.snd_buf s.numbered;
    } in
    let same = remove_acked-without u m sn e.snd_buf h (omega (arith, s.span)) s.numbered in
    elim (Bool-cases (not_in_flight sn e)) [
      | inl out ↦
          rw (out, parse_ack)
            (ap (λ buf. record e { snd_buf = buf }) (sym (refused_without u m sn e s out)), s)
      | inr inside ↦ rw (inside, same, parse_ack) (refl, kept)
    ]
