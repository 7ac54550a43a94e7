-- ===== src/Engine/Ack/Keeps.antt =====
-- What acknowledgements (kcp-core/src/engine.rs) leave of the segments in flight.
use rust_kcp.Base.{
  ℕ, zero, suc, List, [], ◌∷◌, Option-cases, Bool-cases, inl, inr, remove_at, is_neg, All,
}
use rust_kcp.Protocol.{KcpSegment}
use rust_kcp.Protocol.Seq.{seq_before, time_diff}
use rust_kcp.Engine.Ack.{drop_before, remove_acked, binary_search, bump_fastack}

module _ {ℓ} (P : KcpSegment → Type ℓ) where
  pub drop_before-All :
      (una : ℕ) (segs : List KcpSegment) → All P segs → All P (drop_before una segs)
  unfolding drop_before
  drop_before-All una [] f = tt
  drop_before-All una (seg ∷ segs) f = elim (Bool-cases (seq_before seg.header.sn una)) [
    | inl t ↦ rw (t, drop_before) (drop_before-All una segs f.1)
    | inr t ↦ rw (t, drop_before) f
  ]

  remove_at-All : (i : ℕ) (segs : List KcpSegment) → All P segs → All P (remove_at i segs)
  remove_at-All i [] f = tt
  remove_at-All zero (x ∷ xs) f = f.1
  remove_at-All (suc i) (x ∷ xs) f = (f.0, remove_at-All i xs f.1)

  pub remove_acked-All :
      (sn : ℕ) (segs : List KcpSegment) → All P segs → All P (remove_acked sn segs)
  unfolding remove_acked
  remove_acked-All sn segs f = elim (Option-cases (binary_search sn segs)) [
    | inl n ↦ rw (n, remove_acked) f
    | inr (i, s) ↦ rw (s, remove_acked) (remove_at-All i segs f)
  ]

  pub bump_fastack-All :
      (sn ts : ℕ) (segs : List KcpSegment)
      → ((n : ℕ) (seg : KcpSegment) → P seg → P (record seg { fastack = n }))
      → All P segs
      → All P (bump_fastack sn ts segs)
  unfolding bump_fastack
  bump_fastack-All sn ts [] any f = tt
  bump_fastack-All sn ts (seg ∷ segs) any f = elim (Bool-cases (seq_before seg.header.sn sn)) [
    | inr t ↦ rw (t, bump_fastack) f
    | inl t ↦ elim (Bool-cases (is_neg (time_diff ts seg.header.ts))) [
      | inl n ↦ rw (t, n, bump_fastack) (f.0, bump_fastack-All sn ts segs any f.1)
      | inr n ↦ rw (t, n, bump_fastack) (any _ seg f.0, bump_fastack-All sn ts segs any f.1)
    ]
  ]
