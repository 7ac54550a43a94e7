-- ===== src/Protocol/Seq.antt =====
-- kcp-core/src/protocol.rs: comparisons of wrapping clock readings and sequence numbers, and their
-- laws.
use rust_kcp.Base.{ℕ, ◌+◌, ◌-◌, ◌≤◌, ◌<◌, ◌^◌, ◌≡◌, ◌≢◌, Bool, true, false, not, arith}
use rust_kcp.Base.{ltb, leb, u32, IsU32, sub32, ℤ, pos, signed32, is_neg, is_pos}

unfoldable pub time_diff : ℕ → ℕ → ℤ
time_diff later earlier = signed32 (sub32 later earlier)

unfoldable pub seq_before : ℕ → ℕ → Bool
seq_before seq1 seq2 = is_neg (signed32 (sub32 seq1 seq2))

unfoldable pub seq_after : ℕ → ℕ → Bool
seq_after seq1 seq2 = is_pos (signed32 (sub32 seq1 seq2))

-- The test is one on the wrapped distance.
pub seq_before-eq-leb : (a b : ℕ) → seq_before a b ≡ leb (2 ^ 31) (sub32 a b)
unfolding seq_before
seq_before-eq-leb a b = ground arith

-- Two positions of an unbounded stream that are less than 2 ^ 31 apart are compared by seq_before
-- and seq_after as they stand in the stream, also where the 32-bit numbers wrap, and time_diff
-- gives their distance.
pub seq_order :
    (m n : ℕ)
    → m < n + 2 ^ 31
    → n < m + 2 ^ 31
    → (seq_before (u32 m) (u32 n) ≡ ltb m n)
      × (seq_after (u32 m) (u32 n) ≡ ltb n m)
      × (m ≤ n → time_diff (u32 n) (u32 m) ≡ pos (n - m))
unfolding seq_before seq_after time_diff
seq_order m n h k = (ground arith, ground arith, λ l. ground arith)

pub seq_before-u32 :
    (m n : ℕ) → m < n + 2 ^ 31 → n < m + 2 ^ 31 → seq_before (u32 m) (u32 n) ≡ ltb m n
seq_before-u32 m n h k = (seq_order m n h k).0

-- On any two 32-bit sequence numbers exactly one of before, after and equal holds, and before is
-- after with the arguments swapped, but for numbers exactly 2 ^ 31 apart, each of which is before
-- the other and neither after.
pub seq_trichotomy :
    (a b : ℕ)
    → IsU32 a
    → IsU32 b
    → (a ≡ b → (seq_before a b ≡ false) × (seq_after a b ≡ false))
      × (a ≢ b
          → sub32 a b ≢ 2 ^ 31
          → (seq_before a b ≡ not (seq_after a b)) × (seq_before b a ≡ seq_after a b))
      × (sub32 a b ≡ 2 ^ 31
          → (seq_before a b ≡ true)
            × (seq_before b a ≡ true)
            × (seq_after a b ≡ false)
            × (seq_after b a ≡ false))
unfolding seq_before seq_after
seq_trichotomy a b ha hb = (
  λ e. (ground arith, ground arith),
  λ e f. (ground arith, ground arith),
  λ e. (ground arith, ground arith, ground arith, ground arith),
)
