-- ===== src/Engine/Payloads.antt =====
-- Views of a queue of segments: its bytes in order, and the fragment chain of one message.
use rust_kcp.Base.{ℕ, zero, suc, ◌≡◌, refl, sym, ap, ◌∙◌, List, [], ◌∷◌, ◌++◌, append_assoc}
use rust_kcp.Protocol.{KcpSegment}

abbrev pub payloads : List KcpSegment → List ℕ
payloads [] = []
payloads (seg ∷ segs) = seg.payload ++ payloads segs

-- `n` segments whose `frg` counts down to 0
abbrev pub IsChain : ℕ → List KcpSegment → Type 0
IsChain zero [] = Unit {0}
IsChain zero (seg ∷ segs) = ⊥
IsChain (suc n) [] = ⊥
IsChain (suc n) (seg ∷ segs) = (seg.header.frg ≡ n) × IsChain n segs

pub payloads-append : (xs ys : List KcpSegment) → payloads (xs ++ ys) ≡ payloads xs ++ payloads ys
payloads-append [] ys = refl
payloads-append (x ∷ xs) ys =
    ap (◌++◌ x.payload) (payloads-append xs ys)
    ∙ sym (append_assoc x.payload (payloads xs) (payloads ys))
