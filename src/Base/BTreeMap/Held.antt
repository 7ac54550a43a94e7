-- ===== src/Base/BTreeMap/Held.antt =====
-- That an entry of the ordered map stays.
use Prim.Native.Nat.{ℕ}
use mathlib.Core.Path.{◌≡◌, refl}
use mathlib.Core.Logic.{◌≢◌, inl, inr}
use mathlib.Core.Bool.{true}
use mathlib.Core.List.{List, [], ◌∷◌}
use mathlib.Core.Option.{some}
use native.Mathlib.Omega.{arith}
use rust_kcp.Base.Tests.{ltb, ◌==◌, Bool-cases, eqb→eq}
use rust_kcp.Base.BTreeMap.{lookup, erase, insert, or_insert}

-- There is an entry for the key.
abbrev pub Held {ℓ} : {V : Type ℓ} → ℕ → List (ℕ × V) → Type ℓ
Held {V = V} k m = (v : V) × (lookup k m ≡ some v)

module _ {ℓ} {V : Type ℓ} where
  pub erase-Held : (k j : ℕ) (m : List (ℕ × V)) → k ≢ j → Held k m → Held k (erase j m)
  unfolding erase lookup
  erase-Held k j [] ne h = h
  erase-Held k j ((i, w) ∷ m) ne (v, h) = elim (Bool-cases (i == j)) [
    | inl e ↦ elim (Bool-cases (i == k)) [
      | inl f ↦ absurd (omega (arith, eqb→eq i j e, eqb→eq i k f))
      | inr f ↦ rw e (v, rw f at h)
    ]
    | inr e ↦ elim (Bool-cases (i == k)) [
      | inl f ↦ rw (e, f, erase, lookup) (v, rw f at h)
      | inr f ↦ rw (e, f, erase, lookup) (erase-Held k j m ne (v, rw f at h))
    ]
  ]

  head-Held : (k : ℕ) (v : V) (m : List (ℕ × V)) → Held k ((k, v) ∷ m)
  unfolding lookup
  head-Held k v m = let e : (k == k) ≡ true = ground arith in (v, rw e refl)

  tail-Held : (k i : ℕ) (w : V) (m : List (ℕ × V)) → Held k m → Held k ((i, w) ∷ m)
  unfolding lookup
  tail-Held k i w m (v, h) = elim (Bool-cases (i == k)) [
    | inl f ↦ (w, rw f refl)
    | inr f ↦ (v, rw f h)
  ]

  pub insert-Held-same : (k : ℕ) (v : V) (m : List (ℕ × V)) → Held k (insert k v m)
  unfolding insert
  insert-Held-same k v [] = head-Held k v []
  insert-Held-same k v ((i, w) ∷ m) = elim (Bool-cases (i == k)) [
    | inl e ↦ rw (e, insert) (head-Held k v m)
    | inr e ↦ elim (Bool-cases (ltb k i)) [
      | inl l ↦ rw (e, l, insert) (head-Held k v ((i, w) ∷ m))
      | inr l ↦ rw (e, l, insert) (tail-Held k i w (insert k v m) (insert-Held-same k v m))
    ]
  ]

  pub insert-Held : (k j : ℕ) (v : V) (m : List (ℕ × V)) → k ≢ j → Held k m → Held k (insert j v m)
  unfolding insert lookup
  insert-Held k j v [] ne h = tail-Held k j v [] h
  insert-Held k j v ((i, w) ∷ m) ne (u, h) = elim (Bool-cases (i == k)) [
    | inl f ↦ elim (Bool-cases (i == j)) [
      | inl e ↦ absurd (omega (arith, eqb→eq i j e, eqb→eq i k f))
      | inr e ↦ elim (Bool-cases (ltb j i)) [
        | inl l ↦ rw (e, l, insert) (tail-Held k j v ((i, w) ∷ m) (u, h))
        | inr l ↦ rw (e, l, f, insert, lookup) (w, refl)
      ]
    ]
    | inr f ↦ elim (Bool-cases (i == j)) [
      | inl e ↦ rw (e, insert) (tail-Held k j v m (u, rw f at h))
      | inr e ↦ elim (Bool-cases (ltb j i)) [
        | inl l ↦ rw (e, l, insert) (tail-Held k j v ((i, w) ∷ m) (u, h))
        | inr l ↦ rw (e, l, insert) (tail-Held k i w _ (insert-Held k j v m ne (u, rw f at h)))
      ]
    ]
  ]

  pub or_insert-Held : (k : ℕ) (v : V) (m : List (ℕ × V)) → Held k (or_insert k v m)
  unfolding or_insert lookup
  or_insert-Held k v [] = head-Held k v []
  or_insert-Held k v ((i, w) ∷ m) = elim (Bool-cases (i == k)) [
    | inl e ↦ rw (e, or_insert) (w, rw e refl)
    | inr e ↦ elim (Bool-cases (ltb k i)) [
      | inl l ↦ rw (e, l, or_insert) (head-Held k v ((i, w) ∷ m))
      | inr l ↦ rw (e, l, or_insert) (tail-Held k i w (or_insert k v m) (or_insert-Held k v m))
    ]
  ]
