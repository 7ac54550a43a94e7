-- ===== src/Base/BTreeMap.antt =====
-- `BTreeMap<u32, V>`: an association list in ascending order of its keys.
pub mod Held
use Prim.Native.Nat.{ℕ, ◌≤◌, ◌<◌}
use mathlib.Core.Path.{◌≡◌, refl, subst}
use mathlib.Core.Logic.{◌≢◌, inl, inr}
use mathlib.Core.Bool.{true}
use mathlib.Core.List.{List, [], ◌∷◌}
use mathlib.Core.Option.{Option, none, some}
use native.Mathlib.Omega.{arith}
use rust_kcp.Base.Tests.{ltb, ◌==◌, if◌then◌else◌, Bool-cases, eqb→eq, eqb→ne, ltb→lt, ltb→ge}
use rust_kcp.Base.Lists.{length}

module _ {ℓ} {V : Type ℓ} where
  unfoldable pub lookup : ℕ → List (ℕ × V) → Option V
  lookup k [] = none
  lookup k ((j, w) ∷ m) = if j == k then some w else lookup k m

  unfoldable pub erase : ℕ → List (ℕ × V) → List (ℕ × V)
  erase k [] = []
  erase k ((j, w) ∷ m) = if j == k then m else (j, w) ∷ erase k m

  unfoldable pub insert : ℕ → V → List (ℕ × V) → List (ℕ × V)
  insert k v [] = (k, v) ∷ []
  insert k v ((j, w) ∷ m) =
      if j == k then (k, v) ∷ m else if ltb k j then (k, v) ∷ (j, w) ∷ m else (j, w) ∷ insert k v m

  -- `entry(k).or_insert(v)`: a key that is there keeps its value.
  unfoldable pub or_insert : ℕ → V → List (ℕ × V) → List (ℕ × V)
  or_insert k v [] = (k, v) ∷ []
  or_insert k v ((j, w) ∷ m) =
      if j == k
      then (j, w) ∷ m
      else if ltb k j
      then (k, v) ∷ (j, w) ∷ m
      else (j, w) ∷ or_insert k v m

  -- Every entry satisfies `P`.
  abbrev pub Entries {κ} : (ℕ → V → Type κ) → List (ℕ × V) → Type κ
  Entries P [] = Unit {κ}
  Entries P ((j, w) ∷ m) = P j w × Entries P m

module _ {ℓ κ} {V : Type ℓ} (P : ℕ → V → Type κ) where
  pub lookup-Entries :
      (k : ℕ) (v : V) (m : List (ℕ × V)) → Entries P m → lookup k m ≡ some v → P k v
  unfolding lookup
  lookup-Entries k v [] h e = absurd (cc)
  lookup-Entries k v ((j, w) ∷ m) h e = elim (Bool-cases (j == k)) [
    | inl t ↦
        let p : some w ≡ some v = rw t at e in
        let q : w ≡ v = cc in subst (λ x. P k x) q (subst (λ x. P x w) (eqb→eq j k t) h.0)
    | inr t ↦ lookup-Entries k v m h.1 (rw t at e)
  ]

  pub erase-Entries : (k : ℕ) (m : List (ℕ × V)) → Entries P m → Entries P (erase k m)
  unfolding erase
  erase-Entries k [] h = tt
  erase-Entries k ((j, w) ∷ m) h = elim (Bool-cases (j == k)) [
    | inl e ↦ rw e h.1
    | inr e ↦ rw e (h.0, erase-Entries k m h.1)
  ]

  pub insert-Entries :
      (k : ℕ) (v : V) (m : List (ℕ × V)) → P k v → Entries P m → Entries P (insert k v m)
  unfolding insert
  insert-Entries k v [] p h = (p, tt)
  insert-Entries k v ((j, w) ∷ m) p h = elim (Bool-cases (j == k)) [
    | inl e ↦ rw e (p, h.1)
    | inr e ↦ elim (Bool-cases (ltb k j)) [
      | inl l ↦ rw (e, l) (p, h)
      | inr l ↦ rw (e, l) (h.0, insert-Entries k v m p h.1)
    ]
  ]

  pub or_insert-Entries :
      (k : ℕ) (v : V) (m : List (ℕ × V)) → P k v → Entries P m → Entries P (or_insert k v m)
  unfolding or_insert
  or_insert-Entries k v [] p h = (p, tt)
  or_insert-Entries k v ((j, w) ∷ m) p h = elim (Bool-cases (j == k)) [
    | inl e ↦ rw e h
    | inr e ↦ elim (Bool-cases (ltb k j)) [
      | inl l ↦ rw (e, l) (p, h)
      | inr l ↦ rw (e, l) (h.0, or_insert-Entries k v m p h.1)
    ]
  ]

  pub Entries-map {ι} :
      (Q : ℕ → V → Type ι) (m : List (ℕ × V))
      → ((k : ℕ) (v : V) → P k v → Q k v)
      → Entries P m
      → Entries Q m
  Entries-map Q [] f h = tt
  Entries-map Q ((j, w) ∷ m) f h = (f j w h.0, Entries-map Q m f h.1)

module _ {ℓ} {V : Type ℓ} where
  -- Every key is above `lo`.
  abbrev pub Above : ℕ → List (ℕ × V) → Type 0
  Above lo [] = Unit {0}
  Above lo ((j, w) ∷ m) = (lo < j) × Above lo m

  abbrev pub Ascending : List (ℕ × V) → Type 0
  Ascending [] = Unit {0}
  Ascending ((j, w) ∷ m) = Above j m × Ascending m

  Above-mono : (lo hi : ℕ) (m : List (ℕ × V)) → lo ≤ hi → Above hi m → Above lo m
  Above-mono lo hi [] h a = tt
  Above-mono lo hi ((j, w) ∷ m) h a = (omega arith, Above-mono lo hi m h a.1)

  erase-Above : (lo k : ℕ) (m : List (ℕ × V)) → Above lo m → Above lo (erase k m)
  unfolding erase
  erase-Above lo k [] a = tt
  erase-Above lo k ((j, w) ∷ m) a = elim (Bool-cases (j == k)) [
    | inl e ↦ rw e a.1
    | inr e ↦ rw e (a.0, erase-Above lo k m a.1)
  ]

  pub erase-Ascending : (k : ℕ) (m : List (ℕ × V)) → Ascending m → Ascending (erase k m)
  unfolding erase
  erase-Ascending k [] a = tt
  erase-Ascending k ((j, w) ∷ m) a = elim (Bool-cases (j == k)) [
    | inl e ↦ rw e a.1
    | inr e ↦ rw e (erase-Above j k m a.0, erase-Ascending k m a.1)
  ]

  insert-Above :
      (lo k : ℕ) (v : V) (m : List (ℕ × V)) → lo < k → Above lo m → Above lo (insert k v m)
  unfolding insert
  insert-Above lo k v [] h a = (h, tt)
  insert-Above lo k v ((j, w) ∷ m) h a = elim (Bool-cases (j == k)) [
    | inl e ↦ rw e (h, a.1)
    | inr e ↦ elim (Bool-cases (ltb k j)) [
      | inl l ↦ rw (e, l) (h, a)
      | inr l ↦ rw (e, l) (a.0, insert-Above lo k v m h a.1)
    ]
  ]

  pub insert-Ascending : (k : ℕ) (v : V) (m : List (ℕ × V)) → Ascending m → Ascending (insert k v m)
  unfolding insert
  insert-Ascending k v [] a = (tt, tt)
  insert-Ascending k v ((j, w) ∷ m) a = elim (Bool-cases (j == k)) [
    | inl e ↦ rw e (subst (λ x. Above x m) (eqb→eq j k e) a.0, a.1)
    | inr e ↦ elim (Bool-cases (ltb k j)) [
      | inl l ↦ let lt = ltb→lt k j l in rw (e, l) ((lt, Above-mono k j m (omega arith) a.0), a)
      | inr l ↦
          let ge = ltb→ge k j l in
          let ne = eqb→ne j k e in
          rw (e, l) (insert-Above j k v m (omega arith) a.0, insert-Ascending k v m a.1)
    ]
  ]

  or_insert-Above :
      (lo k : ℕ) (v : V) (m : List (ℕ × V)) → lo < k → Above lo m → Above lo (or_insert k v m)
  unfolding or_insert
  or_insert-Above lo k v [] h a = (h, tt)
  or_insert-Above lo k v ((j, w) ∷ m) h a = elim (Bool-cases (j == k)) [
    | inl e ↦ rw e a
    | inr e ↦ elim (Bool-cases (ltb k j)) [
      | inl l ↦ rw (e, l) (h, a)
      | inr l ↦ rw (e, l) (a.0, or_insert-Above lo k v m h a.1)
    ]
  ]

  pub or_insert-Ascending :
      (k : ℕ) (v : V) (m : List (ℕ × V)) → Ascending m → Ascending (or_insert k v m)
  unfolding or_insert
  or_insert-Ascending k v [] a = (tt, tt)
  or_insert-Ascending k v ((j, w) ∷ m) a = elim (Bool-cases (j == k)) [
    | inl e ↦ rw e a
    | inr e ↦ elim (Bool-cases (ltb k j)) [
      | inl l ↦ let lt = ltb→lt k j l in rw (e, l) ((lt, Above-mono k j m (omega arith) a.0), a)
      | inr l ↦
          let ge = ltb→ge k j l in
          let ne = eqb→ne j k e in
          rw (e, l) (or_insert-Above j k v m (omega arith) a.0, or_insert-Ascending k v m a.1)
    ]
  ]

  Above-ne : (lo : ℕ) (m : List (ℕ × V)) → Above lo m → Entries (λ k v. k ≢ lo) m
  Above-ne lo [] a = tt
  Above-ne lo ((j, w) ∷ m) a = (λ e. omega arith, Above-ne lo m a.1)

  -- No entry of an erased key is left.
  pub erase-ne : (k : ℕ) (m : List (ℕ × V)) → Ascending m → Entries (λ j v. j ≢ k) (erase k m)
  unfolding erase
  erase-ne k [] a = tt
  erase-ne k ((j, w) ∷ m) a = elim (Bool-cases (j == k)) [
    | inl e ↦ rw e (subst (λ x. Entries (λ i v. i ≢ x) m) (eqb→eq j k e) (Above-ne j m a.0))
    | inr e ↦ rw e (eqb→ne j k e, erase-ne k m a.1)
  ]

  pub length-erase :
      (k : ℕ) (v : V) (m : List (ℕ × V)) → lookup k m ≡ some v → length (erase k m) < length m
  unfolding lookup erase
  length-erase k v [] h = absurd (cc)
  length-erase k v ((j, w) ∷ m) h = elim (Bool-cases (j == k)) [
    | inl e ↦ rw e (omega arith)
    | inr e ↦ rw e (omega (arith, length-erase k v m (rw e at h)))
  ]

  pub Entries-both {κ ι} :
      (P : ℕ → V → Type κ) (Q : ℕ → V → Type ι) (m : List (ℕ × V))
      → Entries P m
      → Entries Q m
      → Entries (λ k v. P k v × Q k v) m
  Entries-both P Q [] p q = tt
  Entries-both P Q ((j, w) ∷ m) p q = ((p.0, q.0), Entries-both P Q m p.1 q.1)
