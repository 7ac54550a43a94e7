-- ===== src/Base/HashMap.antt =====
-- `HashMap` and `HashSet` of the standard library, as association lists in no order that counts. A
-- key is known by its equality alone, so it is a number.
use Prim.Native.Nat.{ℕ, ◌+◌, ◌≤◌}
use mathlib.Core.Path.{◌≡◌, refl, ap, subst}
use mathlib.Core.Logic.{◌≢◌, ◌⊎◌, inl, inr}
use mathlib.Core.Bool.{Bool, true, false}
use mathlib.Core.List.{List, [], ◌∷◌}
use mathlib.Core.Option.{Option, none, some}
use native.Mathlib.Omega.{arith}
use rust_kcp.Base.Tests.{◌==◌, if◌then◌else◌, Bool-cases, eqb→eq, eqb→ne}
use rust_kcp.Base.Lists.{length}

module _ {ℓ} {V : Type ℓ} where
  unfoldable pub find : ℕ → List (ℕ × V) → Option V
  find k [] = none
  find k ((j, w) ∷ m) = if j == k then some w else find k m

  unfoldable pub has : ℕ → List (ℕ × V) → Bool
  has k [] = false
  has k ((j, w) ∷ m) = if j == k then true else has k m

  unfoldable pub remove : ℕ → List (ℕ × V) → List (ℕ × V)
  remove k [] = []
  remove k ((j, w) ∷ m) = if j == k then remove k m else (j, w) ∷ remove k m

  unfoldable pub put : ℕ → V → List (ℕ × V) → List (ℕ × V)
  unfolding remove
  put k v m = (k, v) ∷ remove k m

  unfoldable pub remove_all : List ℕ → List (ℕ × V) → List (ℕ × V)
  unfolding remove
  remove_all [] m = m
  remove_all (k ∷ ks) m = remove_all ks (remove k m)

  unfoldable pub retain : (ℕ → V → Bool) → List (ℕ × V) → List (ℕ × V)
  retain keep [] = []
  retain keep ((j, w) ∷ m) = if keep j w then (j, w) ∷ retain keep m else retain keep m

  pub length-remove : (k : ℕ) (m : List (ℕ × V)) → length (remove k m) ≤ length m
  unfolding remove
  length-remove k [] = omega arith
  length-remove k ((j, w) ∷ m) = ground (arith, length-remove k m)

  pub length-retain : (keep : ℕ → V → Bool) (m : List (ℕ × V)) → length (retain keep m) ≤ length m
  unfolding retain
  length-retain keep [] = omega arith
  length-retain keep ((j, w) ∷ m) = ground (arith, length-retain keep m)

  pub has-remove :
      (i k : ℕ) (m : List (ℕ × V)) → has i (remove k m) ≡ true → (i ≢ k) × (has i m ≡ true)
  unfolding has remove
  has-remove i k [] h = absurd (cc)
  has-remove i k ((j, w) ∷ m) h = elim (Bool-cases (j == k)) [
    | inl t ↦ let (n, q) = has-remove i k m (rw t at h) in (n, ground (arith, q))
    | inr t ↦ elim (Bool-cases (j == i)) [
      | inl u ↦ ((λ z. eqb→ne j k t (subst (λ x. j ≡ x) z (eqb→eq j i u))), rw u refl)
      | inr u ↦ let (n, q) = has-remove i k m (rw (t, u) at h) in (n, rw u q)
    ]
  ]

  pub remove-has : (i k : ℕ) (m : List (ℕ × V)) → i ≢ k → has i m ≡ true → has i (remove k m) ≡ true
  unfolding has remove
  remove-has i k [] n h = absurd (cc)
  remove-has i k ((j, w) ∷ m) n h = elim (Bool-cases (j == k)) [
    | inl t ↦
        let other : (j == i) ≡ false = ground (arith, eqb→eq j k t) in
        rw t (remove-has i k m n (rw other at h))
    | inr t ↦ elim (Bool-cases (j == i)) [
      | inl u ↦ rw (t, u) refl
      | inr u ↦ rw (t, u) (remove-has i k m n (rw u at h))
    ]
  ]

  pub has-put :
      (i k : ℕ) (v : V) (m : List (ℕ × V)) → has i (put k v m) ≡ true → (i ≡ k) ⊎ (has i m ≡ true)
  unfolding has put
  has-put i k v m h = elim (Bool-cases (k == i)) [
    | inl t ↦ inl (ground (arith, eqb→eq k i t))
    | inr t ↦ inr (has-remove i k m (rw t at h)).1
  ]

  pub has-put_same : (k : ℕ) (v : V) (m : List (ℕ × V)) → has k (put k v m) ≡ true
  unfolding has put
  has-put_same k v m = ground arith

  pub put-has : (i k : ℕ) (v : V) (m : List (ℕ × V)) → has i m ≡ true → has i (put k v m) ≡ true
  unfolding has put
  put-has i k v m h = elim (Bool-cases (k == i)) [
    | inl t ↦ rw t refl
    | inr t ↦ rw t (remove-has i k m (λ z. eqb→ne k i t (ground (arith, z))) h)
  ]

  pub length-put : (k : ℕ) (v : V) (m : List (ℕ × V)) → length (put k v m) ≤ length m + 1
  unfolding put
  length-put k v m = omega (arith, length-remove k m)

  pub has-remove_all :
      (i : ℕ) (ks : List ℕ) (m : List (ℕ × V)) → has i (remove_all ks m) ≡ true → has i m ≡ true
  unfolding remove_all
  has-remove_all i [] m h = h
  has-remove_all i (k ∷ ks) m h = (has-remove i k m (has-remove_all i ks (remove k m) h)).1

  pub remove_gone : (k : ℕ) (m : List (ℕ × V)) → has k (remove k m) ≡ false
  unfolding has remove
  remove_gone k [] = refl
  remove_gone k ((j, w) ∷ m) = elim (Bool-cases (j == k)) [
    | inl t ↦ rw t (remove_gone k m)
    | inr t ↦ rw (t, t) (remove_gone k m)
  ]

  pub remove_absent : (k : ℕ) (m : List (ℕ × V)) → has k m ≡ false → remove k m ≡ m
  unfolding has remove
  remove_absent k [] h = refl
  remove_absent k ((j, w) ∷ m) h = elim (Bool-cases (j == k)) [
    | inl t ↦ absurd (let z : true ≡ false = rw t at h in cc)
    | inr t ↦ rw t (ap (◌∷◌ (j, w)) (remove_absent k m (rw t at h)))
  ]

  pub remove-put : (k : ℕ) (v : V) (m : List (ℕ × V)) → has k m ≡ false → remove k (put k v m) ≡ m
  unfolding put remove
  remove-put k v m h =
      let same : (k == k) ≡ true = ground arith in
      rw (same, remove_absent k m h, remove_absent k m h) refl

  pub find-put : (k : ℕ) (v : V) (m : List (ℕ × V)) → find k (put k v m) ≡ some v
  unfolding find put
  find-put k v m = let same : (k == k) ≡ true = ground arith in rw same refl

  -- Every value satisfies `P`.
  abbrev pub Values {κ} : (V → Type κ) → List (ℕ × V) → Type κ
  Values P [] = Unit {κ}
  Values P ((j, w) ∷ m) = P w × Values P m

  pub remove-Values {κ} :
      (P : V → Type κ) (k : ℕ) (m : List (ℕ × V)) → Values P m → Values P (remove k m)
  unfolding remove
  remove-Values P k [] h = tt
  remove-Values P k ((j, w) ∷ m) h = elim (Bool-cases (j == k)) [
    | inl e ↦ rw e (remove-Values P k m h.1)
    | inr e ↦ rw e (h.0, remove-Values P k m h.1)
  ]

  pub retain-Values {κ} :
      (P : V → Type κ) (keep : ℕ → V → Bool) (m : List (ℕ × V))
      → Values P m
      → Values P (retain keep m)
  unfolding retain
  retain-Values P keep [] h = tt
  retain-Values P keep ((j, w) ∷ m) h = elim (Bool-cases (keep j w)) [
    | inl e ↦ rw e (h.0, retain-Values P keep m h.1)
    | inr e ↦ rw e (retain-Values P keep m h.1)
  ]

-- What is left of two maps when the same keys are taken out
pub remove_all-has {ℓ κ} :
    {V : Type ℓ} {W : Type κ} (i : ℕ) (ks : List ℕ) (m : List (ℕ × V)) (n : List (ℕ × W))
    → (has i m ≡ true → has i n ≡ true)
    → has i (remove_all ks m) ≡ true
    → has i (remove_all ks n) ≡ true
unfolding remove_all
remove_all-has i [] m n f h = f h
remove_all-has i (k ∷ ks) m n f h =
    remove_all-has i ks (remove k m) (remove k n)
      (λ g. let (ne, q) = has-remove i k m g in remove-has i k n ne (f q)) h
