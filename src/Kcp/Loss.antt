-- ===== src/Kcp/Loss.antt =====
-- kcp/actor.rs, `random_unit_f32` and the comparison that `flush_output` makes with it. An `f32` is
-- its bit pattern, and a hash of `RandomState` is an argument.
use rust_kcp.Base.{
  ℕ, ◌+◌, ◌*◌, ◌/◌, ◌%◌, ◌^◌, ◌≡◌, refl, Bool, true, false, ltb, leb, ◌==◌, if◌then◌else◌,
}

-- The 24 bits that `random_unit_f32` divides by 2 ^ 24; the quotient is exact.
abbrev pub random_unit : ℕ → ℕ
random_unit hash = hash / 2 ^ 40

abbrev exponent : ℕ → ℕ
exponent p = p / 2 ^ 23 % 2 ^ 8

abbrev mantissa : ℕ → ℕ
mantissa p = p % 2 ^ 23

-- `d / 2 ^ 24 < p` for the 32-bit pattern `p`, both sides times 2 ^ 150. Nothing is below a
-- negative number or below one that is not a number.
unfoldable pub below : ℕ → ℕ → Bool
below d p =
    if leb (2 ^ 31) p
    then false
    else if exponent p == 255
    then mantissa p == 0
    else if exponent p == 0
    then ltb (d * 2 ^ 126) (mantissa p * 2)
    else ltb (d * 2 ^ 126) ((mantissa p + 2 ^ 23) * 2 ^ exponent p)

-- One half is above 2 ^ 23 - 1 of 2 ^ 24 and not above 2 ^ 23.
below_half : (below 8388607 1056964608 ≡ true)
unfolding below
below_half = refl

not_below_half : below 8388608 1056964608 ≡ false
unfolding below
not_below_half = refl

below_nan : below 0 2143289344 ≡ false
unfolding below
below_nan = refl
