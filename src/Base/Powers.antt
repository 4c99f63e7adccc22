-- ===== src/Base/Powers.antt =====
-- Single bits of a mask, and masks put together from them.
use Prim.Native.Nat.{ℕ, zero, suc, ◌+◌, ◌*◌, ◌/◌, ◌%◌, ◌^◌, ◌≤◌, ◌<◌, bit_and, bit_or}
use mathlib.Core.Logic.{◌≢◌, ◌⊎◌, inl, inr}
use mathlib.Core.Path.{◌≡◌, refl, ap}
use native.Mathlib.Nat.{pow-suc}
use native.Mathlib.Omega.{arith}
use bk_solution_doorbell.Base.Bits.{zero-bit_and, bit_and-zero, bit_and_last, bit_or_last, half_or}

-- One bit of a mask is there or not.
pub bit_and-power : (k m : ℕ) → (bit_and m (2 ^ k) ≡ 0) ⊎ (bit_and m (2 ^ k) ≡ 2 ^ k)
bit_and-power zero m = elim (one (m % 2) (omega arith)) [
  | inl e ↦ inl (omega (arith, bit_and_last m 1, bit_and-zero (m / 2), e))
  | inr e ↦ inr (omega (arith, bit_and_last m 1, bit_and-zero (m / 2), e))
]
  where
    one : (x : ℕ) → x < 2 → (x ≡ 0) ⊎ (x ≡ 1)
    one zero h = inl refl
    one (suc zero) h = inr refl
    one (suc (suc x)) h = absurd (omega arith)
bit_and-power (suc k) m = elim (bit_and-power k (m / 2)) [
  | inl e ↦ inl (omega (arith, halves, e))
  | inr e ↦ inr (omega (arith, halves, e, pow-suc 2 k))
]
  where
    halves : bit_and m (2 ^ suc k) ≡ bit_and (m / 2) (2 ^ k) * 2
    halves =
        let half : 2 ^ suc k / 2 ≡ 2 ^ k = omega (arith, pow-suc 2 k) in
        omega (arith, bit_and_last m (2 ^ suc k), pow-suc 2 k, ap (bit_and (m / 2)) half)

pub power-positive : (k : ℕ) → 1 ≤ 2 ^ k
power-positive zero = omega arith
power-positive (suc k) = omega (arith, pow-suc 2 k, power-positive k)

pub power-le : (j k : ℕ) → j ≤ k → 2 ^ j ≤ 2 ^ k
power-le zero k h = power-positive k
power-le (suc j) zero h = absurd (omega arith)
power-le (suc j) (suc k) h = omega (arith, pow-suc 2 j, pow-suc 2 k, power-le j k (omega arith))

-- Different bits have nothing in common.
pub power-apart : (j k : ℕ) → j ≢ k → bit_and (2 ^ j) (2 ^ k) ≡ 0
power-apart zero zero h = absurd (h refl)
power-apart zero (suc k) h =
    omega (arith, bit_and_last 1 (2 ^ suc k), pow-suc 2 k, zero-bit_and (2 ^ suc k / 2))
power-apart (suc j) zero h =
    omega (arith, bit_and_last (2 ^ suc j) 1, pow-suc 2 j, bit_and-zero (2 ^ suc j / 2))
power-apart (suc j) (suc k) h =
    let a : 2 ^ suc j / 2 ≡ 2 ^ j = omega (arith, pow-suc 2 j) in
    let b : 2 ^ suc k / 2 ≡ 2 ^ k = omega (arith, pow-suc 2 k) in
    let rest : bit_and (2 ^ suc j / 2) (2 ^ suc k / 2) ≡ 0 =
      rw (a, b) (power-apart j k (λ e. h (ap suc e))) in
    omega (arith, bit_and_last (2 ^ suc j) (2 ^ suc k), pow-suc 2 j, pow-suc 2 k, rest)

-- A mask covers two masks together if and only if it covers each.
covers_fuel :
    (n m x y : ℕ)
    → x + y ≤ n
    → bit_and m x ≡ x
    → bit_and m y ≡ y
    → bit_and m (bit_or x y) ≡ bit_or x y
covers_fuel n m zero zero h e f = bit_and-zero m
covers_fuel zero m zero (suc y) h e f = absurd (omega arith)
covers_fuel zero m (suc x) y h e f = absurd (omega arith)
covers_fuel (suc n) m x y h e f =
    let rest =
      covers_fuel n (m / 2) (x / 2) (y / 2) (omega arith) (omega (arith, bit_and_last m x))
        (omega (arith, bit_and_last m y)) in
    omega (
      arith,
      bit_and_last m x,
      bit_and_last m y,
      bit_or_last x y,
      bit_and_last m (bit_or x y),
      ap (bit_and (m / 2)) (half_or x y),
      rest,
    )

pub bit_and-bit_or :
    (m x y : ℕ) → bit_and m x ≡ x → bit_and m y ≡ y → bit_and m (bit_or x y) ≡ bit_or x y
bit_and-bit_or m x y e f = covers_fuel (x + y) m x y (omega arith) e f

covered_fuel :
    (n m x y : ℕ)
    → x + y ≤ n
    → bit_and m (bit_or x y) ≡ bit_or x y
    → (bit_and m x ≡ x) × (bit_and m y ≡ y)
covered_fuel n m zero zero h e = (bit_and-zero m, bit_and-zero m)
covered_fuel zero m zero (suc y) h e = absurd (omega arith)
covered_fuel zero m (suc x) y h e = absurd (omega arith)
covered_fuel (suc n) m x y h e =
    let up = ap (bit_and (m / 2)) (half_or x y) in
    let (a, b) =
      covered_fuel n (m / 2) (x / 2) (y / 2) (omega arith)
        (omega (arith, bit_and_last m (bit_or x y), bit_or_last x y, up)) in
    (
      omega (arith, bit_and_last m x, bit_or_last x y, bit_and_last m (bit_or x y), up, a),
      omega (arith, bit_and_last m y, bit_or_last x y, bit_and_last m (bit_or x y), up, b),
    )

pub bit_and-bit_or_parts :
    (m x y : ℕ) → bit_and m (bit_or x y) ≡ bit_or x y → (bit_and m x ≡ x) × (bit_and m y ≡ y)
bit_and-bit_or_parts m x y e = covered_fuel (x + y) m x y (omega arith) e
