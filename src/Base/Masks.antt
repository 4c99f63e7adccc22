-- ===== src/Base/Masks.antt =====
-- The laws of consumer masks.
use Prim.Native.Nat.{ℕ, zero, suc, ◌+◌, ◌-◌, ◌/◌, ◌^◌, ◌≤◌, ◌<◌, bit_and, bit_or}
use mathlib.Core.Path.{◌≡◌, refl, sym, ap, ◌∙◌}
use native.Mathlib.Nat.{pow-suc}
use native.Mathlib.Omega.{arith}
use bk_solution_doorbell.Base.Bits.{
  bit_not, zero-bit_and, bit_and-zero, bit_and_last, bit_or_last, half_or, half_and,
}

-- Each law below goes by the digits: the halves of the operands have a smaller sum.
absorb_fuel : (n a c : ℕ) → a + c ≤ n → bit_and (bit_or a c) c ≡ c
absorb_fuel n zero zero h = refl
absorb_fuel zero zero (suc c) h = absurd (omega arith)
absorb_fuel zero (suc a) c h = absurd (omega arith)
absorb_fuel (suc n) a c h = omega (
  arith,
  bit_or_last a c,
  bit_and_last (bit_or a c) c,
  ap (λ (t : ℕ). bit_and t (c / 2)) (half_or a c),
  absorb_fuel n (a / 2) (c / 2) (omega arith),
)

-- Every bit of `c` is in `a | c`.
pub bit_and-bit_or_self : (a c : ℕ) → bit_and (bit_or a c) c ≡ c
bit_and-bit_or_self a c = absorb_fuel (a + c) a c (omega arith)

superset_fuel : (n a c m : ℕ) → a + c + m ≤ n → bit_and a m ≡ m → bit_and (bit_or a c) m ≡ m
superset_fuel zero zero zero zero h e = refl
superset_fuel zero zero zero (suc m) h e = absurd (omega arith)
superset_fuel zero zero (suc c) m h e = absurd (omega arith)
superset_fuel zero (suc a) c m h e = absurd (omega arith)
superset_fuel (suc n) zero zero m h e = e
superset_fuel (suc n) a c m h e = omega (
  arith,
  bit_or_last a c,
  bit_and_last a m,
  bit_and_last (bit_or a c) m,
  ap (λ (t : ℕ). bit_and t (m / 2)) (half_or a c),
  superset_fuel n (a / 2) (c / 2) (m / 2) (omega arith) (omega (arith, bit_and_last a m)),
)

-- Adding bits to a mask keeps it above all that it was above.
pub bit_or-superset : (a c m : ℕ) → bit_and a m ≡ m → bit_and (bit_or a c) m ≡ m
bit_or-superset a c m e = superset_fuel (a + c + m) a c m (omega arith) e

disjoint_fuel : (n a c d : ℕ) → a + c ≤ n → bit_and c d ≡ 0 → bit_and (bit_or a c) d ≡ bit_and a d
disjoint_fuel n zero zero d h e = refl
disjoint_fuel zero zero (suc c) d h e = absurd (omega arith)
disjoint_fuel zero (suc a) c d h e = absurd (omega arith)
disjoint_fuel (suc n) a c d h e = omega (
  arith,
  bit_or_last a c,
  bit_and_last a d,
  bit_and_last c d,
  bit_and_last (bit_or a c) d,
  ap (λ (t : ℕ). bit_and t (d / 2)) (half_or a c),
  disjoint_fuel n (a / 2) (c / 2) (d / 2) (omega arith) (omega (arith, bit_and_last c d)),
)

-- Adding the bits of `c` says nothing new about a mask that is disjoint from `c`.
pub bit_or-disjoint : (a c d : ℕ) → bit_and c d ≡ 0 → bit_and (bit_or a c) d ≡ bit_and a d
bit_or-disjoint a c d e = disjoint_fuel (a + c) a c d (omega arith) e

cleared_at : (w a c : ℕ) → c < 2 ^ w → bit_and (bit_and a (2 ^ w - 1 - c)) c ≡ 0
cleared_at zero a zero h = bit_and-zero (bit_and a 0)
cleared_at zero a (suc c) h = absurd (omega arith)
cleared_at (suc w) a c h =
    let d = 2 ^ suc w - 1 - c in
    let e : d / 2 ≡ 2 ^ w - 1 - c / 2 = omega (arith, pow-suc 2 w) in
    let ih = cleared_at w (a / 2) (c / 2) (omega (arith, pow-suc 2 w)) in
    omega (
      arith,
      pow-suc 2 w,
      bit_and_last a d,
      bit_and_last (bit_and a d) c,
      ap (λ (t : ℕ). bit_and t (c / 2)) (half_and a d),
      ap (λ (t : ℕ). bit_and (bit_and (a / 2) t) (c / 2)) e,
      ih,
    )

-- `a & ~c` has no bit of `c`.
pub bit_and-bit_not_self : (a c : ℕ) → c < 2 ^ 32 → bit_and (bit_and a (bit_not c)) c ≡ 0
bit_and-bit_not_self a c h = cleared_at 32 a c h

kept_at :
    (w a c d : ℕ)
    → c < 2 ^ w
    → d < 2 ^ w
    → bit_and c d ≡ 0
    → bit_and (bit_and a (2 ^ w - 1 - c)) d ≡ bit_and a d
kept_at zero a zero zero h k e = bit_and-zero (bit_and a 0) ∙ sym (bit_and-zero a)
kept_at zero a zero (suc d) h k e = absurd (omega arith)
kept_at zero a (suc c) d h k e = absurd (omega arith)
kept_at (suc w) a c d h k z =
    let m = 2 ^ suc w - 1 - c in
    let e : m / 2 ≡ 2 ^ w - 1 - c / 2 = omega (arith, pow-suc 2 w) in
    let ih =
      kept_at w (a / 2) (c / 2) (d / 2) (omega (arith, pow-suc 2 w)) (omega (arith, pow-suc 2 w))
        (omega (arith, bit_and_last c d)) in
    omega (
      arith,
      pow-suc 2 w,
      bit_and_last a m,
      bit_and_last a d,
      bit_and_last c d,
      bit_and_last (bit_and a m) d,
      ap (λ (t : ℕ). bit_and t (d / 2)) (half_and a m),
      ap (λ (t : ℕ). bit_and (bit_and (a / 2) t) (d / 2)) e,
      ih,
    )

-- Taking the bits of `c` away leaves a mask that is disjoint from `c` as it was.
pub bit_not-disjoint :
    (a c d : ℕ)
    → c < 2 ^ 32
    → d < 2 ^ 32
    → bit_and c d ≡ 0
    → bit_and (bit_and a (bit_not c)) d ≡ bit_and a d
bit_not-disjoint a c d h k e = kept_at 32 a c d h k e

below_fuel : (n a m d : ℕ) → a + m ≤ n → bit_and a m ≡ m → bit_and a d ≡ 0 → bit_and m d ≡ 0
below_fuel n a zero d h e z = zero-bit_and d
below_fuel zero a (suc m) d h e z = absurd (omega arith)
below_fuel (suc n) a (suc m) d h e z = omega (
  arith,
  bit_and_last a (suc m),
  bit_and_last a d,
  bit_and_last (suc m) d,
  below_fuel n (a / 2) (suc m / 2) (d / 2) (omega arith) (omega (arith, bit_and_last a (suc m)))
      (omega (arith, bit_and_last a d)),
)

-- What is disjoint from a mask is disjoint from all that lies below the mask.
pub bit_and-below : (a m d : ℕ) → bit_and a m ≡ m → bit_and a d ≡ 0 → bit_and m d ≡ 0
bit_and-below a m d e z = below_fuel (a + m) a m d (omega arith) e z
