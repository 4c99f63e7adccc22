-- ===== src/Base/Bits.antt =====
-- `&`, `|` and `~` on 32-bit masks: the laws of consumer masks, from the digit recursions that the
-- native operations stand for.
use Prim.Native.Nat.{
  ℕ, zero, suc, ◌+◌, ◌-◌, ◌*◌, ◌/◌, ◌%◌, ◌^◌, ◌≤◌, ◌<◌, min, max, bit_and, bit_or, digits,
  bit_and-bitwise, bit_or-bitwise,
}
use mathlib.Core.Path.{◌≡◌, refl}
use native.Mathlib.Nat.{pow-suc}
use native.Mathlib.Omega.{arith}

-- `~m` on a `uint32_t`.
abbrev pub bit_not : ℕ → ℕ
bit_not m = 4294967295 - m

-- The native operations go digit by digit; more rounds than the first operand has digits change nothing.
module _ (pad : ℕ → ℕ) (op : ℕ → ℕ → ℕ) where
  enough_rounds : (x y k l : ℕ) → x ≤ k → x ≤ l → digits pad op k x y ≡ digits pad op l x y
  enough_rounds zero y zero zero h i = refl
  enough_rounds zero y zero (suc l) h i = refl
  enough_rounds zero y (suc k) zero h i = refl
  enough_rounds zero y (suc k) (suc l) h i = refl
  enough_rounds (suc x) y zero l h i = absurd (omega arith)
  enough_rounds (suc x) y (suc k) zero h i = absurd (omega arith)
  enough_rounds (suc x) y (suc k) (suc l) h i =
      let rest = enough_rounds (suc x / 2) (y / 2) k l (omega arith) (omega arith) in
      omega (arith, rest)

pub zero-bit_and : (m : ℕ) → bit_and 0 m ≡ 0
zero-bit_and m = bit_and-bitwise 0 m

zero-bit_or : (m : ℕ) → bit_or 0 m ≡ m
zero-bit_or m = bit_or-bitwise 0 m

-- Both operations by their last digit.
pub bit_and_last : (x m : ℕ) → bit_and x m ≡ bit_and (x / 2) (m / 2) * 2 + min (x % 2) (m % 2)
bit_and_last zero m = omega (arith, zero-bit_and (m / 2), zero-bit_and m)
bit_and_last (suc x) m =
    let half = suc x / 2 in
    let whole = bit_and-bitwise (suc x) m in
    let rounds = enough_rounds (λ _. zero) min half (m / 2) x half (omega arith) (omega arith) in
    omega (arith, whole, rounds, bit_and-bitwise half (m / 2))

pub bit_or_last : (x m : ℕ) → bit_or x m ≡ bit_or (x / 2) (m / 2) * 2 + max (x % 2) (m % 2)
bit_or_last zero m = omega (arith, zero-bit_or (m / 2), zero-bit_or m)
bit_or_last (suc x) m =
    let half = suc x / 2 in
    let whole = bit_or-bitwise (suc x) m in
    let rounds = enough_rounds (λ y. y) max half (m / 2) x half (omega arith) (omega arith) in
    omega (arith, whole, rounds, bit_or-bitwise half (m / 2))

pub half_or : (a c : ℕ) → bit_or a c / 2 ≡ bit_or (a / 2) (c / 2)
half_or a c = omega (arith, bit_or_last a c)

pub half_and : (a c : ℕ) → bit_and a c / 2 ≡ bit_and (a / 2) (c / 2)
half_and a c = omega (arith, bit_and_last a c)

pub bit_and-zero : (a : ℕ) → bit_and a 0 ≡ 0
bit_and-zero a = small a a (omega arith)
  where
    small : (bound x : ℕ) → x ≤ bound → bit_and x 0 ≡ 0
    small bound zero h = refl
    small zero (suc x) h = absurd (omega arith)
    small (suc bound) (suc x) h =
        omega (arith, small bound (suc x / 2) (omega arith), bit_and_last (suc x) 0)

-- Neither operation leaves the width of its operands.
pub bit_or-lt : (w x m : ℕ) → x < 2 ^ w → m < 2 ^ w → bit_or x m < 2 ^ w
bit_or-lt zero zero zero h k = omega arith
bit_or-lt zero zero (suc m) h k = absurd (omega arith)
bit_or-lt zero (suc x) m h k = absurd (omega arith)
bit_or-lt (suc w) x m h k =
    let half =
      bit_or-lt w (x / 2) (m / 2) (omega (arith, pow-suc 2 w)) (omega (arith, pow-suc 2 w)) in
    omega (arith, pow-suc 2 w, bit_or_last x m, half)

pub bit_and-lt : (w x m : ℕ) → x < 2 ^ w → bit_and x m < 2 ^ w
bit_and-lt zero zero m h = omega (arith, zero-bit_and m)
bit_and-lt zero (suc x) m h = absurd (omega arith)
bit_and-lt (suc w) x m h =
    let half = bit_and-lt w (x / 2) (m / 2) (omega (arith, pow-suc 2 w)) in
    omega (arith, pow-suc 2 w, bit_and_last x m, half)
