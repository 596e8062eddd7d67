-- ===== src/Prelude/Bits.antt =====
-- Bit operations at variables: shifted fields under `|`, a mask of one byte, and the laws of `^`.
use Prim.Native.Nat.{ℕ, zero, suc, ◌+◌, ◌*◌, ◌/◌, ◌%◌, ◌^◌, ◌≤◌, ◌<◌, bit_and, bit_or, bit_xor}
use Prim.Native.Nat.{min, max, differ, digits, bitwise, bit_and-bitwise, bit_or-bitwise}
use Prim.Native.Nat.{bit_xor-bitwise}
use mathlib.Core.Path.{◌≡◌, refl, ap}
use native.Mathlib.Nat.{pow-suc, le_refl, one-le-pow}
use native.Mathlib.Omega.{arith}

-- More fuel than the first number needs does not change the digits.
module _ (z : ℕ → ℕ) (f : ℕ → ℕ → ℕ) where
  digits-enough : (n m a b : ℕ) → a ≤ n → a ≤ m → digits z f n a b ≡ digits z f m a b
  digits-enough zero zero a b p q = refl
  digits-enough zero (suc m) zero b p q = refl
  digits-enough zero (suc m) (suc a) b p q = absurd (omega arith)
  digits-enough (suc n) zero zero b p q = refl
  digits-enough (suc n) zero (suc a) b p q = absurd (omega arith)
  digits-enough (suc n) (suc m) zero b p q = refl
  digits-enough (suc n) (suc m) (suc a) b p q =
      rw (digits-enough n m (suc a / 2) (b / 2) (omega arith) (omega arith))

  bitwise_step :
      (a : ℕ) (b : ℕ)
      → bitwise z f (suc a) b ≡ bitwise z f (suc a / 2) (b / 2) * 2 + f (suc a % 2) (b % 2)
  bitwise_step a b =
      omega (arith, digits-enough a (suc a / 2) (suc a / 2) (b / 2) (omega arith) (le_refl _))

and_step : (a b : ℕ) → bit_and a b ≡ bit_and (a / 2) (b / 2) * 2 + min (a % 2) (b % 2)
and_step zero b = simp bit_and-bitwise (omega arith)
and_step (suc a) b = simp bit_and-bitwise (bitwise_step (λ y. 0) min a b)

or_step : (a b : ℕ) → bit_or a b ≡ bit_or (a / 2) (b / 2) * 2 + max (a % 2) (b % 2)
or_step zero b = simp bit_or-bitwise (omega arith)
or_step (suc a) b = simp bit_or-bitwise (bitwise_step (λ y. y) max a b)

xor_step : (a b : ℕ) → bit_xor a b ≡ bit_xor (a / 2) (b / 2) * 2 + differ (a % 2) (b % 2)
xor_step zero b = simp bit_xor-bitwise (omega arith)
xor_step (suc a) b = simp bit_xor-bitwise (bitwise_step (λ y. y) differ a b)

and-zero : (n a : ℕ) → a ≤ n → bit_and a 0 ≡ 0
and-zero n zero h = refl
and-zero zero (suc a) h = absurd (omega arith)
and-zero (suc n) (suc a) h = omega (arith, and_step (suc a) 0, and-zero n (suc a / 2) (omega arith))

and_one : (a : ℕ) → bit_and a 1 ≡ a % 2
and_one a = omega (arith, and_step a 1, and-zero (a / 2) (a / 2) (le_refl _))

and_seven : (a : ℕ) → bit_and a 7 ≡ a % 8
and_seven a = omega (arith, and_step a 7, and_step (a / 2) 3, and_one (a / 2 / 2))

and_31 : (a : ℕ) → bit_and a 31 ≡ a % 32
and_31 a = omega (arith, and_step a 31, and_step (a / 2) 15, and_seven (a / 2 / 2))

-- The mask of one byte.
pub bit_and_byte : (a : ℕ) → bit_and a 0xff ≡ a % 256
bit_and_byte a =
    omega
      (arith, and_step a 255, and_step (a / 2) 127, and_step (a / 2 / 2) 63, and_31 (a / 2 / 2 / 2))

or-zero : (n a : ℕ) → a ≤ n → bit_or a 0 ≡ a
or-zero n zero h = refl
or-zero zero (suc a) h = absurd (omega arith)
or-zero (suc n) (suc a) h = omega (arith, or_step (suc a) 0, or-zero n (suc a / 2) (omega arith))

mul-pow-suc : (q k : ℕ) → q * 2 ^ suc k ≡ 2 * (q * 2 ^ k)
mul-pow-suc q k = omega (arith, ap (λ (t : ℕ). q * t) (pow-suc 2 k))

zero-bit_or : (b : ℕ) → bit_or 0 b ≡ b
zero-bit_or b = bit_or-bitwise 0 b

-- `r | (q << k)` is a sum when `r` fits `k` bits.
pub bit_or_fields : (k r q : ℕ) → r < 2 ^ k → bit_or r (q * 2 ^ k) ≡ r + q * 2 ^ k
bit_or_fields zero zero q fits = omega (arith, zero-bit_or (q * 2 ^ 0))
bit_or_fields zero (suc r) q fits = absurd (omega arith)
bit_or_fields (suc k) r q fits = omega (
  arith,
  or_step r (q * 2 ^ suc k),
  mul-pow-suc q k,
  pow-suc 2 k,
  ap (bit_or (r / 2)) (let e : q * 2 ^ suc k / 2 ≡ q * 2 ^ k = omega (arith, mul-pow-suc q k) in e),
  bit_or_fields k (r / 2) q (omega (arith, pow-suc 2 k)),
)

differ_self : (a b : ℕ) → a < 2 → b < 2 → differ (differ a b) b ≡ a
differ_self zero zero p q = refl
differ_self zero (suc zero) p q = refl
differ_self (suc zero) zero p q = refl
differ_self (suc zero) (suc zero) p q = refl
differ_self (suc (suc a)) b p q = absurd (omega arith)
differ_self a (suc (suc b)) p q = absurd (omega arith)

differ-lt : (a b : ℕ) → a < 2 → b < 2 → differ a b < 2
differ-lt zero zero p q = omega arith
differ-lt zero (suc zero) p q = omega arith
differ-lt (suc zero) zero p q = omega arith
differ-lt (suc zero) (suc zero) p q = omega arith
differ-lt (suc (suc a)) b p q = absurd (omega arith)
differ-lt a (suc (suc b)) p q = absurd (omega arith)

xor_half : (a b : ℕ) → bit_xor a b / 2 ≡ bit_xor (a / 2) (b / 2)
xor_half a b = omega (arith, xor_step a b, differ-lt (a % 2) (b % 2) (omega arith) (omega arith))

xor_parity : (a b : ℕ) → bit_xor a b % 2 ≡ differ (a % 2) (b % 2)
xor_parity a b = omega (arith, xor_step a b, differ-lt (a % 2) (b % 2) (omega arith) (omega arith))

-- A number below `2 ^ k` is split in `k` halvings.
xor_cancel_below : (k a b : ℕ) → a < 2 ^ k → b < 2 ^ k → bit_xor (bit_xor a b) b ≡ a
xor_cancel_below zero zero zero p q = refl
xor_cancel_below zero (suc a) b p q = absurd (omega arith)
xor_cancel_below zero a (suc b) p q = absurd (omega arith)
xor_cancel_below (suc k) a b p q =
    rw (xor_step (bit_xor a b) b, xor_half a b, xor_parity a b)
      (omega (
        arith,
        xor_cancel_below k (a / 2) (b / 2) (omega (arith, pow-suc 2 k))
            (omega (arith, pow-suc 2 k)),
        differ_self (a % 2) (b % 2) (omega arith) (omega arith),
      ))

pub bit_xor-lt : (k a b : ℕ) → a < 2 ^ k → b < 2 ^ k → bit_xor a b < 2 ^ k
bit_xor-lt zero zero zero p q = omega arith
bit_xor-lt zero (suc a) b p q = absurd (omega arith)
bit_xor-lt zero a (suc b) p q = absurd (omega arith)
bit_xor-lt (suc k) a b p q = omega (
  arith,
  xor_step a b,
  differ-lt (a % 2) (b % 2) (omega arith) (omega arith),
  pow-suc 2 k,
  bit_xor-lt k (a / 2) (b / 2) (omega (arith, pow-suc 2 k)) (omega (arith, pow-suc 2 k)),
)

-- Exclusive or by the same word twice gives the first word back.
pub bit_xor-bit_xor : (k a b : ℕ) → a < 2 ^ k → b < 2 ^ k → bit_xor (bit_xor a b) b ≡ a
bit_xor-bit_xor = xor_cancel_below

differ-zero : (a : ℕ) → a < 2 → differ a 0 ≡ a
differ-zero zero h = refl
differ-zero (suc zero) h = refl
differ-zero (suc (suc a)) h = absurd (omega arith)

xor-zero : (n a : ℕ) → a ≤ n → bit_xor a 0 ≡ a
xor-zero n zero h = refl
xor-zero zero (suc a) h = absurd (omega arith)
xor-zero (suc n) (suc a) h = omega (
  arith,
  xor_step (suc a) 0,
  xor-zero n (suc a / 2) (omega arith),
  differ-zero (suc a % 2) (omega arith),
)

-- Flipping the bit of weight `2 ^ k`, the highest of a word of `k + 1` bits.
pub bit_xor_top : (k a : ℕ) → a < 2 ^ k → bit_xor a (2 ^ k) ≡ a + 2 ^ k
bit_xor_top zero zero h = refl
bit_xor_top zero (suc a) h = absurd (omega arith)
bit_xor_top (suc k) a h =
    let half : 2 ^ suc k / 2 ≡ 2 ^ k = omega (arith, pow-suc 2 k) in
    let even : 2 ^ suc k % 2 ≡ 0 = omega (arith, pow-suc 2 k) in
    rw (xor_step a (2 ^ suc k), half, even)
      (omega (
        arith,
        bit_xor_top k (a / 2) (omega (arith, pow-suc 2 k)),
        differ-zero (a % 2) (omega arith),
        pow-suc 2 k,
      ))

pub bit_xor_top_high : (k a : ℕ) → a < 2 ^ k → bit_xor (a + 2 ^ k) (2 ^ k) ≡ a
bit_xor_top_high k a h = rw (← bit_xor_top k a h) (
    bit_xor-bit_xor (suc k) a (2 ^ k) (omega (arith, pow-suc 2 k))
      (omega (arith, pow-suc 2 k, one-le-pow k 2)))

differ_comm : (a b : ℕ) → a < 2 → b < 2 → differ a b ≡ differ b a
differ_comm zero zero p q = refl
differ_comm zero (suc zero) p q = refl
differ_comm (suc zero) zero p q = refl
differ_comm (suc zero) (suc zero) p q = refl
differ_comm (suc (suc a)) b p q = absurd (omega arith)
differ_comm a (suc (suc b)) p q = absurd (omega arith)

xor_comm_fuel : (n a b : ℕ) → a ≤ n → b ≤ n → bit_xor a b ≡ bit_xor b a
xor_comm_fuel n zero zero p q = refl
xor_comm_fuel zero (suc a) b p q = absurd (omega arith)
xor_comm_fuel zero a (suc b) p q = absurd (omega arith)
xor_comm_fuel (suc n) a b p q = omega (
  arith,
  xor_step a b,
  xor_step b a,
  xor_comm_fuel n (a / 2) (b / 2) (omega arith) (omega arith),
  differ_comm (a % 2) (b % 2) (omega arith) (omega arith),
)

pub bit_xor_comm : (a b : ℕ) → bit_xor a b ≡ bit_xor b a
bit_xor_comm a b = xor_comm_fuel (a + b) a b (omega arith) (omega arith)
