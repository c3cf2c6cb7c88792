-- ===== src/Base/Bits.antt =====
-- The bits of a number: `&`, `|` and `^` act on each bit apart, and on disjoint fields they are sums.
use Prim.Native.Nat.{ℕ, zero, suc, ◌+◌, ◌*◌, ◌/◌, ◌%◌, ◌^◌, ◌<◌, ◌≤◌, ◌-◌, min, max}
use Prim.Native.Nat.{bit_and, bit_or, digits, bitwise, bit_and-bitwise, bit_or-bitwise}
use mathlib.Core.Path.{◌≡◌, refl, ap, ◌∙◌}
use mathlib.Core.WellFounded
use native.Mathlib.Nat.{le_refl, pow-suc, one-le-pow}
use native.Mathlib.Omega.{arith}
use knowdy.Base.Order.{lt_wf}

-- The digits of a result do not depend on the fuel once it covers the first operand.
module _ (only : ℕ → ℕ) (op : ℕ → ℕ → ℕ) where
  digits-enough : (a b j k : ℕ) → a ≤ j → a ≤ k → digits only op j a b ≡ digits only op k a b
  digits-enough zero b zero zero hj hk = refl
  digits-enough zero b zero (suc k) hj hk = refl
  digits-enough zero b (suc j) zero hj hk = refl
  digits-enough zero b (suc j) (suc k) hj hk = refl
  digits-enough (suc a) b zero k hj hk = absurd (omega arith)
  digits-enough (suc a) b (suc j) zero hj hk = absurd (omega arith)
  digits-enough (suc a) b (suc j) (suc k) hj hk =
      rw (digits-enough (suc a / 2) (b / 2) j k (omega arith) (omega arith))

  low_digit :
      (n b : ℕ)
      → bitwise only op (suc n) b ≡ bitwise only op (suc n / 2) (b / 2) * 2 + op (suc n % 2) (b % 2)
  low_digit n b =
      omega (arith, digits-enough (suc n / 2) (b / 2) (suc n / 2) n (le_refl _) (omega arith))

pub bit_and-low : (a b : ℕ) → bit_and a b ≡ bit_and (a / 2) (b / 2) * 2 + min (a % 2) (b % 2)
bit_and-low zero b = simp bit_and-bitwise (omega arith)
bit_and-low (suc a) b = simp bit_and-bitwise (low_digit (λ y. 0) min a b)

pub bit_or-low : (a b : ℕ) → bit_or a b ≡ bit_or (a / 2) (b / 2) * 2 + max (a % 2) (b % 2)
bit_or-low zero b = simp bit_or-bitwise (omega arith)
bit_or-low (suc a) b = simp bit_or-bitwise (low_digit (λ y. y) max a b)

pub bit_or-zero_left : (b : ℕ) → bit_or 0 b ≡ b
bit_or-zero_left b = simp bit_or-bitwise refl

pub bit_or-zero_right : (a : ℕ) → bit_or a 0 ≡ a
bit_or-zero_right a = WellFounded.induction lt_wf a go
  where
    go : (n : ℕ) → ((m : ℕ) → m < n → bit_or m 0 ≡ m) → bit_or n 0 ≡ n
    go zero ih = bit_or-zero_left 0
    go (suc n) ih = omega (arith, bit_or-low (suc n) 0, ih (suc n / 2) (omega arith))

pub bit_and-zero_right : (a : ℕ) → bit_and a 0 ≡ 0
bit_and-zero_right a = WellFounded.induction lt_wf a go
  where
    go : (n : ℕ) → ((m : ℕ) → m < n → bit_and m 0 ≡ 0) → bit_and n 0 ≡ 0
    go zero ih = simp bit_and-bitwise refl
    go (suc n) ih = omega (arith, bit_and-low (suc n) 0, ih (suc n / 2) (omega arith))

pub bit_or_comm : (a b : ℕ) → bit_or a b ≡ bit_or b a
bit_or_comm a b = WellFounded.induction lt_wf {C = λ n. (m : ℕ) → bit_or n m ≡ bit_or m n} a go b
  where
    go :
        (n : ℕ)
        → ((k : ℕ) → k < n → (m : ℕ) → bit_or k m ≡ bit_or m k)
        → (m : ℕ) → bit_or n m ≡ bit_or m n
    go zero ih m = ground (arith, bit_or-zero_left m, bit_or-zero_right m)
    go (suc n) ih m =
        ground
          (arith, bit_or-low (suc n) m, bit_or-low m (suc n), ih (suc n / 2) (omega arith) (m / 2))

-- `(q << k) | r` is a sum where `r` fits `k` bits.
pub bit_or-add : (k q r : ℕ) → r < 2 ^ k → bit_or (q * 2 ^ k) r ≡ q * 2 ^ k + r
bit_or-add zero q r h = ground (arith, bit_or-zero_right q)
bit_or-add (suc k) q r h = ground (
  arith,
  pow-suc 2 k,
  ap (λ (t : ℕ). q * t) (pow-suc 2 k),
  bit_or-low (q * 2 ^ suc k) r,
  bit_or-add k q (r / 2),
)

-- `r | (q << k)` likewise.
pub bit_or-add_right : (k q r : ℕ) → r < 2 ^ k → bit_or r (q * 2 ^ k) ≡ q * 2 ^ k + r
bit_or-add_right k q r h = bit_or_comm r (q * 2 ^ k) ∙ bit_or-add k q r h

low_bits : (k q r : ℕ) → r < 2 ^ k → bit_and (q * 2 ^ k + r) (2 ^ k - 1) ≡ r
low_bits zero q r h = ground (arith, bit_and-zero_right (q + r))
low_bits (suc k) q r h = ground (
  arith,
  pow-suc 2 k,
  ap (λ (t : ℕ). q * t) (pow-suc 2 k),
  bit_and-low (q * 2 ^ suc k + r) (2 ^ suc k - 1),
  low_bits k q (r / 2),
)

-- `a & (2^k - 1)` is the remainder by `2 ^ k`.
pub bit_and-mask : (k a : ℕ) → bit_and a (2 ^ k - 1) ≡ a % 2 ^ k
bit_and-mask k a = ground (arith, one-le-pow k 2, low_bits k (a / 2 ^ k) (a % 2 ^ k))
