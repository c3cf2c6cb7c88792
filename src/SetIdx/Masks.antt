-- ===== src/SetIdx/Masks.antt =====
-- The bits of a mask after it is marked.
use knowdy.Base.{
  ℕ, zero, suc, ◌*◌, ◌/◌, ◌%◌, ◌^◌, ◌≤◌, ◌==◌, ◌≡◌, refl, arith, true, false, not, bit_and, bit_or,
  if◌then◌else◌, ap,
}
use knowdy.Base.Bits.{bit_and-low, bit_or-low, bit_and-zero_right, bit_or-zero_right}
use native.Mathlib.Nat.{pow-suc, one-le-pow}
use knowdy.SetIdx.{mark_bit, test_bit}

-- The bit at a place.
abbrev bit_at : ℕ → ℕ → ℕ
bit_at zero m = m % 2
bit_at (suc k) m = bit_at k (m / 2)

bit_and-pow : (k m : ℕ) → bit_and m (2 ^ k) ≡ bit_at k m * 2 ^ k
bit_and-pow zero m = ground (arith, bit_and-low m 1, bit_and-zero_right (m / 2))
bit_and-pow (suc k) m = ground (
  arith,
  pow-suc 2 k,
  bit_and-low m (2 ^ suc k),
  bit_and-pow k (m / 2),
  ap (λ (t : ℕ). bit_at k (m / 2) * t) (pow-suc 2 k),
)

bit_at-or : (k b m : ℕ) → bit_at k (bit_or m (2 ^ b)) ≡ (if b == k then 1 else bit_at k m)
bit_at-or zero zero m = ground (arith, bit_or-low m 1)
bit_at-or zero (suc b) m = ground (arith, pow-suc 2 b, bit_or-low m (2 ^ suc b))
bit_at-or (suc k) zero m =
    let half : bit_or m 1 / 2 ≡ m / 2 = ground (arith, bit_or-low m 1, bit_or-zero_right (m / 2)) in
    rw (half) (ground arith)
bit_at-or (suc k) (suc b) m =
    let half : bit_or m (2 ^ suc b) / 2 ≡ bit_or (m / 2) (2 ^ b) =
      ground (arith, pow-suc 2 b, bit_or-low m (2 ^ suc b)) in
    rw (half) (ground (arith, bit_at-or k b (m / 2)))

==-scaled : (a p : ℕ) → 1 ≤ p → (a * p == 0) ≡ (a == 0)
==-scaled zero p h = ground arith
==-scaled (suc a) p h = ground arith

test_bit_eq : (k m : ℕ) → test_bit m k ≡ not (bit_at k m == 0)
unfolding test_bit
test_bit_eq k m =
    rw (bit_and-pow k m, ==-scaled (bit_at k m) (2 ^ k) (one-le-pow k 2 (omega arith))) refl

-- A marked bit is set, the others are as they were.
pub test_bit-mark_bit :
    (k b m : ℕ) → test_bit (mark_bit m b) k ≡ (if b == k then true else test_bit m k)
unfolding mark_bit
test_bit-mark_bit k b m =
    ground (arith, test_bit_eq k (bit_or m (2 ^ b)), test_bit_eq k m, bit_at-or k b m)

bit_at-zero : (k : ℕ) → bit_at k 0 ≡ 0
bit_at-zero zero = refl
bit_at-zero (suc k) = bit_at-zero k

pub test_bit-zero : (k : ℕ) → test_bit 0 k ≡ false
test_bit-zero k = ground (arith, test_bit_eq k 0, bit_at-zero k)
