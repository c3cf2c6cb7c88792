-- ===== src/Utils/Pack/Laws.antt =====
-- Packing and unpacking, and the numbers that come back.
use knowdy.Base.{
  ℕ, zero, suc, ◌+◌, ◌-◌, ◌*◌, ◌/◌, ◌^◌, ◌<◌, ◌≤◌, ◌≡◌, arith, List, ◌++◌, some, if◌then◌else◌, ltb,
  length, u8,
}
use knowdy.Base.Bits.{bit_or-add_right}
use knowdy.Utils.Pack.{
  min_bytes, pack_int, pack_u32, pack_u24, pack_u16, unpack_int, unpack_u32, unpack_u24, unpack_u16,
}

-- Each helper is the sum of its bytes; with four, the sign bit of the `int` is spread.
unpack_u16_sum : (b0 b1 : ℕ) → b1 < 256 → unpack_u16 b0 b1 ≡ b0 * 256 + b1
unfolding unpack_u16
unpack_u16_sum b0 b1 h = bit_or-add_right 8 b0 b1 h

unpack_u24_sum :
    (b0 b1 b2 : ℕ) → b1 < 256 → b2 < 256 → unpack_u24 b0 b1 b2 ≡ b0 * 65536 + b1 * 256 + b2
unfolding unpack_u24
unpack_u24_sum b0 b1 b2 h k =
    rw (bit_or-add_right 8 b1 b2 k, bit_or-add_right 16 b0 (b1 * 2 ^ 8 + b2) (omega arith))
      (omega arith)

unpack_u32_sum :
    (b0 b1 b2 b3 : ℕ)
    → b1 < 256
    → b2 < 256
    → b3 < 256
    → unpack_u32 b0 b1 b2 b3
      ≡ (if ltb b0 128 then 0 else 2 ^ 64 - 2 ^ 32) + b0 * 2 ^ 24 + b1 * 65536 + b2 * 256 + b3
unfolding unpack_u32
unpack_u32_sum b0 b1 b2 b3 h k l = ground (
  arith,
  bit_or-add_right 8 b2 b3 l,
  bit_or-add_right 16 b1 (b2 * 2 ^ 8 + b3),
  bit_or-add_right 24 b0 (b1 * 2 ^ 16 + (b2 * 2 ^ 8 + b3)),
  bit_or-add_right 24 (b0 + 2 ^ 40 - 2 ^ 8) (b1 * 2 ^ 16 + (b2 * 2 ^ 8 + b3)),
)

least : (val : ℕ) → val < 2 ^ 32 → (k : ℕ) → 1 ≤ k → val < 256 ^ k → min_bytes val ≤ k
unfolding min_bytes
least val h zero p q = absurd (omega arith)
least val h (suc zero) p q = ground arith
least val h (suc (suc zero)) p q = ground arith
least val h (suc (suc (suc zero))) p q = ground arith
least val h (suc (suc (suc (suc k)))) p q = ground arith

-- For a number below 2^32, the number of bytes that `knd_min_bytes` gives is between 1 and 4, they
-- hold the number, and no fewer do.
pub min_bytes_least :
    (val : ℕ)
    → val < 2 ^ 32
    → (val < 256 ^ min_bytes val)
      × (1 ≤ min_bytes val)
      × (min_bytes val ≤ 4)
      × ((k : ℕ) → 1 ≤ k → val < 256 ^ k → min_bytes val ≤ k)
unfolding min_bytes
min_bytes_least val h = (ground arith, ground arith, ground arith, least val h)

pub length-pack_int :
    (numval byte_size : ℕ)
    → 1 ≤ byte_size
    → byte_size ≤ 4
    → length (pack_int numval byte_size) ≡ byte_size
unfolding pack_int pack_u32 pack_u24 pack_u16
length-pack_int numval byte_size p q = ground arith

-- A number below 2^31 comes back from any number of bytes that hold it.
pub unpack_int-pack_int_any :
    (numval byte_size : ℕ) (rest : List ℕ)
    → numval < 2 ^ 31
    → 1 ≤ byte_size
    → byte_size ≤ 4
    → numval < 256 ^ byte_size
    → unpack_int (pack_int numval byte_size ++ rest) byte_size ≡ some numval
unfolding pack_int pack_u32 pack_u24 pack_u16 unpack_int
unpack_int-pack_int_any numval zero rest h p q k = absurd (omega arith)
unpack_int-pack_int_any numval (suc zero) rest h p q k = ground arith
unpack_int-pack_int_any numval (suc (suc zero)) rest h p q k =
    ground (arith, unpack_u16_sum (u8 (numval / 2 ^ 8)) (u8 numval))
unpack_int-pack_int_any numval (suc (suc (suc zero))) rest h p q k =
    ground (arith, unpack_u24_sum (u8 (numval / 2 ^ 16)) (u8 (numval / 2 ^ 8)) (u8 numval))
unpack_int-pack_int_any numval (suc (suc (suc (suc zero)))) rest h p q k = ground (
  arith,
  unpack_u32_sum (u8 (numval / 2 ^ 24)) (u8 (numval / 2 ^ 16)) (u8 (numval / 2 ^ 8)) (u8 numval),
)
unpack_int-pack_int_any numval (suc (suc (suc (suc (suc n))))) rest h p q k = absurd (omega arith)

min_bytes_fits :
    (numval : ℕ)
    → numval < 2 ^ 31
    → (1 ≤ min_bytes numval) × (min_bytes numval ≤ 4) × (numval < 256 ^ min_bytes numval)
unfolding min_bytes
min_bytes_fits numval h = ground arith

-- A number packed into its own number of bytes, with whatever bytes after it, comes back if it is
-- below 2^31.
pub unpack_int-pack_int :
    (numval : ℕ) (rest : List ℕ)
    → numval < 2 ^ 31
    → unpack_int (pack_int numval (min_bytes numval) ++ rest) (min_bytes numval) ≡ some numval
unpack_int-pack_int numval rest h =
    let (least, most, fits) = min_bytes_fits numval h in
    unpack_int-pack_int_any numval (min_bytes numval) rest h least most fits

-- A number from 2^31 to below 2^32, packed into four bytes, comes back too large by 2^64 - 2^32: the
-- sign of the `int` spreads into the upper half.
pub unpack_int-pack_int_sign :
    (numval : ℕ) (rest : List ℕ)
    → 2 ^ 31 ≤ numval
    → numval < 2 ^ 32
    → unpack_int (pack_int numval 4 ++ rest) 4 ≡ some (numval + (2 ^ 64 - 2 ^ 32))
unfolding pack_int pack_u32 unpack_int
unpack_int-pack_int_sign numval rest p q = ground (
  arith,
  unpack_u32_sum (u8 (numval / 2 ^ 24)) (u8 (numval / 2 ^ 16)) (u8 (numval / 2 ^ 8)) (u8 numval),
)
