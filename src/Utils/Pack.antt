-- ===== src/Utils/Pack.antt =====
-- Numbers of one to four bytes, the most significant byte first (src/knd_utils.c).
pub mod Laws
use knowdy.Base.{
  ℕ, ◌+◌, ◌-◌, ◌*◌, ◌/◌, ◌%◌, ◌^◌, List, [], ◌∷◌, Option, none, some, ltb, ◌==◌, if◌then◌else◌, u8,
  u64, ◌<<◌, ◌>>◌, bit_or,
}

-- `knd_min_bytes`
unfoldable pub min_bytes : ℕ → ℕ
min_bytes val =
    if ltb val 256
    then 1
    else if ltb val (256 * 256)
    then 2
    else if ltb val (256 * 256 * 256)
    then 3
    else 4

-- What each writes to `buf`; every store into an `unsigned char` keeps the low eight bits.
unfoldable pub pack_u32 : ℕ → List ℕ
pack_u32 val = u8 (val >> 24) ∷ u8 (val >> 16) ∷ u8 (val >> 8) ∷ u8 val ∷ []

unfoldable pub pack_u24 : ℕ → List ℕ
pack_u24 val = u8 (val >> 16) ∷ u8 (val >> 8) ∷ u8 val ∷ []

unfoldable pub pack_u16 : ℕ → List ℕ
pack_u16 val = u8 (val >> 8) ∷ u8 val ∷ []

-- An `int` converted to `unsigned long`: a bit pattern from 2^31 on is negative, and its sign fills
-- the upper half.
abbrev pub ulong_of_int : ℕ → ℕ
ulong_of_int x = if ltb x (2 ^ 31) then x else x + (2 ^ 64 - 2 ^ 32)

-- The bytes are promoted to `int` before they are shifted. (C leaves a shift into the sign bit
-- undefined; compilers shift the bit pattern.)
unfoldable pub unpack_u32 : ℕ → ℕ → ℕ → ℕ → ℕ
unpack_u32 b0 b1 b2 b3 = bit_or (bit_or (bit_or b3 (b2 << 8)) (b1 << 16)) (ulong_of_int (b0 << 24))

unfoldable pub unpack_u24 : ℕ → ℕ → ℕ → ℕ
unpack_u24 b0 b1 b2 = bit_or (bit_or b2 (b1 << 8)) (b0 << 16)

unfoldable pub unpack_u16 : ℕ → ℕ → ℕ
unpack_u16 b0 b1 = bit_or b1 (b0 << 8)

unfoldable pub pack_int : ℕ → ℕ → List ℕ
pack_int numval byte_size =
    if byte_size == 4
    then pack_u32 numval
    else if byte_size == 3
    then pack_u24 numval
    else if byte_size == 2
    then pack_u16 numval
    else u8 numval ∷ []

-- The helpers take the bytes that they read out of `buf`; `none` is a read past its end.
abbrev pub unpack4 : List ℕ → Option ℕ
unpack4 (b0 ∷ b1 ∷ b2 ∷ b3 ∷ buf) = some (unpack_u32 b0 b1 b2 b3)
unpack4 _ = none

abbrev pub unpack3 : List ℕ → Option ℕ
unpack3 (b0 ∷ b1 ∷ b2 ∷ buf) = some (unpack_u24 b0 b1 b2)
unpack3 _ = none

abbrev pub unpack2 : List ℕ → Option ℕ
unpack2 (b0 ∷ b1 ∷ buf) = some (unpack_u16 b0 b1)
unpack2 _ = none

abbrev pub unpack1 : List ℕ → Option ℕ
unpack1 (b0 ∷ buf) = some b0
unpack1 [] = none

unfoldable pub unpack_int : List ℕ → ℕ → Option ℕ
unpack_int buf byte_size =
    if byte_size == 4
    then unpack4 buf
    else if byte_size == 3
    then unpack3 buf
    else if byte_size == 2
    then unpack2 buf
    else unpack1 buf
