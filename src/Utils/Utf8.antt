-- ===== src/Utils/Utf8.antt =====
-- `knd_read_UTF8_char` of src/knd_utils.c: one code point of one to three bytes.
pub mod Laws
use knowdy.Err.{Err}
use knowdy.Base.{ℕ, ◌+◌, ◌*◌, ◌^◌, List, [], ◌∷◌, ltb, ◌==◌, if◌then◌else◌, bit_and, bit_or, ◌<<◌}

-- `fault` is a read past the bytes of `rec`.
pub data Read : Type 0 where
  decoded : (val len : ℕ) → Read
  failed : Err → Read
  fault : Read

-- The branch of the 2-byte indicator, at the byte `b0`.
abbrev two_bytes : ℕ → List ℕ → Read
two_bytes b0 [] = fault
two_bytes b0 (b1 ∷ rec) =
    if bit_and b1 0xC0 == 0x80
    then decoded (bit_or (bit_and b0 0x1F << 6) (bit_and b1 0x3F)) 2
    else failed Err.fail

-- The branch of the 3-byte indicator.
abbrev three_bytes : ℕ → List ℕ → Read
three_bytes b0 (b1 ∷ b2 ∷ rec) =
    if bit_and b1 0xC0 == 0x80
    then if bit_and b2 0xC0 == 0x80
      then decoded
          (bit_or (bit_or (bit_and b0 0x0F << 12) (bit_and b1 0x3F << 6)) (bit_and b2 0x3F)) 3
      else failed Err.fail
    else failed Err.fail
three_bytes b0 _ = fault

unfoldable pub read_utf8_char : List ℕ → ℕ → Read
read_utf8_char [] rec_size = fault
read_utf8_char (b0 ∷ rec) rec_size =
    if ltb b0 128
    then decoded b0 1
    else if bit_and b0 0xE0 == 0xC0
    then if ltb rec_size 2 then failed Err.limit else two_bytes b0 rec
    else if bit_and b0 0xF0 == 0xE0
    then if ltb rec_size 3 then failed Err.limit else three_bytes b0 rec
    else failed Err.fail
