-- ===== src/Utils/Base64.antt =====
-- `knd_base64_encode` of src/knd_utils.c.
pub mod Laws
use knowdy.Base.{ℕ, ◌+◌, ◌*◌, ◌/◌, ◌^◌, List, [], ◌∷◌, ◌++◌, get_or, bit_and, bit_or, ◌<<◌, ◌>>◌}
use knowdy.Utils.Ids.{codes}

-- `knd_base_64`
unfoldable pub base_64 : List ℕ
base_64 = codes "ABCDEFGHIJKLMNOPQRSTUVWXYZabcdefghijklmnopqrstuvwxyz0123456789+/"

-- `knd_base_64[i]`, with the NUL behind the table.
abbrev pub symbol : ℕ → ℕ
symbol i = get_or base_64 i 0

-- The indices that three bytes give. On a negative `char` too, the masks keep its low bits alone.
unfoldable pub index0 : ℕ → ℕ
index0 a = bit_and (a >> 2) 0x3F

unfoldable pub index1 : ℕ → ℕ → ℕ
index1 a b = bit_or (bit_and a 0x3 << 4) (bit_and b 0xF0 >> 4)

unfoldable pub index2 : ℕ → ℕ → ℕ
index2 b c = bit_or (bit_and b 0xF << 2) (bit_and c 0xC0 >> 6)

unfoldable pub index3 : ℕ → ℕ
index3 c = bit_and c 0x3F

-- The loop takes three bytes while there are three; what is left is padded, and a NUL ends it.
unfoldable pub base64_encode : List ℕ → List ℕ
base64_encode (a ∷ b ∷ c ∷ string) =
    symbol (index0 a)
    ∷ symbol (index1 a b)
    ∷ symbol (index2 b c)
    ∷ symbol (index3 c)
    ∷ base64_encode string
base64_encode (a ∷ b ∷ []) =
    symbol (index0 a) ∷ symbol (index1 a b) ∷ symbol (bit_and b 0xF << 2) ∷ b'=' ∷ 0 ∷ []
base64_encode (a ∷ []) = symbol (index0 a) ∷ symbol (bit_and a 0x3 << 4) ∷ b'=' ∷ b'=' ∷ 0 ∷ []
base64_encode [] = 0 ∷ []
