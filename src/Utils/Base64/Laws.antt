-- ===== src/Utils/Base64/Laws.antt =====
-- The encoder against a decoder that reads four symbols at a time.
use knowdy.Base.{
  ℕ, ◌+◌, ◌-◌, ◌*◌, ◌/◌, ◌%◌, ◌<◌, ◌≡◌, ◌≢◌, refl, arith, List, [], ◌∷◌, Option, none, some, leb,
  ◌==◌, if◌then◌else◌, bit_and, length, every, every_sound, true, false, ◌&&◌, not,
}
use knowdy.Base.Bits.{bit_or-add, bit_and-mask}
use knowdy.Utils.Utf8.Laws.{IsBytes}
use knowdy.Utils.Base64.{base_64, symbol, index0, index1, index2, index3, base64_encode}

-- The value of a symbol, by its range.
unfoldable pub sextet : ℕ → Option ℕ
sextet c =
    if leb 65 c && leb c 90
    then some (c - 65)
    else if leb 97 c && leb c 122
    then some (c - 71)
    else if leb 48 c && leb c 57
    then some (c + 4)
    else if c == 43
    then some 62
    else if c == 47
    then some 63
    else none

infixl 5 ◌>>=◌
abbrev ◌>>=◌ {ℓ} : {A : Type ℓ} → Option A → (A → Option (List ℕ)) → Option (List ℕ)
none >>= f = none
some a >>= f = f a

-- The bytes of four symbols, before the bytes of the rest.
abbrev pub quad : ℕ → ℕ → ℕ → ℕ → Option (List ℕ) → Option (List ℕ)
quad c0 c1 c2 c3 rest =
    if c2 == b'='
    then (do v0 ← sextet c0; v1 ← sextet c1; some ((v0 * 4 + v1 / 16) ∷ []))
    else if c3 == b'='
    then (do
      v0 ← sextet c0
      v1 ← sextet c1
      v2 ← sextet c2
      some ((v0 * 4 + v1 / 16) ∷ (v1 % 16 * 16 + v2 / 4) ∷ []))
    else (do
      v0 ← sextet c0
      v1 ← sextet c1
      v2 ← sextet c2
      v3 ← sextet c3
      bytes ← rest
      some ((v0 * 4 + v1 / 16) ∷ (v1 % 16 * 16 + v2 / 4) ∷ (v2 % 4 * 64 + v3) ∷ bytes))

-- Independent of the code: the text up to its NUL, decoded.
unfoldable pub decode : List ℕ → Option (List ℕ)
decode (c0 ∷ c1 ∷ c2 ∷ c3 ∷ text) = quad c0 c1 c2 c3 (decode text)
decode (c0 ∷ []) = if c0 == 0 then some [] else none
decode _ = none

table :
    every 64
      (λ v. elim (sextet (symbol v)) [ none ↦ false | some w ↦ (w == v) && not (symbol v == b'=') ])
    ≡ true
unfolding every sextet base_64
table = refl

sextet-symbol : (v : ℕ) → v < 64 → (sextet (symbol v) ≡ some v) × (symbol v ≢ b'=')
sextet-symbol v h = let t = every_sound 64 _ v table h in (ground arith, ground arith)

high_table :
    every 256 (λ b. (bit_and b 0xF0 / 16 == b / 16) && (bit_and b 0xC0 / 64 == b / 64)) ≡ true
unfolding every
high_table = refl

high_bits : (b : ℕ) → b < 256 → (bit_and b 0xF0 / 16 ≡ b / 16) × (bit_and b 0xC0 / 64 ≡ b / 64)
high_bits b h = let t = every_sound 256 _ b high_table h in (ground arith, ground arith)

index0_sum : (a : ℕ) → a < 256 → index0 a ≡ a / 4
unfolding index0
index0_sum a h = ground (arith, bit_and-mask 6 (a / 4))

index1_sum : (a b : ℕ) → b < 256 → index1 a b ≡ a % 4 * 16 + b / 16
unfolding index1
index1_sum a b h = ground (arith, bit_and-mask 2 a, high_bits b, bit_or-add 4 (a % 4) (b / 16))

index2_sum : (b c : ℕ) → c < 256 → index2 b c ≡ b % 16 * 4 + c / 64
unfolding index2
index2_sum b c h = ground (arith, bit_and-mask 4 b, high_bits c, bit_or-add 2 (b % 16) (c / 64))

index3_rem : (c : ℕ) → index3 c ≡ c % 64
unfolding index3
index3_rem c = bit_and-mask 6 c

-- Decoding what was encoded gives back any string of bytes.
pub decode-base64_encode :
    (string : List ℕ) → IsBytes string → decode (base64_encode string) ≡ some string
unfolding decode base64_encode
decode-base64_encode [] h = refl
decode-base64_encode (a ∷ []) h =
    ground
      (arith, index0_sum a, bit_and-mask 2 a, sextet-symbol (a / 4), sextet-symbol (a % 4 * 16))
decode-base64_encode (a ∷ b ∷ []) h = ground (
  arith,
  index0_sum a,
  index1_sum a b,
  bit_and-mask 4 b,
  sextet-symbol (a / 4),
  sextet-symbol (a % 4 * 16 + b / 16),
  sextet-symbol (b % 16 * 4),
)
decode-base64_encode (a ∷ b ∷ c ∷ string) h = ground (
  arith,
  index0_sum a,
  index1_sum a b,
  index2_sum b c,
  index3_rem c,
  sextet-symbol (a / 4),
  sextet-symbol (a % 4 * 16 + b / 16),
  sextet-symbol (b % 16 * 4 + c / 64),
  sextet-symbol (c % 64),
  decode-base64_encode string,
)

-- The text takes four symbols for every three bytes begun, and a NUL.
pub length-base64_encode :
    (string : List ℕ) → length (base64_encode string) ≡ (length string + 2) / 3 * 4 + 1
unfolding base64_encode
length-base64_encode [] = refl
length-base64_encode (a ∷ []) = refl
length-base64_encode (a ∷ b ∷ []) = refl
length-base64_encode (a ∷ b ∷ c ∷ string) = omega (arith, length-base64_encode string)
