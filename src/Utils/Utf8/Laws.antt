-- ===== src/Utils/Utf8/Laws.antt =====
-- The reader against the UTF-8 encoding of the code points below 2^16.
use knowdy.Err.{Err}
use knowdy.Base.{
  ℕ, suc, ◌+◌, ◌*◌, ◌/◌, ◌%◌, ◌^◌, ◌<◌, ◌≤◌, ◌≡◌, refl, arith, List, [], ◌∷◌, ◌++◌, ltb, ◌==◌,
  if◌then◌else◌, bit_and, length, every, every_sound, Bool-cases, dec_lt, ℕ_discrete, ◌≢◌, false,
  inl, inr, Bool, true, ◌⊎◌, ◌&&◌,
}
use knowdy.Base.Bits.{bit_or-add, bit_and-mask}
use knowdy.Utils.Utf8.{Read, decoded, failed, fault, read_utf8_char}

-- Independent of the code: the encoding, as arithmetic.
abbrev pub encode : ℕ → List ℕ
encode c =
    if ltb c 128
    then c ∷ []
    else if ltb c 2048
    then (192 + c / 64) ∷ (128 + c % 64) ∷ []
    else (224 + c / 4096) ∷ (128 + c / 64 % 64) ∷ (128 + c % 64) ∷ []

-- The masks of the indicator bytes, over all bytes.
abbrev same : Bool → Bool → Bool
same a b = if a then b else (if b then Bool.false else true)

mask_table :
    every 256 (λ b.
      same (bit_and b 0xE0 == 0xC0) (b / 32 == 6)
      && (same (bit_and b 0xF0 == 0xE0) (b / 16 == 14)
          && same (bit_and b 0xC0 == 0x80) (b / 64 == 2)))
    ≡ true
unfolding every
mask_table = refl

record Masks (b : ℕ) : Type 0 where
  two : (bit_and b 0xE0 == 0xC0) ≡ (b / 32 == 6)
  three : (bit_and b 0xF0 == 0xE0) ≡ (b / 16 == 14)
  payload : (bit_and b 0xC0 == 0x80) ≡ (b / 64 == 2)
  low5 : bit_and b 0x1F ≡ b % 32
  low4 : bit_and b 0x0F ≡ b % 16
  low6 : bit_and b 0x3F ≡ b % 64

same-eq : (a b : Bool) → same a b ≡ true → a ≡ b
same-eq a b h = ground arith

masks : (b : ℕ) → b < 256 → Masks b
masks b h =
    let t = every_sound 256 _ b mask_table h in
    record {
      two = ground arith;
      three = ground arith;
      payload = ground arith;
      low5 = bit_and-mask 5 b;
      low4 = bit_and-mask 4 b;
      low6 = bit_and-mask 6 b;
    }

read_two :
    (b0 b1 : ℕ) (rec : List ℕ) (rec_size : ℕ)
    → b0 / 32 ≡ 6
    → b1 < 256
    → 2 ≤ rec_size
    → read_utf8_char (b0 ∷ b1 ∷ rec) rec_size
      ≡ (if b1 / 64 == 2 then decoded (b0 % 32 * 64 + b1 % 64) 2 else failed Err.fail)
unfolding read_utf8_char
read_two b0 b1 rec rec_size p q k =
    ground (arith, masks b0 (omega arith), masks b1 q, bit_or-add 6 (b0 % 32) (b1 % 64))

read_three :
    (b0 b1 b2 : ℕ) (rec : List ℕ) (rec_size : ℕ)
    → b0 / 16 ≡ 14
    → b1 < 256
    → b2 < 256
    → 3 ≤ rec_size
    → read_utf8_char (b0 ∷ b1 ∷ b2 ∷ rec) rec_size ≡ (
        if (b1 / 64 == 2) && (b2 / 64 == 2)
        then decoded (b0 % 16 * 4096 + b1 % 64 * 64 + b2 % 64) 3
        else failed Err.fail)
unfolding read_utf8_char
read_three b0 b1 b2 rec rec_size p q r k = ground (
  arith,
  masks b0 (omega arith),
  masks b1 q,
  masks b2 r,
  bit_or-add 12 (b0 % 16) (b1 % 64 * 64),
  bit_or-add 6 (b0 % 16 * 64 + b1 % 64) (b2 % 64),
)

read_ascii :
    (b0 : ℕ) (rec : List ℕ) (rec_size : ℕ)
    → b0 < 128
    → read_utf8_char (b0 ∷ rec) rec_size ≡ decoded b0 1
unfolding read_utf8_char
read_ascii b0 rec rec_size h = ground arith

-- Every code point below 2^16, encoded, is read back with the number of its bytes, whatever follows.
pub read_utf8_char-encode :
    (c : ℕ) (rest : List ℕ) (rec_size : ℕ)
    → c < 2 ^ 16
    → length (encode c) ≤ rec_size
    → read_utf8_char (encode c ++ rest) rec_size ≡ decoded c (length (encode c))
read_utf8_char-encode c rest rec_size h k = elim (Bool-cases (ltb c 128)) [
  | inl ascii ↦ ground (arith, read_ascii c rest rec_size)
  | inr wide ↦ elim (Bool-cases (ltb c 2048)) [
    | inl two ↦ ground (arith, read_two (192 + c / 64) (128 + c % 64) rest rec_size)
    | inr three ↦
        ground (arith, read_three (224 + c / 4096) (128 + c / 64 % 64) (128 + c % 64) rest rec_size)
  ]
]

abbrev pub IsBytes : List ℕ → Type 0
IsBytes [] = Unit
IsBytes (b ∷ rec) = (b < 256) × IsBytes rec

-- What a call may return on `rec_size` bytes: a code point with a length inside the record, or an
-- error; a read outside of the record is excluded.
abbrev pub Sound : ℕ → Read → Type 0
Sound rec_size (decoded val len) = (val < 2 ^ 16) × (1 ≤ len) × (len ≤ rec_size)
Sound rec_size (failed e) = (e ≡ Err.limit) ⊎ (e ≡ Err.fail)
Sound rec_size fault = ⊥

Sound-if :
    (t : Bool) (n : ℕ) {val len : ℕ}
    → val < 2 ^ 16
    → 1 ≤ len
    → len ≤ n
    → Sound n (if t then decoded val len else failed Err.fail)
Sound-if true n p q r = (p, q, r)
Sound-if false n p q r = inr refl

-- The records that are too short for their indicator, and the bytes that are none.
read_short :
    (b0 : ℕ) (rec : List ℕ) (n : ℕ)
    → ((b0 / 32 ≡ 6) × (n < 2)) ⊎ ((b0 / 16 ≡ 14) × (n < 3))
    → read_utf8_char (b0 ∷ rec) n ≡ failed Err.limit
unfolding read_utf8_char
read_short b0 rec n (inl (p, q)) = ground (arith, masks b0 (omega arith))
read_short b0 rec n (inr (p, q)) = ground (arith, masks b0 (omega arith))

read_other :
    (b0 : ℕ) (rec : List ℕ) (n : ℕ)
    → 128 ≤ b0
    → b0 < 256
    → b0 / 32 ≢ 6
    → b0 / 16 ≢ 14
    → read_utf8_char (b0 ∷ rec) n ≡ failed Err.fail
unfolding read_utf8_char
read_other b0 rec n p q r t = ground (arith, masks b0 q)

two-Sound :
    (b0 : ℕ) (rec : List ℕ)
    → b0 / 32 ≡ 6
    → IsBytes rec
    → Sound (suc (length rec)) (read_utf8_char (b0 ∷ rec) (suc (length rec)))
two-Sound b0 [] p bytes = rw (read_short b0 [] 1 (inl (p, omega arith))) (inl refl)
two-Sound b0 (b1 ∷ rec) p bytes =
    rw (read_two b0 b1 rec (suc (suc (length rec))) p bytes.0 (omega arith))
      (Sound-if (b1 / 64 == 2) _ (omega arith) (omega arith) (omega arith))

three-Sound :
    (b0 : ℕ) (rec : List ℕ)
    → b0 / 16 ≡ 14
    → IsBytes rec
    → Sound (suc (length rec)) (read_utf8_char (b0 ∷ rec) (suc (length rec)))
three-Sound b0 [] p bytes = rw (read_short b0 [] 1 (inr (p, omega arith))) (inl refl)
three-Sound b0 (b1 ∷ []) p bytes = rw (read_short b0 (b1 ∷ []) 2 (inr (p, omega arith))) (inl refl)
three-Sound b0 (b1 ∷ b2 ∷ rec) p bytes =
    rw (read_three b0 b1 b2 rec (suc (suc (suc (length rec)))) p bytes.0 bytes.1.0 (omega arith))
      (Sound-if ((b1 / 64 == 2) && (b2 / 64 == 2)) _ (omega arith) (omega arith) (omega arith))

-- On any record of at least one byte, valid UTF-8 or not, the reader stays inside the record and
-- returns a code point below 2^16 of as many bytes as are there, or `knd_LIMIT` or `knd_FAIL`.
pub read_utf8_char-Sound :
    (rec : List ℕ)
    → 1 ≤ length rec
    → IsBytes rec
    → Sound (length rec) (read_utf8_char rec (length rec))
read_utf8_char-Sound [] h bytes = absurd (omega arith)
read_utf8_char-Sound (b0 ∷ rec) h bytes = elim (dec_lt b0 128) [
  | yes p ↦ rw (read_ascii b0 rec (suc (length rec)) p) (omega arith)
  | no p ↦ elim (ℕ_discrete (b0 / 32) 6) [
    | yes q ↦ two-Sound b0 rec q bytes.1
    | no q ↦ elim (ℕ_discrete (b0 / 16) 14) [
      | yes r ↦ three-Sound b0 rec r bytes.1
      | no r ↦ rw (read_other b0 rec (suc (length rec)) (omega arith) bytes.0 q r) (inr refl)
    ]
  ]
]
