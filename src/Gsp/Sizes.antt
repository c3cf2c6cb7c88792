-- ===== src/Gsp/Sizes.antt =====
-- Reads at a known place of a file, and the size at the end of a block.
use knowdy.Base.{
  ℕ, zero, suc, ◌+◌, ◌≤◌, ◌<◌, ◌^◌, ◌≡◌, refl, ap, ◌∙◌, arith, subst, true, false, some, List, [],
  ◌∷◌, ◌++◌, length, length-append, drop, drop-append, take, take-append, ltb, leb, ◌==◌,
  if◌then◌else◌, append_assoc, append-nil, u8, sub_size, get_or, length-take, length-drop,
  get_or-drop, get_or-take,
}
use knowdy.Result.{done, ◌>>=◌, or_fault}
use knowdy.Utils.Pack.{pack_int, unpack_int, min_bytes}
use knowdy.Utils.Pack.Laws.{unpack_int-pack_int_any, length-pack_int, min_bytes_least}
use knowdy.Gsp.{Info}
use knowdy.Gsp.Read.{read}
use knowdy.Gsp.Load.{read_payload_size, payload_size}
use knowdy.Gsp.Format.{size_bytes}

-- The bytes at an offset.
pub read-append :
    (x w y : List ℕ) → length x < 2 ^ 63 → read (x ++ (w ++ y)) (length x) (length w) ≡ done w
unfolding read
read-append x w y h =
    let low : leb (2 ^ 63) (length x) ≡ false = ground arith in
    let same : (length w == length w) ≡ true = ground arith in
    rw (low, drop-append x (w ++ y), take-append w y, same) refl

pub read-three :
    (file : List ℕ) (offset : ℕ)
    → offset + 3 ≤ length file
    → length file < 2 ^ 63
    → (buf : List ℕ) × (read file offset 3 ≡ done buf)
      × ((i : ℕ) → i < 3 → get_or buf i 0 ≡ get_or file (offset + i) 0)
unfolding read
read-three file offset h small =
    let low : leb (2 ^ 63) offset ≡ false = ground arith in
    let same : (length (take 3 (drop offset file)) == 3) ≡ true =
      ground (arith, length-take 3 (drop offset file), length-drop offset file) in
    (
      take 3 (drop offset file),
      rw (low, same) refl,
      λ i b. get_or-take 3 i (drop offset file) 0 b ∙ get_or-drop offset i file 0,
    )

-- What is noted of the size of a payload block.
abbrev pub sized : ℕ → Info → Info
sized size info =
    if size == 0
    then (record info { payload_footer_size = 1 })
    else (record info { payload_block_size = size; payload_footer_size = 1 + min_bytes size })

read_payload_size-packed :
    (x pack y : List ℕ) (offset block_size k : ℕ) (info : Info)
    → offset + block_size ≡ length x + (length pack + 1)
    → length pack ≡ k
    → 1 ≤ k
    → k ≤ 4
    → offset + block_size < 2 ^ 63
    → read_payload_size (x ++ ((pack ++ (k ∷ [])) ++ y)) offset block_size info
      ≡ (or_fault (unpack_int pack k) >>= (λ numval. payload_size numval (1 + k) block_size info))
unfolding read_payload_size
read_payload_size-packed x pack y offset block_size k info e l low high small =
    let last_at : sub_size (offset + block_size) 1 ≡ length (x ++ pack) =
      omega (arith, length-append x pack) in
    let front_at : sub_size (offset + block_size) (1 + k) ≡ length x = omega arith in
    let last_split : x ++ ((pack ++ (k ∷ [])) ++ y) ≡ (x ++ pack) ++ ((k ∷ []) ++ y) =
      rw (append_assoc pack (k ∷ []) y, append_assoc x pack ((k ∷ []) ++ y)) refl in
    let front_split : x ++ ((pack ++ (k ∷ [])) ++ y) ≡ x ++ (pack ++ ((k ∷ []) ++ y)) =
      rw (append_assoc pack (k ∷ []) y) refl in
    let last : read (x ++ ((pack ++ (k ∷ [])) ++ y)) (sub_size (offset + block_size) 1) 1
        ≡ done (k ∷ []) =
      rw (last_at, last_split)
        (read-append (x ++ pack) (k ∷ []) y (omega (arith, length-append x pack))) in
    let front : read (x ++ ((pack ++ (k ∷ [])) ++ y)) (sub_size (offset + block_size) (1 + k)) k
        ≡ done pack =
      rw (front_at, front_split)
        (subst (λ (n : ℕ). read (x ++ (pack ++ ((k ∷ []) ++ y))) (length x) n ≡ done pack) l
          (read-append x pack ((k ∷ []) ++ y) (omega arith))) in
    let some_size : (k == 0) ≡ false = ground arith in
    let positive : leb 128 k ≡ false = ground arith in
    let fits : ltb 4 k ≡ false = ground arith in rw (last, some_size, positive, fits, front) refl

-- A size is read where a block ends.
pub read_payload_size_lem :
    (x y : List ℕ) (offset block_size size : ℕ) (info : Info)
    → offset + block_size ≡ length x + length (size_bytes size)
    → size + length (size_bytes size) ≤ block_size
    → offset + block_size < 2 ^ 63
    → size < 2 ^ 31
    → read_payload_size (x ++ (size_bytes size ++ y)) offset block_size info
      ≡ done (sized size info)
unfolding read_payload_size size_bytes payload_size
read_payload_size_lem x y offset block_size zero info e f small b =
    let at : sub_size (offset + block_size) 1 ≡ length x = omega arith in
    rw (at, read-append x (0 ∷ []) y (omega arith)) refl
read_payload_size_lem x y offset block_size (suc n) info e f small b =
    let (fit, low, high, least) = min_bytes_least (suc n) (omega arith) in
    let k : ℕ = min_bytes (suc n) in
    let pack : List ℕ = pack_int (suc n) k in
    let some_size : (suc n == 0) ≡ false = ground arith in
    let k_byte : u8 k ≡ k = omega arith in
    let back : unpack_int pack k ≡ some (suc n) =
      subst (λ (bytes : List ℕ). unpack_int bytes k ≡ some (suc n)) (append-nil pack)
        (unpack_int-pack_int_any (suc n) k [] b low high fit) in
    let bytes : size_bytes (suc n) ≡ pack ++ (k ∷ []) = rw (some_size, k_byte) refl in
    let bytes_size : length (size_bytes (suc n)) ≡ length pack + 1 =
      ap (λ (z : List ℕ). length z) bytes ∙ length-append pack (k ∷ []) in
    let k_size : length pack ≡ k = length-pack_int (suc n) k low high in
    let fits : ltb (sub_size block_size (1 + k)) (suc n) ≡ false = ground arith in
    rw
      (
        bytes,
        read_payload_size-packed x pack y offset block_size k info (omega arith) k_size low high
            small,
        back,
        fits,
        some_size,
      )
      refl
