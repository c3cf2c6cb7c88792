-- ===== src/Utils/Ids.antt =====
-- Object ids: strings of digits 0-9A-Za-z that stand for numbers in base 62 (src/knd_utils.c).
pub mod Laws
use Prim.Native.Char.{code}
use Prim.Native.String.{String}
use knowdy.Base.{
  ℕ, zero, suc, ◌+◌, ◌-◌, ◌*◌, ◌/◌, ◌%◌, ◌^◌, Bool, true, false, ◌&&◌, ◌||◌, Option, none, some,
  List, [], ◌∷◌, ◌++◌, ltb, leb, ◌==◌, if◌then◌else◌, u64, get_elem?,
}

-- `KND_RADIX_BASE`
abbrev pub radix_base : ℕ
radix_base = 62

-- `KND_ID_SIZE`
abbrev pub id_size : ℕ
id_size = 8

abbrev pub codes : String → List ℕ
codes String.[] = []
codes (String.◌∷◌ c s) = code c ∷ codes s

-- The digit that a byte stands for; `none` is the -1 of the table.
unfoldable pub obj_id_base : ℕ → Option ℕ
obj_id_base c =
    if leb 48 c && leb c 57
    then some (c - 48)
    else if leb 65 c && leb c 90
    then some (c - 55)
    else if leb 97 c && leb c 122
    then some (c - 61)
    else none

-- The digits in their order, with the NUL that ends a C string.
unfoldable pub obj_id_seq : List ℕ
obj_id_seq = codes "0123456789ABCDEFGHIJKLMNOPQRSTUVWXYZabcdefghijklmnopqrstuvwxyz" ++ (0 ∷ [])

-- The loop of `knd_calc_num_id` over the bytes left, with `aggr` and `base`, both `size_t`.
unfoldable pub calc_loop : List ℕ → ℕ → ℕ → Option ℕ
calc_loop [] aggr base = some aggr
calc_loop (c ∷ id) aggr base = elim (obj_id_base c) [
  | none ↦ none
  | some num ↦ calc_loop id (u64 (aggr + num * base)) (u64 (base * radix_base))
]

-- `none`: the early return, which leaves `*numval` as it was.
unfoldable pub calc_num_id : List ℕ → Option ℕ
calc_num_id id = calc_loop id 0 1

-- The `while (curr_val)` loop of `knd_num_to_str`, with fuel. `none`: a read outside of
-- `obj_id_seq`, a division by zero, or no end. `ldiv` takes a `long`, so from 2^63 on
-- the remainder is negative (and the read is outside).
unfoldable pub num_loop : ℕ → ℕ → ℕ → Option (List ℕ)
num_loop fuel zero base = some []
num_loop zero (suc n) base = none
num_loop (suc fuel) (suc n) base =
    let curr_val = suc n in
    elim (leb (2 ^ 63) curr_val || (base == 0)) [
      | true ↦ none
      | false ↦ elim (get_elem? obj_id_seq (curr_val % base)) [
        | none ↦ none
        | some c ↦ elim (num_loop fuel (curr_val / base) base) [
          | none ↦ none
          | some buf ↦ some (c ∷ buf)
        ]
      ]
    ]

-- The bytes written to `buf`; `*buf_size` is their number. Each round makes `curr_val` smaller
-- where `base` is at least 2.
unfoldable pub num_to_str : ℕ → ℕ → Option (List ℕ)
num_to_str numval base = if numval == 0 then some (b'0' ∷ []) else num_loop numval numval base
