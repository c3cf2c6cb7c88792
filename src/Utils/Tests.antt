-- ===== src/Utils/Tests.antt =====
-- Runs of the helpers, and the theorems about them at inputs that meet their hypotheses.
use knowdy.Base.{
  ℕ, ◌+◌, ◌-◌, ◌^◌, ◌≤◌, ◌<◌, ◌≡◌, refl, arith, List, [], ◌∷◌, ◌++◌, none, some, length, ltb,
  if◌then◌else◌, take,
}
use knowdy.Err.{Err}
use knowdy.Utils.Ids.{
  codes, calc_num_id, calc_loop, num_to_str, num_loop, obj_id_base, obj_id_seq, radix_base, id_size,
}
use knowdy.Utils.Ids.Laws.{calc_num_id-num_to_str, num_to_str-length}
use knowdy.Utils.Pack.{min_bytes, pack_int, unpack_int}
use knowdy.Utils.Pack.Laws.{min_bytes_least, unpack_int-pack_int, unpack_int-pack_int_sign}
use knowdy.Utils.Utf8.{read_utf8_char, decoded, failed}
use knowdy.Utils.Utf8.Laws.{encode, read_utf8_char-encode, Sound, read_utf8_char-Sound}
use knowdy.Utils.Text.{remove_nonprintables, clean, build_conc_abbr, abbr_loop, is_upper}
use knowdy.Utils.Text.Laws.{uppers, build_conc_abbr_lem}
use knowdy.Utils.Base64.{base64_encode, base_64, index0, index1, index2, index3}
use knowdy.Utils.Base64.Laws.{decode, decode-base64_encode}

-- The comment's example: the low digit stands first.
calc_y1 : calc_num_id (codes "Y1") ≡ some 96
unfolding calc_num_id calc_loop obj_id_base
calc_y1 = refl

calc_invalid : calc_num_id (codes "Y_") ≡ none
unfolding calc_num_id calc_loop obj_id_base
calc_invalid = refl

print_96 : num_to_str 96 radix_base ≡ some (codes "Y1")
unfolding num_to_str num_loop obj_id_seq
print_96 = refl

calc_num_id-num_to_str_example :
    (buf : List ℕ) × (num_to_str 96 radix_base ≡ some buf) × (calc_num_id buf ≡ some 96)
calc_num_id-num_to_str_example = calc_num_id-num_to_str 96 (omega arith)

num_to_str-length_example : (buf : List ℕ) × (num_to_str 96 62 ≡ some buf) × (length buf ≤ 2)
num_to_str-length_example = num_to_str-length 96 2 (omega arith) (omega arith) (omega arith)

min_bytes_least_example :
    (70000 < 256 ^ min_bytes 70000)
    × (1 ≤ min_bytes 70000)
    × (min_bytes 70000 ≤ 4)
    × ((k : ℕ) → 1 ≤ k → 70000 < 256 ^ k → min_bytes 70000 ≤ k)
min_bytes_least_example = min_bytes_least 70000 (omega arith)

unpack_int-pack_int_example :
    unpack_int (pack_int 70000 (min_bytes 70000) ++ (7 ∷ [])) (min_bytes 70000) ≡ some 70000
unpack_int-pack_int_example = unpack_int-pack_int 70000 (7 ∷ []) (omega arith)

-- 0x80000000 comes back with all the upper bits set.
unpack_int-pack_int_sign_example :
    unpack_int (pack_int (2 ^ 31) 4 ++ []) 4 ≡ some (2 ^ 31 + (2 ^ 64 - 2 ^ 32))
unpack_int-pack_int_sign_example = unpack_int-pack_int_sign (2 ^ 31) [] (omega arith) (omega arith)

read_utf8_char-encode_example : read_utf8_char (encode 0x20AC ++ (65 ∷ [])) 4 ≡ decoded 0x20AC 3
read_utf8_char-encode_example = read_utf8_char-encode 0x20AC (65 ∷ []) 4 (omega arith) (omega arith)

read_stray : read_utf8_char (0xC3 ∷ 0x28 ∷ []) 2 ≡ failed Err.fail
unfolding read_utf8_char
read_stray = refl

read_utf8_char-Sound_example : Sound 2 (read_utf8_char (0xC3 ∷ 0x28 ∷ []) 2)
read_utf8_char-Sound_example = read_utf8_char-Sound (0xC3 ∷ 0x28 ∷ []) (omega arith) (omega arith)

decode-base64_encode_example : decode (base64_encode (codes "graph")) ≡ some (codes "graph")
decode-base64_encode_example = decode-base64_encode (codes "graph") (omega arith)

encode_ma : base64_encode (codes "Ma") ≡ codes "TWE=" ++ (0 ∷ [])
unfolding base64_encode base_64 index0 index1 index2 index3
encode_ma = refl

clean_text : remove_nonprintables (codes "a\"&b") ≡ codes "a  b"
unfolding remove_nonprintables clean
clean_text = refl

abbr_gdb : build_conc_abbr (codes "GraphDataBase") ≡ (codes "GDB", some 3)
unfolding build_conc_abbr abbr_loop is_upper
abbr_gdb = refl

-- Eight capitals: the size is not stored.
abbr_eight : build_conc_abbr (codes "ABCDEFGHI") ≡ (codes "ABCDEFGH", none)
unfolding build_conc_abbr abbr_loop is_upper
abbr_eight = refl

build_conc_abbr_lem_example : build_conc_abbr (codes "ABCDEFGHI") ≡ (
  take id_size (uppers (codes "ABCDEFGHI")),
  if ltb (length (uppers (codes "ABCDEFGHI"))) id_size
      then some (length (uppers (codes "ABCDEFGHI")))
      else none,
)
build_conc_abbr_lem_example = build_conc_abbr_lem (codes "ABCDEFGHI")
