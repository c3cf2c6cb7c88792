-- ===== src/Utils/Text.antt =====
-- Two text helpers of src/knd_utils.c: `knd_remove_nonprintables` and `knd_build_conc_abbr`.
pub mod Laws
use knowdy.Base.{
  ℕ, ◌+◌, Bool, true, false, ◌&&◌, List, [], ◌∷◌, Option, none, some, ltb, leb, ◌==◌, if◌then◌else◌,
}
use knowdy.Utils.Ids.{id_size}

-- The tests of one round, each on the byte that the one before left.
abbrev blank : ℕ → ℕ → ℕ
blank mark c = if c == mark then 32 else c

unfoldable pub clean : ℕ → ℕ
clean c = blank 92 (blank 38 (blank 39 (blank 34 (if ltb c 32 then 32 else c))))

-- In place, up to the NUL.
unfoldable pub remove_nonprintables : List ℕ → List ℕ
remove_nonprintables [] = []
remove_nonprintables (c ∷ chars) =
    if c == 0 then c ∷ chars else clean c ∷ remove_nonprintables chars

-- `isupper` in the C locale.
unfoldable pub is_upper : ℕ → Bool
is_upper c = leb b'A' c && leb c b'Z'

-- The loop of `knd_build_conc_abbr`: the bytes written to `buf` from `abbr_size` on, and what is
-- stored to `*buf_size`. The early return stores nothing.
unfoldable pub abbr_loop : List ℕ → ℕ → List ℕ × Option ℕ
abbr_loop [] abbr_size = ([], some abbr_size)
abbr_loop (c ∷ name) abbr_size = elim (is_upper c) [
  | false ↦ abbr_loop name abbr_size
  | true ↦ elim (leb id_size (abbr_size + 1)) [
    | true ↦ (c ∷ [], none)
    | false ↦ let (buf, size) = abbr_loop name (abbr_size + 1) in (c ∷ buf, size)
  ]
]

unfoldable pub build_conc_abbr : List ℕ → List ℕ × Option ℕ
build_conc_abbr name = abbr_loop name 0
