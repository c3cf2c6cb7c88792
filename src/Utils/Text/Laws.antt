-- ===== src/Utils/Text/Laws.antt =====
-- What the text helpers leave behind.
use knowdy.Base.{
  ℕ, ◌+◌, ◌-◌, ◌<◌, ◌≤◌, ◌≡◌, ◌≢◌, arith, List, [], ◌∷◌, none, some, ltb, if◌then◌else◌, length,
  take, take-cons, take-nil, ◌⊎◌,
}
use knowdy.Utils.Ids.{id_size}
use knowdy.Utils.Text.{is_upper, abbr_loop, build_conc_abbr}

-- Up to its NUL, a text has no control character, quote, ampersand or backslash.
abbrev pub IsPrintable : List ℕ → Type 0
IsPrintable [] = Unit
IsPrintable (c ∷ chars) =
    (c ≡ 0) ⊎ ((32 ≤ c) × (c ≢ b'"') × (c ≢ 39) × (c ≢ b'&') × (c ≢ 92) × IsPrintable chars)

-- The capitals of a name, in order.
abbrev pub uppers : List ℕ → List ℕ
uppers [] = []
uppers (c ∷ name) = if is_upper c then c ∷ uppers name else uppers name

abbr_loop_lem :
    (name : List ℕ) (n : ℕ)
    → n < id_size
    → ((abbr_loop name n).0 ≡ take (id_size - n) (uppers name))
      × ((abbr_loop name n).1 ≡ (
          if ltb (n + length (uppers name)) id_size then some (n + length (uppers name)) else none))
unfolding abbr_loop
abbr_loop_lem [] n h = ground (arith, take-nil ℕ (id_size - n))
abbr_loop_lem (c ∷ name) n h = ground (
  arith,
  abbr_loop_lem name n,
  abbr_loop_lem name (n + 1),
  take-cons (id_size - n) c (uppers name),
)

-- The abbreviation is made of the first eight capitals of the name; its size is stored where there
-- are fewer than eight, and with eight or more `*buf_size` stays as it was.
pub build_conc_abbr_lem :
    (name : List ℕ)
    → build_conc_abbr name ≡ (
      take id_size (uppers name),
      if ltb (length (uppers name)) id_size then some (length (uppers name)) else none,
    )
unfolding build_conc_abbr
build_conc_abbr_lem name = ground (arith, abbr_loop_lem name 0)
