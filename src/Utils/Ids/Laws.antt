-- ===== src/Utils/Ids/Laws.antt =====
-- Printing a number as an id and reading the id back.
use knowdy.Base.{
  ℕ, zero, suc, ◌+◌, ◌*◌, ◌/◌, ◌%◌, ◌^◌, ◌<◌, ◌≤◌, ◌≡◌, refl, ap, arith, none, some, List, [], ◌∷◌,
  u64, get_elem?, length, ◌==◌, Bool, true, false, every, every_sound, Option-cases, inl, inr,
}
use native.Mathlib.Nat.{pow-suc}
use knowdy.Utils.Ids.{
  radix_base, obj_id_base, obj_id_seq, calc_loop, calc_num_id, num_loop, num_to_str,
}

-- `obj_id_base` takes each digit of `obj_id_seq` back to its index.
abbrev digit_returns : ℕ → Bool
digit_returns d = elim (get_elem? obj_id_seq d) [
  | none ↦ false
  | some c ↦ elim (obj_id_base c) [ none ↦ false | some e ↦ e == d ]
]

digit_table : every radix_base digit_returns ≡ true
unfolding obj_id_seq obj_id_base every
digit_table = refl

pub obj_id_base-obj_id_seq :
    (d : ℕ)
    → d < radix_base
    → (c : ℕ) × (get_elem? obj_id_seq d ≡ some c) × (obj_id_base c ≡ some d)
obj_id_base-obj_id_seq d h = from_table (every_sound radix_base digit_returns d digit_table h)
  where
    from_table :
        digit_returns d ≡ true
        → (c : ℕ) × (get_elem? obj_id_seq d ≡ some c) × (obj_id_base c ≡ some d)
    from_table e = elim (Option-cases (get_elem? obj_id_seq d)) [
      | inl out ↦ absurd (ground arith)
      | inr (c, at) ↦ (c, at, ground arith)
    ]

-- One round of both loops, in `size_t`.
u64-round :
    (aggr d q base : ℕ)
    → u64 (u64 (aggr + d * base) + q * u64 (base * radix_base))
      ≡ u64 (aggr + (q * radix_base + d) * base)
u64-round aggr d q base =
    let e : base * 62 ≡ base * 62 / 2 ^ 64 * 2 ^ 64 + base * 62 % 2 ^ 64 = omega arith in
    omega (arith, ap (λ (t : ℕ). q * t) e)

num_loop-suc :
    (fuel n : ℕ) {c : ℕ} {buf : List ℕ}
    → suc n < 2 ^ 63
    → get_elem? obj_id_seq (suc n % radix_base) ≡ some c
    → num_loop fuel (suc n / radix_base) radix_base ≡ some buf
    → num_loop (suc fuel) (suc n) radix_base ≡ some (c ∷ buf)
unfolding num_loop
num_loop-suc fuel n h e r = ground arith

num_loop-zero : (fuel : ℕ) → num_loop fuel 0 radix_base ≡ some []
unfolding num_loop
num_loop-zero zero = refl
num_loop-zero (suc fuel) = refl

-- The digits that `knd_num_to_str` writes are read back by `knd_calc_num_id`, whatever it has added up.
calc_loop-num_loop :
    (fuel n aggr base : ℕ)
    → n ≤ fuel
    → n < 2 ^ 63
    → aggr < 2 ^ 64
    → (buf : List ℕ) × (num_loop fuel n radix_base ≡ some buf)
      × (calc_loop buf aggr base ≡ some (u64 (aggr + n * base)))
unfolding calc_loop
calc_loop-num_loop fuel zero aggr base p h k = ([], num_loop-zero fuel, ground arith)
calc_loop-num_loop zero (suc n) aggr base p h k = absurd (omega arith)
calc_loop-num_loop (suc fuel) (suc n) aggr base p h k =
    let (c, at, back) = obj_id_base-obj_id_seq (suc n % 62) (omega arith) in
    let (buf, printed, sum) =
      calc_loop-num_loop fuel (suc n / 62) (u64 (aggr + suc n % 62 * base)) (u64 (base * 62))
        (omega arith) (omega arith) (omega arith) in
    (
      c ∷ buf,
      num_loop-suc fuel n h at printed,
      ground (arith, u64-round aggr (suc n % 62) (suc n / 62) base),
    )

-- A number below 2^63 is printed, to an id that is read back as that number.
pub calc_num_id-num_to_str :
    (numval : ℕ)
    → numval < 2 ^ 63
    → (buf : List ℕ) × (num_to_str numval radix_base ≡ some buf) × (calc_num_id buf ≡ some numval)
unfolding num_to_str calc_num_id
calc_num_id-num_to_str zero h = (b'0' ∷ [], refl, unfold obj_id_base calc_loop in refl)
calc_num_id-num_to_str (suc n) h =
    let (buf, printed, sum) =
      calc_loop-num_loop (suc n) (suc n) 0 1 (omega arith) h (omega arith) in
    (buf, ground arith, ground arith)

num_loop-suc_inv :
    (fuel n : ℕ) {buf : List ℕ}
    → num_loop (suc fuel) (suc n) radix_base ≡ some buf
    → (c : ℕ) × (rest : List ℕ) × (num_loop fuel (suc n / radix_base) radix_base ≡ some rest)
      × (buf ≡ c ∷ rest)
unfolding num_loop
num_loop-suc_inv fuel n e = ground arith

num_loop-length :
    (fuel n k : ℕ) {buf : List ℕ}
    → n < radix_base ^ k
    → num_loop fuel n radix_base ≡ some buf
    → length buf ≤ k
num_loop-length fuel zero k h e = ground (arith, num_loop-zero fuel)
num_loop-length zero (suc n) k h e = unfold num_loop in cc
num_loop-length (suc fuel) (suc n) zero h e = absurd (omega arith)
num_loop-length (suc fuel) (suc n) (suc k) h e =
    let (c, rest, printed, built) = num_loop-suc_inv fuel n e in
    let shorter = num_loop-length fuel (suc n / 62) k (omega (arith, pow-suc 62 k)) printed in
    omega (arith, shorter, ap (λ (b : List ℕ). length b) built)

length_bound :
    (numval k : ℕ) {buf : List ℕ}
    → numval < radix_base ^ k
    → 0 < k
    → num_to_str numval radix_base ≡ some buf
    → length buf ≤ k
unfolding num_to_str
length_bound zero k {buf} h p e = ground arith
length_bound (suc n) k {buf} h p e = ground (arith, num_loop-length (suc n) (suc n) k {buf = buf})

-- A number below 2^63 and below 62^k, k at least 1, is printed with at most k digits.
pub num_to_str-length :
    (numval k : ℕ)
    → numval < 2 ^ 63
    → numval < radix_base ^ k
    → 0 < k
    → (buf : List ℕ) × (num_to_str numval radix_base ≡ some buf) × (length buf ≤ k)
num_to_str-length numval k fits h p =
    let (buf, printed, _) = calc_num_id-num_to_str numval fits in
    (buf, printed, length_bound numval k h p printed)
