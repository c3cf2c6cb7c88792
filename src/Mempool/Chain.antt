-- ===== src/Mempool/Chain.antt =====
-- Lists of pages linked through memory, and lists without repetition.
use knowdy.Base.{
  ℕ, ◌≡◌, ◌≢◌, arith, List, [], ◌∷◌, ◌++◌, ◌==◌, if◌then◌else◌, ◌⊎◌, inl, inr, length, suc,
  Bool-cases, subst, sym, true, false,
}
use knowdy.Mempool.{write}

abbrev pub NotIn : ℕ → List ℕ → Type 0
NotIn a [] = Unit
NotIn a (x ∷ xs) = (a ≢ x) × NotIn a xs

abbrev pub In : ℕ → List ℕ → Type 0
In a [] = ⊥
In a (x ∷ xs) = (a ≡ x) ⊎ In a xs

abbrev pub Distinct : List ℕ → Type 0
Distinct [] = Unit
Distinct (x ∷ xs) = NotIn x xs × Distinct xs

-- From the pointer `head` the `next` fields run through the pages and end in NULL.
abbrev pub Chain : (ℕ → ℕ) → ℕ → List ℕ → Type 0
Chain mem head [] = head ≡ 0
Chain mem head (a ∷ ps) = (head ≡ a) × (a ≢ 0) × Chain mem (mem a) ps

-- The first occurrence is removed.
abbrev pub remove : ℕ → List ℕ → List ℕ
remove a [] = []
remove a (x ∷ xs) = if a == x then xs else x ∷ remove a xs

-- A write to another address leaves a chain as it is.
pub Chain-write :
    (mem : ℕ → ℕ) (a v head : ℕ) (ps : List ℕ)
    → NotIn a ps
    → Chain mem head ps
    → Chain (write mem a v) head ps
Chain-write mem a v head [] n c = c
Chain-write mem a v head (x ∷ xs) (ne, n) (e, nz, c) =
    (e, nz, rw unwritten (Chain-write mem a v (mem x) xs n c))
  where
    unwritten : write mem a v x ≡ mem x
    unwritten = ground arith

pub NotIn-middle : (x a : ℕ) (xs ys : List ℕ) → NotIn x (xs ++ a ∷ ys) → NotIn x (a ∷ (xs ++ ys))
NotIn-middle x a [] ys n = n
NotIn-middle x a (b ∷ xs) ys (ne, n) = let (ne', n') = NotIn-middle x a xs ys n in (ne', (ne, n'))

pub NotIn-to_middle : (x a : ℕ) (xs ys : List ℕ) → NotIn x (a ∷ (xs ++ ys)) → NotIn x (xs ++ a ∷ ys)
NotIn-to_middle x a [] ys n = n
NotIn-to_middle x a (b ∷ xs) ys (ne, (ne', n)) = (ne', NotIn-to_middle x a xs ys (ne, n))

ne_sym : {a b : ℕ} → a ≢ b → b ≢ a
ne_sym ne = ground arith

pub Distinct-middle : (a : ℕ) (xs ys : List ℕ) → Distinct (xs ++ a ∷ ys) → Distinct (a ∷ (xs ++ ys))
Distinct-middle a [] ys d = d
Distinct-middle a (b ∷ xs) ys (n, d) =
    let (na, d') = Distinct-middle a xs ys d in
    let (ne, n') = NotIn-middle b a xs ys n in ((ne_sym ne, na), (n', d'))

pub Distinct-to_middle :
    (a : ℕ) (xs ys : List ℕ) → Distinct (a ∷ (xs ++ ys)) → Distinct (xs ++ a ∷ ys)
Distinct-to_middle a [] ys d = d
Distinct-to_middle a (b ∷ xs) ys ((ne, na), (n, d)) =
    (NotIn-to_middle b a xs ys (ne_sym ne, n), Distinct-to_middle a xs ys (na, d))

pub NotIn-remove : (x a : ℕ) (xs ys : List ℕ) → NotIn x (xs ++ ys) → NotIn x (remove a xs ++ ys)
NotIn-remove x a [] ys n = n
NotIn-remove x a (b ∷ xs) ys (ne, n) = elim (Bool-cases (a == b)) [
  | inl e ↦ rw e n
  | inr e ↦ rw e (ne, NotIn-remove x a xs ys n)
]

pub ne_of_NotIn : (x a : ℕ) (xs ys : List ℕ) → In a xs → NotIn x (xs ++ ys) → x ≢ a
ne_of_NotIn x a [] ys i n = absurd i
ne_of_NotIn x a (b ∷ xs) ys (inl e) (ne, n) = ground arith
ne_of_NotIn x a (b ∷ xs) ys (inr i) (ne, n) = ne_of_NotIn x a xs ys i n

-- A member of a list without repetition, taken out and put in front.
pub Distinct-remove :
    (a : ℕ) (xs ys : List ℕ) → In a xs → Distinct (xs ++ ys) → Distinct (a ∷ (remove a xs ++ ys))
Distinct-remove a [] ys i d = absurd i
Distinct-remove a (b ∷ xs) ys i (n, d) = elim (Bool-cases (a == b)) [
  | inl e ↦ rw e (subst (λ c. NotIn c (xs ++ ys)) (sym (first e)) n, d)
  | inr e ↦
      let (na, d') = Distinct-remove a xs ys (later e i) d in
      rw e (((λ s. absurd (ground arith)), na), (NotIn-remove b a xs ys n, d'))
]
  where
    first : (a == b) ≡ true → a ≡ b
    first e = ground arith

    later : (a == b) ≡ false → (a ≡ b) ⊎ In a xs → In a xs
    later e (inl s) = absurd (ground arith)
    later e (inr i') = i'

pub length-remove : (a : ℕ) (xs : List ℕ) → In a xs → suc (length (remove a xs)) ≡ length xs
length-remove a [] i = absurd i
length-remove a (b ∷ xs) (inl e) = ground arith
length-remove a (b ∷ xs) (inr i) = ground (arith, length-remove a xs i)

pub NotIn-append : (x : ℕ) (xs ys : List ℕ) → NotIn x (xs ++ ys) → NotIn x ys
NotIn-append x [] ys n = n
NotIn-append x (b ∷ xs) ys (ne, n) = NotIn-append x xs ys n

pub NotIn-prefix : (x : ℕ) (xs ys : List ℕ) → NotIn x (xs ++ ys) → NotIn x xs
NotIn-prefix x [] ys n = tt
NotIn-prefix x (b ∷ xs) ys (ne, n) = (ne, NotIn-prefix x xs ys n)

pub Distinct-prefix : (xs ys : List ℕ) → Distinct (xs ++ ys) → Distinct xs
Distinct-prefix [] ys d = tt
Distinct-prefix (x ∷ xs) ys (n, d) = (NotIn-prefix x xs ys n, Distinct-prefix xs ys d)
