-- ===== src/Mempool/Build/Links.antt =====
-- What `build_linked_list` builds: the pages of an arena, in their order.
use knowdy.Base.{
  ℕ, zero, suc, ◌+◌, ◌*◌, ◌<◌, ◌≤◌, ◌≡◌, ◌≢◌, refl, arith, List, [], ◌∷◌, none, some, ◌⊎◌, inl, ◌∙◌,
  sym, ap, length,
}
use knowdy.Mempool.{Arena, write}
use knowdy.Mempool.Chain.{Chain, NotIn, Distinct}
use knowdy.Mempool.Build.{build_loop, build_linked_list}

-- The addresses of `n` pages of `size` bytes from `at` on.
abbrev pub addresses : ℕ → ℕ → ℕ → List ℕ
addresses zero at size = []
addresses (suc n) at size = at ∷ addresses n (at + size) size

-- Outside of `[lo, hi)` and of `p`, two memories agree.
abbrev pub Agree : ℕ → ℕ → (ℕ → ℕ) → (ℕ → ℕ) → Type 0
Agree lo hi mem mem' = (q : ℕ) → (q < lo) ⊎ (hi ≤ q) → mem' q ≡ mem q

write_ne : (mem : ℕ → ℕ) (p v q : ℕ) → p ≢ q → write mem p v q ≡ mem q
write_ne mem p v q h = ground arith

write_eq : (mem : ℕ → ℕ) (p v : ℕ) → write mem p v p ≡ v
write_eq mem p v = ground arith

build_loop-Chain :
    (size n at p head : ℕ) (mem : ℕ → ℕ)
    → 0 < size
    → p < at
    → let (head', mem') = build_loop size n at (some p) (head, mem) in
      (head' ≡ head)
      × Chain mem' (mem' p) (addresses n at size)
      × ((q : ℕ) → q ≢ p → (q < at) ⊎ (at + n * size ≤ q) → mem' q ≡ mem q)
unfolding build_loop
build_loop-Chain size zero at p head mem s l =
    (refl, write_eq mem p 0, λ q ne o. write_ne mem p 0 q (λ e. ne (sym e)))
build_loop-Chain size (suc n) at p head mem s l =
    let (h, chain, outside) =
      build_loop-Chain size n (at + size) at head (write mem p at) s (omega arith) in
    (
      h,
      (outside p (omega arith) (inl (omega arith)) ∙ write_eq mem p at, omega arith, chain),
      λ q ne o. outside q (ground arith) (ground arith) ∙ write_ne mem p at q (λ e. ne (sym e)),
    )

-- The list of an arena holds its pages in their order; memory outside of the arena stays.
pub build_linked_list-Chain :
    (mem : ℕ → ℕ) (a : Arena)
    → 0 < a.page_size
    → 0 < a.pages
    → let (head, mem') = build_linked_list mem a in
      Chain mem' head (addresses a.num_pages a.pages a.page_size)
      × Agree a.pages (a.pages + a.num_pages * a.page_size) mem mem'
unfolding build_linked_list
build_linked_list-Chain mem a s l = from_start a.num_pages
  where
    from_start :
        (n : ℕ)
        → let (head, mem') = build_loop a.page_size n a.pages none (a.page_list, mem) in
          Chain mem' head (addresses n a.pages a.page_size)
          × Agree a.pages (a.pages + n * a.page_size) mem mem'
    from_start zero = unfold build_loop in (refl, λ q o. refl)
    from_start (suc n) =
        unfold build_loop in
        let (h, chain, outside) =
          build_loop-Chain a.page_size n (a.pages + a.page_size) a.pages a.pages mem s
            (omega arith) in
        ((h, omega arith, chain), λ q o. outside q (ground arith) (ground arith))

pub length-addresses : (n at size : ℕ) → length (addresses n at size) ≡ n
length-addresses zero at size = refl
length-addresses (suc n) at size = ap suc (length-addresses n (at + size) size)

below-addresses : (x n at size : ℕ) → x < at → NotIn x (addresses n at size)
below-addresses x zero at size l = tt
below-addresses x (suc n) at size l =
    ((λ e. omega arith), below-addresses x n (at + size) size (omega arith))

pub addresses-Distinct : (n at size : ℕ) → 0 < size → 0 < at → Distinct (0 ∷ addresses n at size)
addresses-Distinct n at size s l = (below-addresses 0 n at size l, distinct n at)
  where
    distinct : (k from : ℕ) → Distinct (addresses k from size)
    distinct zero from = tt
    distinct (suc k) from =
        (below-addresses from k (from + size) size (omega arith), distinct k (from + size))

-- A chain through pages that two memories agree on.
pub Chain-Agree :
    (lo hi : ℕ) (mem mem' : ℕ → ℕ) (n at size head : ℕ)
    → Agree lo hi mem mem'
    → (at + n * size ≤ lo) ⊎ (hi ≤ at)
    → 0 < size
    → Chain mem head (addresses n at size)
    → Chain mem' head (addresses n at size)
Chain-Agree lo hi mem mem' zero at size head g o s c = c
Chain-Agree lo hi mem mem' (suc n) at size head g o s (e, nz, c) = (
  e,
  nz,
  rw (g at (ground arith))
      (Chain-Agree lo hi mem mem' n (at + size) size (mem at) g (ground arith) s c),
)
