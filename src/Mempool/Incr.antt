-- ===== src/Mempool/Incr.antt =====
-- A counting pool (KND_ALLOC_INCR): its pages follow one another, and a page given back confuses it.
use knowdy.Err.{Err}
use knowdy.Base.{
  ℕ, zero, suc, ◌+◌, ◌*◌, ◌^◌, ◌<◌, ◌≤◌, ◌≡◌, refl, arith, List, [], ◌∷◌, ap, ap₂, sym, subst,
  dec_lt, ◌∙◌, u64, sub_size,
}
use knowdy.Mempool.{Alloc, PageType, Arena, Pool, arena, set_arena, next_page, page, free}
use knowdy.Mempool.Arenas.{arena-set_arena, alloc-set_arena, arena-free, alloc-free}
use knowdy.Mempool.Build.Links.{addresses}

module _ (t : PageType) where
  -- `n` calls of `knd_mempool_page`, one after the other: the pages, and the pool they leave.
  unfoldable pub pages_run : ℕ → Pool → List ℕ × Pool
  pages_run zero p = ([], p)
  pages_run (suc n) p = let (err, x, p') = page p t in let (xs, q) = pages_run n p' in (x ∷ xs, q)

  -- The buffer of the arena ends below 2^64.
  abbrev pub IsPlaced : Pool → Type 0
  IsPlaced p =
      let a = arena p t in
      (p.alloc ≡ Alloc.incr)
      × (a.pages + a.num_pages * a.page_size < 2 ^ 64)
      × (a.num_pages + 1 < 2 ^ 64)

  abbrev counted : Pool → Pool
  counted p = set_arena p t (record (arena p t) { pages_used = u64 ((arena p t).pages_used + 1) })

  offset_fits :
      (pages num size used : ℕ)
      → pages + num * size < 2 ^ 64
      → used < num
      → u64 (pages + u64 (size * used)) ≡ pages + used * size
  offset_fits pages num size used h l =
      let m : used * size ≤ num * size = grind arith in omega arith

  page_incr : (p : Pool) → p.alloc ≡ Alloc.incr → page p t ≡ next_page p t
  unfolding page
  page_incr p e = ground arith

  page-next :
      (p : Pool)
      → IsPlaced p
      → (arena p t).pages_used < (arena p t).num_pages
      → page p t
        ≡ (Err.ok, (arena p t).pages + (arena p t).pages_used * (arena p t).page_size, counted p)
  unfolding next_page
  page-next p (e, h, k) l =
      page_incr p e
      ∙ ground (
        arith,
        offset_fits (arena p t).pages (arena p t).num_pages (arena p t).page_size
            (arena p t).pages_used h l,
      )

  counted-IsPlaced : (p : Pool) → IsPlaced p → IsPlaced (counted p)
  counted-IsPlaced p h = rw (arena-set_arena, alloc-set_arena) h

  run :
      (n : ℕ) (p : Pool) (pages size used : ℕ)
      → IsPlaced p
      → (arena p t).pages ≡ pages
      → (arena p t).page_size ≡ size
      → (arena p t).pages_used ≡ used
      → used + n ≤ (arena p t).num_pages
      → let (xs, q) = pages_run n p in
        (xs ≡ addresses n (pages + used * size) size) × ((arena q t).pages_used ≡ used + n)
  unfolding pages_run
  run zero p pages size used h e f g l = (refl, omega (arith, g))
  run (suc n) p pages size used h e f g l =
      let step = page-next p h (omega arith) in
      let (xs, count) =
        run n (counted p) pages size (used + 1) (counted-IsPlaced p h) (rw arena-set_arena e)
          (rw arena-set_arena f) (rw arena-set_arena (omega (arith, h.2)))
          (rw arena-set_arena (omega arith)) in
      let start : pages + (used + 1) * size ≡ pages + used * size + size = omega arith in
      rw step (
        ap₂ ◌∷◌ (rw (e, f, g)) (xs ∙ ap (λ from. addresses n from size) start),
        count ∙ omega arith,
      )

  -- In a pool of type KND_ALLOC_INCR, as long as there are pages, each call returns the page behind the
  -- last one: the pages of a run
  -- lie one after the other in the buffer, and each is counted.
  pub pages_run-addresses :
      (n : ℕ) (p : Pool)
      → IsPlaced p
      → (arena p t).pages_used + n ≤ (arena p t).num_pages
      → let (xs, q) = pages_run n p in
        (xs
          ≡ addresses n
              ((arena p t).pages + (arena p t).pages_used * (arena p t).page_size)
              (arena p t).page_size)
        × ((arena q t).pages_used ≡ (arena p t).pages_used + n)
  pages_run-addresses n p h l = run n p _ _ _ h refl refl refl l

  page-full :
      (p : Pool)
      → IsPlaced p
      → (arena p t).pages_used ≡ (arena p t).num_pages
      → page p t ≡ (Err.nomem, 0, p)
  unfolding next_page
  page-full p (e, h, k) l = page_incr p e ∙ ground arith

  free-IsPlaced : (p : Pool) (freed : ℕ) → IsPlaced p → IsPlaced (free p t freed)
  free-IsPlaced p freed h = rw (arena-free p t freed, alloc-free p t freed) h

  -- After one page more, giving back any page takes the count back to where it was.
  next-free :
      (p : Pool) (freed : ℕ)
      → IsPlaced p
      → (arena p t).pages_used < (arena p t).num_pages
      → (q : Pool) × (page (free (counted p) t freed) t
          ≡ (Err.ok, (arena p t).pages + (arena p t).pages_used * (arena p t).page_size, q))
  next-free p freed h l =
      let f = free (counted p) t freed in
      let placed = free-IsPlaced (counted p) freed (counted-IsPlaced p h) in
      let same : arena f t
          ≡ record (arena p t) { page_list = freed; pages_used = (arena p t).pages_used } =
        arena-free (counted p) t freed
        ∙ ap (λ (a : Arena). record a { page_list = freed; pages_used = sub_size a.pages_used 1 })
            (arena-set_arena p t _)
        ∙ ap (λ (u : ℕ). record (arena p t) { page_list = freed; pages_used = u })
            (omega (arith, h.2)) in
      (counted f, page-next f placed (rw same l) ∙ rw same refl)

  -- After a successful call on a pool of type KND_ALLOC_INCR, whichever page is then given back, the
  -- next call returns once more the page that the first call handed out.
  pub page-free_last :
      (p p' : Pool) (x freed : ℕ)
      → IsPlaced p
      → (arena p t).pages_used ≤ (arena p t).num_pages
      → page p t ≡ (Err.ok, x, p')
      → (q : Pool) × (page (free p' t freed) t ≡ (Err.ok, x, q))
  page-free_last p p' x freed h l e = elim (dec_lt (arena p t).pages_used (arena p t).num_pages) [
    | yes more ↦
        let same : (
          Err.ok,
          (arena p t).pages + (arena p t).pages_used * (arena p t).page_size,
          counted p,
        )
            ≡ (Err.ok, x, p') =
          sym (page-next p h more) ∙ e in
        subst (λ r. (q : Pool) × (page (free r.2 t freed) t ≡ (Err.ok, r.1, q))) same
          (next-free p freed h more)
    | no full ↦ absurd (ground (arith, page-full p h (omega arith)))
  ]
