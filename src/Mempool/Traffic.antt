-- ===== src/Mempool/Traffic.antt =====
-- A list pool (KND_ALLOC_LIST) in use: its clients take pages of one size, write to the pages that
-- they hold, and give them back.
use knowdy.Err.{Err}
use knowdy.Base.{
  ℕ, ◌+◌, ◌≡◌, ◌≢◌, refl, arith, List, [], ◌∷◌, sym, subst, ◌∙◌, sub_size, u64, ==_iff,
}
use knowdy.Mempool.{Alloc, PageType, Arena, Pool, arena, set_arena, get_page, page, free, write}
use knowdy.Mempool.Arenas.{arena-set_arena, mem-set_arena, alloc-set_arena, arena-mem}
use knowdy.Mempool.Pooled.{IsPooled, IsPooled-take, IsPooled-give, IsPooled-scribble, ne_zero}
use knowdy.Mempool.Chain.{NotIn, In, remove, NotIn-prefix, NotIn-prefix}

module _ (t : PageType) where
  -- A pool, and the pages of type `t` that clients hold.
  pub data Step : Pool → List ℕ → Pool → List ℕ → Type 0 where
    take :
        {p p' : Pool} {held : List ℕ} (a : ℕ)
        → page p t ≡ (Err.ok, a, p')
        → Step p held p' (a ∷ held)
    give : {p : Pool} {held : List ℕ} (a : ℕ) → In a held → Step p held (free p t a) (remove a held)
    scribble :
        {p : Pool} {held : List ℕ} (a v : ℕ)
        → In a held
        → Step p held (record p { mem = write p.mem a v }) held

  pub data Reach (p : Pool) : Pool → List ℕ → Type 0 where
    start : Reach p p []
    next :
        {q r : Pool} {held held' : List ℕ} → Reach p q held → Step q held r held' → Reach p r held'

  abbrev pub Inv : Pool → List ℕ → List ℕ → Type 0
  Inv p held ps = (p.alloc ≡ Alloc.list) × IsPooled p.mem (arena p t) held ps

  page-get_page : (p : Pool) → p.alloc ≡ Alloc.list → page p t ≡ get_page p t
  unfolding page
  page-get_page p e = ground arith

  -- The pool that a successful call leaves.
  abbrev taken : Pool → ℕ → Pool
  taken p x =
      set_arena p t
        (record (arena p t) { page_list = p.mem x; pages_used = u64 ((arena p t).pages_used + 1) })

  abbrev given : Arena → ℕ → Arena
  given a x = record a { page_list = x; pages_used = sub_size a.pages_used 1 }

  -- The two results of `knd_mempool_page` on a list pool.
  page_nil : (p : Pool) (held : List ℕ) → Inv p held [] → page p t ≡ (Err.nomem, 0, p)
  unfolding get_page
  page_nil p held (e, v) = page-get_page p e ∙ rw ((==_iff (arena p t).page_list 0).1 v.chain) refl

  page_cons :
      (p : Pool) (held : List ℕ) (x : ℕ) (ps : List ℕ)
      → Inv p held (x ∷ ps)
      → page p t ≡ (Err.ok, x, taken p x)
  unfolding get_page
  page_cons p held x ps (e, v) = page-get_page p e ∙ rw (v.chain.0, ne_zero x v.chain.1) refl

  Inv-take :
      (p : Pool) (held : List ℕ) (x : ℕ) (ps : List ℕ)
      → Inv p held (x ∷ ps)
      → Inv (taken p x) (x ∷ held) ps
  Inv-take p held x ps (e, v) =
      rw (arena-set_arena, mem-set_arena, alloc-set_arena) (e, IsPooled-take x ps v)

  Inv-give :
      (p : Pool) (held : List ℕ) (x : ℕ) (ps : List ℕ)
      → In x held
      → Inv p held ps
      → Inv (free p t x) (remove x held) (x ∷ ps)
  unfolding free
  Inv-give p held x ps i (e, v) =
      rw
        (
          arena-mem (set_arena p t (given (arena p t) x)) t (write p.mem x (arena p t).page_list),
          arena-set_arena,
          alloc-set_arena,
        )
        (e, IsPooled-give x ps i v)

  Inv-scribble :
      (p : Pool) (held : List ℕ) (x w : ℕ) (ps : List ℕ)
      → In x held
      → Inv p held ps
      → Inv (record p { mem = write p.mem x w }) held ps
  Inv-scribble p held x w ps i (e, v) = rw arena-mem (e, IsPooled-scribble x w ps i v)

  -- A successful call takes the first page of the list.
  Inv-page :
      (p : Pool) (held : List ℕ) (x : ℕ) (ps : List ℕ) {p' : Pool}
      → Inv p held ps
      → page p t ≡ (Err.ok, x, p')
      → (rest : List ℕ) × Inv p' (x ∷ held) rest
  Inv-page p held x [] v e = absurd (ground (arith, page_nil p held v))
  Inv-page p held x (y ∷ ps) v e =
      let same : (Err.ok, y, taken p y) ≡ (Err.ok, x, _) = sym (page_cons p held y ps v) ∙ e in
      (ps, subst (λ r. Inv r.2 (r.1 ∷ held) ps) same (Inv-take p held y ps v))

  -- Whatever the clients do, the list and the held pages together stay the pages of the arena.
  Reach-Inv :
      {p q : Pool} {held : List ℕ}
      → (ps : List ℕ) × Inv p [] ps
      → Reach p q held
      → (qs : List ℕ) × Inv q held qs
  Reach-Inv init start = init
  Reach-Inv init (next r s) = step s (Reach-Inv init r)
    where
      step :
          {q r : Pool} {held held' : List ℕ}
          → Step q held r held'
          → (qs : List ℕ) × Inv q held qs
          → (rs : List ℕ) × Inv r held' rs
      step (take x e) (qs, v) = Inv-page _ _ x qs v e
      step (give x i) (qs, v) = (x ∷ qs, Inv-give _ _ x qs i v)
      step (scribble x w i) (qs, v) = (qs, Inv-scribble _ _ x w qs i v)

  -- In a pool of type KND_ALLOC_LIST whose arena for one size of pages is a fresh list of them, whose
  -- clients then take pages of that size, write to the pages they hold and give them back, a page of
  -- that size that is handed out is not NULL and is none of those that are held.
  pub page-NotIn :
      {p q q' : Pool} {held : List ℕ} (x : ℕ)
      → (ps : List ℕ) × Inv p [] ps
      → Reach p q held
      → page q t ≡ (Err.ok, x, q')
      → (x ≢ 0) × NotIn x held
  page-NotIn x init r e =
      let (qs, v) = Reach-Inv init r in
      let (rest, w) = Inv-page _ _ x qs v e in
      let pooled = w.1 in
      ((λ z. pooled.distinct.0.0 (sym z)), NotIn-prefix x _ rest pooled.distinct.1.0)
