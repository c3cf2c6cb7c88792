-- ===== src/Mempool/Returned.antt =====
-- Pages given back to a shared pool (KND_ALLOC_SHARED): `knd_mempool_free` puts them on the list that
-- `get_shared_page` does not read.
use knowdy.Err.{Err}
use knowdy.Base.{ℕ, ◌+◌, ◌≡◌, refl, arith, List, [], ◌∷◌, ◌∙◌, ap, u64, sub_size, ==_iff}
use knowdy.Mempool.{Alloc, PageType, Pool, arena, set_arena, get_shared_page, page, free, write}
use knowdy.Mempool.Arenas.{arena-mem, arena-set_arena, mem-set_arena, alloc-set_arena}
use knowdy.Mempool.Chain.{Chain, Chain-write, NotIn}
use knowdy.Mempool.Pooled.{ne_zero}

-- What the clients of a pool ask for: a page, or to take one back.
pub data Request : Type 0 where
  taking : Request
  giving : ℕ → Request

-- The codes and pages that the calls for a page of type `t` return.
unfoldable pub answers : Pool → PageType → List Request → List (Err × ℕ)
answers self t [] = []
answers self t (taking ∷ rs) = ((page self t).0, (page self t).1) ∷ answers (page self t).2 t rs
answers self t (giving a ∷ rs) = answers (free self t a) t rs

-- A list of pages handed out from its head, each once, and nothing after its end.
unfoldable pub each_once : List ℕ → List Request → List (Err × ℕ)
each_once xs [] = []
each_once [] (taking ∷ rs) = (Err.nomem, 0) ∷ each_once [] rs
each_once (x ∷ xs) (taking ∷ rs) = (Err.ok, x) ∷ each_once xs rs
each_once xs (giving a ∷ rs) = each_once xs rs

-- No page is given back that is still on the list.
abbrev pub AreOff : List ℕ → List Request → Type 0
AreOff xs [] = Unit
AreOff [] (taking ∷ rs) = AreOff [] rs
AreOff (x ∷ xs) (taking ∷ rs) = AreOff xs rs
AreOff xs (giving a ∷ rs) = NotIn a xs × AreOff xs rs

abbrev pub Shares : Pool → PageType → List ℕ → Type 0
Shares self t xs = (self.alloc ≡ Alloc.shared) × Chain self.mem (arena self t).shared_page_list xs

module _ (t : PageType) where
  page-get_shared_page : (p : Pool) → p.alloc ≡ Alloc.shared → page p t ≡ get_shared_page p t
  unfolding page
  page-get_shared_page p e = ground arith

  abbrev popped : Pool → ℕ → Pool
  popped p x = set_arena p t (record (arena p t) {
    shared_page_list = p.mem x;
    shared_pages_used = u64 ((arena p t).shared_pages_used + 1);
  })

  page_nil : (p : Pool) → Shares p t [] → page p t ≡ (Err.nomem, 0, p)
  unfolding get_shared_page
  page_nil p (e, c) =
      page-get_shared_page p e ∙ rw ((==_iff (arena p t).shared_page_list 0).1 c) refl

  page_cons :
      (p : Pool) (x : ℕ) (xs : List ℕ) → Shares p t (x ∷ xs) → page p t ≡ (Err.ok, x, popped p x)
  unfolding get_shared_page
  page_cons p x xs (e, c) = page-get_shared_page p e ∙ rw (c.0, ne_zero x c.1) refl

  popped-Shares : (p : Pool) (x : ℕ) (xs : List ℕ) → Shares p t (x ∷ xs) → Shares (popped p x) t xs
  popped-Shares p x xs (e, c) = rw (arena-set_arena, mem-set_arena, alloc-set_arena) (e, c.2)

  free-Shares :
      (p : Pool) (a : ℕ) (xs : List ℕ) → NotIn a xs → Shares p t xs → Shares (free p t a) t xs
  unfolding free
  free-Shares p a xs n (e, c) =
      rw
        (
          arena-mem
              (set_arena p t (record (arena p t) {
                page_list = a;
                pages_used = sub_size (arena p t).pages_used 1;
              }))
              t (write p.mem a (arena p t).page_list),
          arena-set_arena,
          alloc-set_arena,
        )
        (e, Chain-write p.mem a (arena p t).page_list (arena p t).shared_page_list xs n c)

  -- A pool of type KND_ALLOC_SHARED hands out each page of its shared list once, in the order of the
  -- list, and then refuses, whatever pages that are not on the list any more are given back before,
  -- between and after: no page that is given back is ever handed out again, if the list has no page
  -- twice.
  pub answers_lem :
      (self : Pool) (xs : List ℕ) (rs : List Request)
      → Shares self t xs
      → AreOff xs rs
      → answers self t rs ≡ each_once xs rs
  unfolding answers each_once
  answers_lem self xs [] v off = refl
  answers_lem self [] (taking ∷ rs) v off =
      rw (page_nil self v) (ap (λ as'. (Err.nomem, 0) ∷ as') (answers_lem self [] rs v off))
  answers_lem self (x ∷ xs) (taking ∷ rs) v off = rw (page_cons self x xs v) (
      ap (λ as'. (Err.ok, x) ∷ as')
        (answers_lem (popped self x) xs rs (popped-Shares self x xs v) off))
  answers_lem self xs (giving a ∷ rs) v off =
      answers_lem (free self t a) xs rs (free-Shares self a xs off.0 v) off.1
