-- ===== src/Mempool/Pooled.antt =====
-- The pages of an arena with a list: those in the list and those that clients hold, and what a call
-- does to them.
use knowdy.Base.{
  ℕ, ◌+◌, ◌^◌, ◌<◌, ◌≡◌, ◌≢◌, refl, arith, List, ◌∷◌, ◌++◌, length, sym, ◌==◌, false, sub_size, u64,
}
use knowdy.Mempool.{Arena, write}
use knowdy.Mempool.Chain.{
  In, Distinct, Chain, remove, Chain-write, NotIn-middle, NotIn-to_middle, Distinct-middle,
  Distinct-to_middle, ne_of_NotIn, Distinct-remove, length-remove, NotIn-remove, NotIn-append,
}

write_self : (mem : ℕ → ℕ) (x v : ℕ) → write mem x v x ≡ v
write_self mem x v = ground arith

pub ne_zero : (x : ℕ) → x ≢ 0 → (x == 0) ≡ false
ne_zero x h = ground arith

-- An arena over a memory: `ps` are the pages in its list. They and the held ones are all the pages,
-- none twice, none NULL.
pub record IsPooled (mem : ℕ → ℕ) (a : Arena) (held ps : List ℕ) : Type 0 where
  pub chain : Chain mem a.page_list ps
  pub distinct : Distinct (0 ∷ (held ++ ps))
  pub counted : a.pages_used ≡ length held
  pub total : length held + length ps ≡ a.num_pages
  pub fits : a.num_pages < 2 ^ 64

module _ {mem : ℕ → ℕ} {a : Arena} {held : List ℕ} where
  pub IsPooled-take :
      (x : ℕ) (ps : List ℕ)
      → IsPooled mem a held (x ∷ ps)
      → IsPooled mem
          (record a { page_list = mem x; pages_used = u64 (a.pages_used + 1) })
          (x ∷ held)
          ps
  IsPooled-take x ps v = record {
    chain = v.chain.2;
    distinct = (NotIn-middle 0 x held ps v.distinct.0, Distinct-middle x held ps v.distinct.1);
    counted = omega (arith, v.counted, v.total, v.fits);
    total = omega (arith, v.total);
    fits = v.fits;
  }

  pub IsPooled-give :
      (x : ℕ) (ps : List ℕ)
      → In x held
      → IsPooled mem a held ps
      → IsPooled
          (write mem x a.page_list)
          (record a { page_list = x; pages_used = sub_size a.pages_used 1 })
          (remove x held)
          (x ∷ ps)
  IsPooled-give x ps i v =
      let (n, d) = Distinct-remove x held ps i v.distinct.1 in
      let nz : 0 ≢ x = ne_of_NotIn 0 x held ps i v.distinct.0 in
      record {
        chain = (
          refl,
          (λ z. nz (sym z)),
          rw (write_self mem x a.page_list) (
              Chain-write mem x a.page_list a.page_list ps (NotIn-append x (remove x held) ps n)
                v.chain),
        );
        distinct = (
          NotIn-to_middle 0 x (remove x held) ps (nz, NotIn-remove 0 x held ps v.distinct.0),
          Distinct-to_middle x (remove x held) ps (n, d),
        );
        counted = omega (arith, v.counted, v.total, v.fits, length-remove x held i);
        total = omega (arith, v.total, length-remove x held i);
        fits = v.fits;
      }

  pub IsPooled-scribble :
      (x w : ℕ) (ps : List ℕ)
      → In x held
      → IsPooled mem a held ps
      → IsPooled (write mem x w) a held ps
  IsPooled-scribble x w ps i v = record {
    chain =
        Chain-write mem x w a.page_list ps
          (NotIn-append x (remove x held) ps (Distinct-remove x held ps i v.distinct.1).0) v.chain;
    distinct = v.distinct;
    counted = v.counted;
    total = v.total;
    fits = v.fits;
  }
