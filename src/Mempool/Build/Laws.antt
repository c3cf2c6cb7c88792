-- ===== src/Mempool/Build/Laws.antt =====
-- What `alloc_capacity` leaves: every arena has all its pages in its list.
use knowdy.Err.{Err}
use knowdy.Base.{
  ℕ, ◌+◌, ◌*◌, ◌^◌, ◌<◌, ◌≡◌, ◌≢◌, refl, arith, [], ◌∙◌, sym, subst, ap, if◌then◌else◌, ◌==◌, u64,
}
use knowdy.Mempool.{
  Alloc, PageType, Arena, Pool, arena, set_arena, base, small_x4, small_x2, small, tiny,
}
use knowdy.Mempool.Chain.{Chain}
use knowdy.Mempool.Pooled.{IsPooled}
use knowdy.Mempool.Traffic.{Inv}
use knowdy.Mempool.Build.{
  alloc_page_buf, ret_err, Buffers, alloc_buffers, alloc_capacity, memset_zero, build_lists,
}
use knowdy.Mempool.Build.Linked.{
  addresses_of, AllApart, Five, IsReady, linked, link_all-linked, linked-Chain,
}
use knowdy.Mempool.Build.Links.{length-addresses, addresses-Distinct}

-- The pool after one successful `alloc_page_buf`.
abbrev filled : Pool → PageType → ℕ → ℕ → ℕ → Pool
filled self t n size calloced =
    record (set_arena self t
      (record (arena self t) { pages = calloced; page_size = size; num_pages = n })) {
        capacity = u64 (self.capacity + u64 (n * size));
        mem = memset_zero self.mem calloced (n * size);
      }

alloc_page_buf-ok :
    (self : Pool) (t : PageType) (dn ds calloced : ℕ) {s : Pool}
    → alloc_page_buf self t dn ds calloced ≡ (Err.ok, s)
    → (n : ℕ) × (size : ℕ) × (filled self t n size calloced ≡ s) × (8 < size) × (calloced ≢ 0)
unfolding alloc_page_buf
alloc_page_buf-ok self t dn ds calloced e = (
  (if (arena self t).num_pages == 0 then dn else (arena self t).num_pages),
  (if (arena self t).page_size == 0 then ds else (arena self t).page_size),
  ground arith,
  ground arith,
  ground arith,
)

abbrev pub AllUnused : Pool → Type 0
AllUnused = Five (λ a. a.pages_used ≡ 0)

-- If the calls succeed, `P` holds of the pool.
abbrev Ok : (Pool → Type 0) → Err × Pool → Type 0
Ok P r = (s : Pool) → r ≡ (Err.ok, s) → P s

Ok-ret_err :
    (Q P : Pool → Type 0) (r : Err × Pool) (f : Pool → Err × Pool)
    → Ok Q r
    → ((s : Pool) → Q s → Ok P (f s))
    → Ok P (ret_err r f)
Ok-ret_err Q P (Err.ok, self) f q p s e = p self (q self refl) s e
Ok-ret_err Q P (err, self) f q p s e = absurd (ground arith)

Ok-alloc_page_buf :
    (P : Pool → Type 0) (self : Pool) (t : PageType) (dn ds calloced : ℕ)
    → ((n size : ℕ) → 8 < size → calloced ≢ 0 → P (filled self t n size calloced))
    → Ok P (alloc_page_buf self t dn ds calloced)
Ok-alloc_page_buf P self t dn ds calloced h s e =
    let (n, size, same, room, there) = alloc_page_buf-ok self t dn ds calloced e in
    subst P same (h n size room there)

ready : {n size : ℕ} → 8 < size → n ≢ 0 → (0 < n) × (0 < size)
ready p q = omega arith

-- The buffers are there, the pages have room for their headers, and nothing is in use.
alloc_buffers-Ok :
    (self : Pool) (b : Buffers)
    → AllUnused self
    → Ok (λ s. Five IsReady s × AllUnused s × (s.alloc ≡ self.alloc)) (alloc_buffers self b)
unfolding alloc_buffers arena set_arena
alloc_buffers-Ok self b u =
    Ok-ret_err (λ s. IsReady s.pages_base × AllUnused s × (s.alloc ≡ self.alloc)) _ _ _
      (Ok-alloc_page_buf _ self base 10000 1024 b.buf_base λ n size p q. (ready p q, u, refl))
      λ s1 (r0, u1, e1).
        Ok-ret_err
          (λ s. IsReady s.pages_base × IsReady s.pages_x4 × AllUnused s × (s.alloc ≡ self.alloc)) _
          _ _
          (Ok-alloc_page_buf _ s1 small_x4 10000 512 b.buf_x4 λ n size p q. (r0, ready p q, u1, e1))
          λ s2 (r0, r1, u2, e2).
            Ok-ret_err
              (λ s.
                IsReady s.pages_base
                × IsReady s.pages_x4
                × IsReady s.pages_x2
                × AllUnused s
                × (s.alloc ≡ self.alloc))
              _ _ _
              (Ok-alloc_page_buf _ s2 small_x2 10000 256 b.buf_x2
                λ n size p q. (r0, r1, ready p q, u2, e2))
              λ s3 (r0, r1, r2, u3, e3).
                Ok-ret_err
                  (λ s.
                    IsReady s.pages_base
                    × IsReady s.pages_x4
                    × IsReady s.pages_x2
                    × IsReady s.pages_small
                    × AllUnused s
                    × (s.alloc ≡ self.alloc))
                  _ _ _
                  (Ok-alloc_page_buf _ s3 small 10000 128 b.buf_small
                    λ n size p q. (r0, r1, r2, ready p q, u3, e3))
                  λ s4 (r0, r1, r2, r3, u4, e4).
                    Ok-alloc_page_buf _ s4 tiny 10000 64 b.buf_tiny
                      λ n size p q. ((r0, r1, r2, r3, ready p q), u4, e4)

abbrev pub AllFit : Pool → Type 0
AllFit = Five (λ a. a.num_pages < 2 ^ 64)

-- An arena with its list built, and nothing in use, is pooled.
pooled :
    (mem : ℕ → ℕ) (a : Arena)
    → Chain mem a.page_list (addresses_of a)
    → IsReady a
    → a.pages_used ≡ 0
    → a.num_pages < 2 ^ 64
    → IsPooled mem a [] (addresses_of a)
pooled mem a c r u f = record {
  chain = c;
  distinct = addresses-Distinct a.num_pages a.pages a.page_size r.1 r.0;
  counted = u;
  total = omega (arith, length-addresses a.num_pages a.pages a.page_size);
  fits = f;
}

linked-Inv :
    (s : Pool) (t : PageType)
    → s.alloc ≡ Alloc.list
    → Five IsReady s
    → AllUnused s
    → AllApart s
    → AllFit s
    → Inv t (linked s) [] (addresses_of (arena (linked s) t))
unfolding arena
linked-Inv s t e (r0, r1, r2, r3, r4) (u0, u1, u2, u3, u4) apart (f0, f1, f2, f3, f4) =
    (e, of_type t)
  where
    m5 : ℕ → ℕ
    m5 = (linked s).mem

    chains : Five (λ a. Chain m5 a.page_list (addresses_of a)) (linked s)
    chains = linked-Chain s (r0, r1, r2, r3, r4) apart

    of_type :
        (v : PageType) → IsPooled m5 (arena (linked s) v) [] (addresses_of (arena (linked s) v))
    of_type PageType.small_x4 = pooled m5 _ chains.1 r1 u1 f1
    of_type PageType.small_x2 = pooled m5 _ chains.2 r2 u2 f2
    of_type PageType.small = pooled m5 _ chains.3 r3 u3 f3
    of_type PageType.tiny = pooled m5 _ chains.4 r4 u4 f4
    of_type PageType.large = pooled m5 _ chains.0 r0 u0 f0
    of_type PageType.base_x4 = pooled m5 _ chains.0 r0 u0 f0
    of_type PageType.base_x2 = pooled m5 _ chains.0 r0 u0 f0
    of_type PageType.base = pooled m5 _ chains.0 r0 u0 f0

-- The blocks of the arenas are those that were there before their lists were built.
unlinked : (s : Pool) → AllApart (linked s) → AllApart s
unlinked s h = record {
  base_x4 = h.base_x4;
  base_x2 = h.base_x2;
  base_small = h.base_small;
  base_tiny = h.base_tiny;
  x4_x2 = h.x4_x2;
  x4_small = h.x4_small;
  x4_tiny = h.x4_tiny;
  x2_small = h.x2_small;
  x2_tiny = h.x2_tiny;
  small_tiny = h.small_tiny;
}

-- The last step of `alloc_capacity`.
abbrev finish : Pool → Err × Pool
finish s = (Err.ok, build_lists s.alloc s)

finish_list : (s : Pool) → s.alloc ≡ Alloc.list → finish s ≡ (Err.ok, linked s)
unfolding build_lists
finish_list s e =
    ap (λ (al : Alloc). (Err.ok, build_lists al s)) e
    ∙ ap (λ (p : Pool). (Err.ok, p)) (link_all-linked s)

-- `alloc_capacity` on a new list pool: when it succeeds, every arena has all its pages in its list,
-- in the order of their addresses, and none in use.
pub alloc_capacity-Inv :
    (self : Pool) (b : Buffers) {s : Pool} (t : PageType)
    → self.alloc ≡ Alloc.list
    → AllUnused self
    → alloc_capacity self b ≡ (Err.ok, s)
    → AllApart s
    → AllFit s
    → Inv t s [] (addresses_of (arena s t))
unfolding alloc_capacity
alloc_capacity-Inv self b {s} t e u done apart fits =
    Ok-ret_err (λ s'. Five IsReady s' × AllUnused s' × (s'.alloc ≡ self.alloc)) Goal
      (alloc_buffers self b) finish (alloc_buffers-Ok self b u) after s done apart fits
  where
    Goal : Pool → Type 0
    Goal r = AllApart r → AllFit r → Inv t r [] (addresses_of (arena r t))

    after :
        (s' : Pool) → Five IsReady s' × AllUnused s' × (s'.alloc ≡ self.alloc) → Ok Goal (finish s')
    after s' (r, v, same) q f =
        subst (λ p. Goal p.1) (sym (finish_list s' (same ∙ e)) ∙ f)
          (λ a k. linked-Inv s' t (same ∙ e) r v (unlinked s' a) k)
