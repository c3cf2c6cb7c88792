-- ===== src/Mempool/Build/Linked.antt =====
-- The five lists built one after the other: none disturbs another.
use knowdy.Base.{ℕ, ◌+◌, ◌*◌, ◌<◌, ◌≤◌, ◌≡◌, refl, List, ◌⊎◌}
use knowdy.Mempool.{Arena, Pool, arena, set_arena}
use knowdy.Mempool.Chain.{Chain}
use knowdy.Mempool.Build.{build_linked_list, link, link_all}
use knowdy.Mempool.Build.Links.{addresses, build_linked_list-Chain, Chain-Agree}

abbrev pub addresses_of : Arena → List ℕ
addresses_of a = addresses a.num_pages a.pages a.page_size

-- The blocks of two arenas do not overlap.
abbrev pub Apart : Arena → Arena → Type 0
Apart a b =
    (a.pages + a.num_pages * a.page_size ≤ b.pages)
    ⊎ (b.pages + b.num_pages * b.page_size ≤ a.pages)

-- What `calloc` documents of its blocks: they do not overlap.
pub record AllApart (p : Pool) : Type 0 where
  pub base_x4 : Apart p.pages_base p.pages_x4
  pub base_x2 : Apart p.pages_base p.pages_x2
  pub base_small : Apart p.pages_base p.pages_small
  pub base_tiny : Apart p.pages_base p.pages_tiny
  pub x4_x2 : Apart p.pages_x4 p.pages_x2
  pub x4_small : Apart p.pages_x4 p.pages_small
  pub x4_tiny : Apart p.pages_x4 p.pages_tiny
  pub x2_small : Apart p.pages_x2 p.pages_small
  pub x2_tiny : Apart p.pages_x2 p.pages_tiny
  pub small_tiny : Apart p.pages_small p.pages_tiny

-- Of a property of arenas: all five have it.
abbrev pub Five : (Arena → Type 0) → Pool → Type 0
Five P p = P p.pages_base × P p.pages_x4 × P p.pages_x2 × P p.pages_small × P p.pages_tiny

abbrev pub IsReady : Arena → Type 0
IsReady a = (0 < a.pages) × (0 < a.page_size)

-- Linking the pages of one arena keeps the list of another.
keep :
    (mem : ℕ → ℕ) (a b : Arena) (head : ℕ)
    → IsReady a
    → IsReady b
    → Apart b a
    → Chain mem head (addresses_of b)
    → Chain (build_linked_list mem a).1 head (addresses_of b)
keep mem a b head ra rb apart c =
    Chain-Agree a.pages (a.pages + a.num_pages * a.page_size) mem (build_linked_list mem a).1
      b.num_pages b.pages b.page_size head (build_linked_list-Chain mem a ra.1 ra.0).1 apart rb.1 c

module _ (s : Pool) where
  abbrev pub m1 : ℕ → ℕ
  m1 = (build_linked_list s.mem s.pages_base).1

  abbrev pub m2 : ℕ → ℕ
  m2 = (build_linked_list m1 s.pages_x4).1

  abbrev pub m3 : ℕ → ℕ
  m3 = (build_linked_list m2 s.pages_x2).1

  abbrev pub m4 : ℕ → ℕ
  m4 = (build_linked_list m3 s.pages_small).1

  -- The pool with all lists built, field by field.
  abbrev pub linked : Pool
  linked = record s {
    pages_base = record s.pages_base { page_list = (build_linked_list s.mem s.pages_base).0 };
    pages_x4 = record s.pages_x4 { page_list = (build_linked_list m1 s.pages_x4).0 };
    pages_x2 = record s.pages_x2 { page_list = (build_linked_list m2 s.pages_x2).0 };
    pages_small = record s.pages_small { page_list = (build_linked_list m3 s.pages_small).0 };
    pages_tiny = record s.pages_tiny { page_list = (build_linked_list m4 s.pages_tiny).0 };
    mem = (build_linked_list m4 s.pages_tiny).1;
  }

  pub link_all-linked : link_all s ≡ linked
  unfolding link_all link arena set_arena
  link_all-linked = refl

  first :
      (mem : ℕ → ℕ) (a : Arena)
      → IsReady a
      → Chain (build_linked_list mem a).1 (build_linked_list mem a).0 (addresses_of a)
  first mem a r = (build_linked_list-Chain mem a r.1 r.0).0

  pub linked-Chain :
      Five IsReady s → AllApart s → Five (λ a. Chain linked.mem a.page_list (addresses_of a)) linked
  linked-Chain (r0, r1, r2, r3, r4) apart = (
    keep m4 s.pages_tiny s.pages_base _ r4 r0 apart.base_tiny (
        keep m3 s.pages_small s.pages_base _ r3 r0 apart.base_small (
          keep m2 s.pages_x2 s.pages_base _ r2 r0 apart.base_x2
            (keep m1 s.pages_x4 s.pages_base _ r1 r0 apart.base_x4 (first s.mem s.pages_base r0)))),
    keep m4 s.pages_tiny s.pages_x4 _ r4 r1 apart.x4_tiny (
        keep m3 s.pages_small s.pages_x4 _ r3 r1 apart.x4_small
          (keep m2 s.pages_x2 s.pages_x4 _ r2 r1 apart.x4_x2 (first m1 s.pages_x4 r1))),
    keep m4 s.pages_tiny s.pages_x2 _ r4 r2 apart.x2_tiny
        (keep m3 s.pages_small s.pages_x2 _ r3 r2 apart.x2_small (first m2 s.pages_x2 r2)),
    keep m4 s.pages_tiny s.pages_small _ r4 r3 apart.small_tiny (first m3 s.pages_small r3),
    first m4 s.pages_tiny r4,
  )
