-- ===== src/Mempool/Tests.antt =====
-- Runs of the pool, and the theorems about it at pools that meet their hypotheses.
use knowdy.Err.{Err}
use knowdy.Base.{ℕ, ◌+◌, ◌*◌, ◌≤◌, ◌≡◌, ◌≢◌, refl, arith, List, [], ◌∷◌, if◌then◌else◌, ◌==◌}
use knowdy.Mempool.{Alloc, PageType, Arena, Pool, arena, set_arena, page, get_page, next_page, free}
use knowdy.Mempool.Chain.{NotIn, Distinct}
use knowdy.Mempool.Traffic
use knowdy.Mempool.Traffic.{page-NotIn}
use knowdy.Mempool.Incr.{IsPlaced, pages_run, pages_run-addresses, page-free_last}
use knowdy.Mempool.Shared
use knowdy.Mempool.Shared.{
  Shared, idle, loaded, ready, won, at, here, next, load, read_next, exchange, exchange_failed,
  count, handed-Distinct,
}
use knowdy.Mempool.Build.{
  Buffers, alloc_capacity, alloc_buffers, alloc_page_buf, build_lists, link_all, link,
  build_linked_list, build_loop,
}
use knowdy.Mempool.Build.Laws.{alloc_capacity-Inv, AllFit}
use knowdy.Mempool.Build.Linked.{AllApart, addresses_of}
use knowdy.Mempool.Returned.{Request, taking, giving, answers, each_once, answers_lem}
use knowdy.Mempool.Build.Links.{addresses}

abbrev no_arena : Arena
no_arena = record {
  pages = 0;
  page_size = 0;
  num_pages = 0;
  pages_used = 0;
  page_list = 0;
  shared_page_list = 0;
  shared_pages_used = 0;
}

-- Two pages of 64 bytes each, at 64 and 128.
abbrev two_pages : Arena
two_pages = record no_arena {
  pages = 64;
  page_size = 64;
  num_pages = 2;
  page_list = 64;
  shared_page_list = 64;
}

abbrev linked_mem : ℕ → ℕ
linked_mem a = if a == 64 then 128 else 0

abbrev pool_of : Alloc → Pool
pool_of al = record {
  alloc = al;
  capacity = 128;
  pages_base = no_arena;
  pages_x4 = no_arena;
  pages_x2 = no_arena;
  pages_small = no_arena;
  pages_tiny = two_pages;
  mem = linked_mem;
}

two_pages-Inv : (ps : List ℕ) × Traffic.Inv PageType.tiny (pool_of Alloc.list) [] ps
unfolding arena
two_pages-Inv = (
  64 ∷ 128 ∷ [],
  (
    refl,
    record {
      chain = omega arith;
      distinct = omega arith;
      counted = refl;
      total = refl;
      fits = omega arith;
    },
  ),
)

first_taken : Pool
first_taken = (page (pool_of Alloc.list) PageType.tiny).2

take_first : page (pool_of Alloc.list) PageType.tiny ≡ (Err.ok, 64, first_taken)
unfolding first_taken page get_page arena set_arena
take_first = refl

one_held : Traffic.Reach PageType.tiny (pool_of Alloc.list) first_taken (64 ∷ [])
one_held = Traffic.Reach.next Traffic.Reach.start (Traffic.Step.take 64 take_first)

take_second : page first_taken PageType.tiny ≡ (Err.ok, 128, (page first_taken PageType.tiny).2)
unfolding first_taken page get_page arena set_arena
take_second = refl

page-NotIn_example : (◌≢◌ {A = ℕ} 128 0) × NotIn 128 (64 ∷ [])
page-NotIn_example = page-NotIn PageType.tiny 128 two_pages-Inv one_held take_second

placed : IsPlaced PageType.tiny (pool_of Alloc.incr)
unfolding arena
placed = (refl, omega arith, omega arith)

used_none : (arena (pool_of Alloc.incr) PageType.tiny).pages_used + 2 ≤ 2
unfolding arena
used_none = omega arith

pages_run-addresses_example :
    let (xs, q) = pages_run PageType.tiny 2 (pool_of Alloc.incr) in
    let a = arena (pool_of Alloc.incr) PageType.tiny in
    (xs ≡ addresses 2 (a.pages + a.pages_used * a.page_size) a.page_size)
    × ((arena q PageType.tiny).pages_used ≡ a.pages_used + 2)
pages_run-addresses_example =
    pages_run-addresses PageType.tiny 2 (pool_of Alloc.incr) placed (unfold arena in omega arith)

two_in_order : (pages_run PageType.tiny 2 (pool_of Alloc.incr)).0 ≡ 64 ∷ 128 ∷ []
unfolding pages_run page next_page arena set_arena
two_in_order = refl

after_two : Pool
after_two = (pages_run PageType.tiny 2 (pool_of Alloc.incr)).1

after_one : Pool
after_one = (page (pool_of Alloc.incr) PageType.tiny).2

-- The second page is handed out; the first is given back; the second is handed out again.
second_taken : page after_one PageType.tiny ≡ (Err.ok, 128, after_two)
unfolding after_one after_two pages_run page next_page arena set_arena
second_taken = refl

after_one-IsPlaced : IsPlaced PageType.tiny after_one
unfolding after_one page next_page arena set_arena
after_one-IsPlaced = (refl, omega arith, omega arith)

after_one_room :
    (arena after_one PageType.tiny).pages_used ≤ (arena after_one PageType.tiny).num_pages
unfolding after_one page next_page arena set_arena
after_one_room = omega arith

page-free_last_example :
    (q : Pool) × (page (free after_two PageType.tiny 64) PageType.tiny ≡ (Err.ok, 128, q))
page-free_last_example =
    page-free_last PageType.tiny after_one after_two 128 64 after_one-IsPlaced after_one_room
      second_taken

abbrev requests : List Request
requests = taking ∷ giving 64 ∷ taking ∷ taking ∷ []

answers_lem_example :
    answers (pool_of Alloc.shared) PageType.tiny requests ≡ each_once (64 ∷ 128 ∷ []) requests
unfolding arena
answers_lem_example =
    answers_lem PageType.tiny (pool_of Alloc.shared) (64 ∷ 128 ∷ []) requests (refl, omega arith)
      (omega arith)

-- Two threads race for the first of two pages: thread 1 loses its exchange and takes the other page.
abbrev race0 : Shared
race0 = record { head = 64; pages_used = 0; mem = linked_mem; local = λ _. idle; handed = [] }

abbrev race1 : Shared
race1 = record race0 {
  head = 0;
  pages_used = 1;
  local =
      at
        (at
          (at
            (at
              (at
                (at
                  (at (at (at (at (λ _. idle) 0 (loaded 64)) 1 (loaded 64)) 0 (ready 64 128)) 1
                    (ready 64 128))
                  0 (won 64))
                1 idle)
              1 (loaded 128))
            1 (ready 128 0))
          1 (won 128))
        0 idle;
  handed = 128 ∷ 64 ∷ [];
}

race : Shared.Reach race0 race1
race =
    next
      (next
        (next
          (next
            (next
              (next
                (next
                  (next
                    (next (next here (load race0 0 refl (omega arith)))
                      (load _ 1 refl (omega arith)))
                    (read_next _ 0 64 refl))
                  (read_next _ 1 64 refl))
                (exchange _ 0 64 128 refl refl))
              (exchange_failed _ 1 64 128 refl))
            (load _ 1 refl (omega arith)))
          (read_next _ 1 128 refl))
        (exchange _ 1 128 0 refl refl))
      (count _ 0 64 refl)

handed-Distinct_example : Distinct (0 ∷ 128 ∷ 64 ∷ [])
handed-Distinct_example =
    handed-Distinct (64 ∷ 128 ∷ []) (omega arith) (omega arith) refl (λ _. refl) race

abbrev one_page : Arena
one_page = record no_arena { page_size = 64; num_pages = 1 }

abbrev new_pool : Pool
new_pool = record {
  alloc = Alloc.list;
  capacity = 0;
  pages_base = one_page;
  pages_x4 = one_page;
  pages_x2 = one_page;
  pages_small = one_page;
  pages_tiny = record one_page { num_pages = 2 };
  mem = λ _. 0;
}

abbrev blocks : Buffers
blocks = record { buf_base = 1000; buf_x4 = 2000; buf_x2 = 3000; buf_small = 4000; buf_tiny = 5000 }

allocated : Pool
allocated = (alloc_capacity new_pool blocks).1

allocation : alloc_capacity new_pool blocks ≡ (Err.ok, allocated)
unfolding allocated alloc_capacity alloc_buffers alloc_page_buf build_lists link_all link
    build_linked_list build_loop arena set_arena
allocation = refl

allocated_apart : AllApart allocated
unfolding allocated alloc_capacity alloc_buffers alloc_page_buf build_lists link_all link
    build_linked_list build_loop arena set_arena
allocated_apart = omega arith

allocated_fits : AllFit allocated
unfolding allocated alloc_capacity alloc_buffers alloc_page_buf build_lists link_all link
    build_linked_list build_loop arena set_arena
allocated_fits = omega arith

alloc_capacity-Inv_example :
    Traffic.Inv PageType.tiny allocated [] (addresses_of (arena allocated PageType.tiny))
alloc_capacity-Inv_example =
    alloc_capacity-Inv new_pool blocks PageType.tiny refl (omega arith) allocation allocated_apart
      allocated_fits
