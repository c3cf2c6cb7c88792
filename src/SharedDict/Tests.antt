-- ===== src/SharedDict/Tests.antt =====
-- Runs of a shared table, and the theorem about it at a table that meets its hypotheses.
use knowdy.Err.{Err}
use knowdy.Base.{◌≡◌, refl, [], ◌∷◌, Option, none, some, true, false, bytes_eq}
use knowdy.Mempool.{Alloc, Arena, Pool, page, next_page, arena, set_arena}
use knowdy.SharedDict.{
  Phase, Item, SharedDict, new, set, find, hash, hash_loop, is_taken, new_item, alloc_item,
  push_loop,
}

abbrev no_arena : Arena
no_arena = record {
  pages = 0;
  page_size = 0;
  num_pages = 0;
  pages_used = 0;
  page_list = 0;
  shared_page_list = 0;
  shared_pages_used = 0;
}

abbrev pool : Pool
pool = record {
  alloc = Alloc.incr;
  capacity = 128;
  pages_base = no_arena;
  pages_x4 = no_arena;
  pages_x2 = no_arena;
  pages_small = no_arena;
  pages_tiny = record no_arena { pages = 64; page_size = 64; num_pages = 2 };
  mem = λ a. 0;
}

abbrev table : SharedDict
table = new 4

-- What another thread adds between the load and the exchange.
abbrev other : Item
other = record { phase = Phase.valid; key = 5 ∷ []; content = 9; states = none }

abbrev code_of : Option (Err × SharedDict × Pool) → Option Err
code_of none = none
code_of (some r) = some r.0

-- The first exchange fails, since the other thread was faster; its key is another one.
set_retried :
    code_of (set table (1 ∷ []) 7 pool 0 false ((false, []) ∷ (true, other ∷ []) ∷ []))
    ≡ some Err.ok
unfolding new set find hash hash_loop is_taken new_item alloc_item push_loop bytes_eq page next_page
    arena set_arena
set_retried = refl

-- The other thread has added the same key.
set_beaten :
    code_of (set table (5 ∷ []) 7 pool 0 false ((false, []) ∷ (true, other ∷ []) ∷ []))
    ≡ some Err.conflict
unfolding new set find hash hash_loop is_taken new_item alloc_item push_loop bytes_eq page next_page
    arena set_arena
set_beaten = refl
