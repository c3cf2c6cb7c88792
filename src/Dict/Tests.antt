-- ===== src/Dict/Tests.antt =====
-- Runs of the table, and the theorems about it at a table that meets their hypotheses.
use knowdy.Err.{Err}
use knowdy.Base.{◌≡◌, ◌≢◌, refl, arith, List, [], ◌∷◌, sub_size, bytes_eq}
use knowdy.Mempool.{Alloc, Arena, Pool, page, next_page, arena, set_arena}
use knowdy.Dict.{
  Dict, new, get, set, remove, remove_found, add_new, item_new, find, hash, hash_loop, mark_removed,
}
use knowdy.Dict.Chains.{gone}
use knowdy.Dict.Refine.{Op, get_op, set_op, remove_op, view, step}
use knowdy.Dict.Runs.{run, spec_run, run_refines}
use knowdy.Dict.Count.{remove_twice}

abbrev no_arena : Arena
no_arena = record {
  pages = 0;
  page_size = 0;
  num_pages = 0;
  pages_used = 0;
  page_list = 0;
  shared_page_list = 0;
  shared_pages_used = 0;
}

abbrev pool : Pool
pool = record {
  alloc = Alloc.incr;
  capacity = 128;
  pages_base = no_arena;
  pages_x4 = no_arena;
  pages_x2 = no_arena;
  pages_small = no_arena;
  pages_tiny = record no_arena { pages = 64; page_size = 64; num_pages = 2 };
  mem = λ a. 0;
}

abbrev table : Dict
table = new pool 4

-- Two keys of one chain.
abbrev ops : List Op
ops =
    set_op (1 ∷ 2 ∷ []) 7
    ∷ set_op (1 ∷ 2 ∷ []) 8
    ∷ set_op (0 ∷ []) 9
    ∷ get_op (1 ∷ 2 ∷ [])
    ∷ remove_op (1 ∷ 2 ∷ [])
    ∷ get_op (1 ∷ 2 ∷ [])
    ∷ get_op (0 ∷ [])
    ∷ remove_op (5 ∷ [])
    ∷ set_op (1 ∷ 2 ∷ []) 8
    ∷ []

run-ops :
    (run table ops).0
    ≡ (Err.ok, 0)
      ∷ (Err.conflict, 0)
      ∷ (Err.ok, 0)
      ∷ (Err.ok, 7)
      ∷ (Err.ok, 0)
      ∷ (Err.ok, 0)
      ∷ (Err.ok, 9)
      ∷ (Err.fail, 0)
      ∷ (Err.nomem, 0)
      ∷ []
unfolding new get set remove remove_found add_new item_new find hash hash_loop mark_removed bytes_eq
    step run page next_page arena set_arena
run-ops = refl

ok_nomem : Err.ok ≢ Err.nomem
ok_nomem e = ground (arith, e)

abbrev few : List Op
few = set_op (1 ∷ 2 ∷ []) 7 ∷ set_op (0 ∷ []) 9 ∷ remove_op (1 ∷ 2 ∷ []) ∷ get_op (0 ∷ []) ∷ []

run_refines_example : ((run table few).0, view (run table few).1) ≡ spec_run (view table) few
unfolding new get set remove remove_found add_new item_new find hash hash_loop mark_removed bytes_eq
    step run page next_page arena set_arena
run_refines_example =
    run_refines few table (λ i. tt) (ok_nomem, (ok_nomem, (ok_nomem, (ok_nomem, tt))))

abbrev held : Dict
held = (set table (0 ∷ []) 9).1

remove_twice_example :
    let (err1, self1) = remove held (0 ∷ []) in
    let (err2, self2) = remove self1 (0 ∷ []) in
    (err1 ≡ Err.ok)
    × (err2 ≡ Err.ok)
    × (view self1 (0 ∷ []) ≡ gone)
    × (view self2 ≡ view self1)
    × (self2.num_keys ≡ sub_size (sub_size held.num_keys 1) 1)
unfolding new set add_new item_new find hash hash_loop bytes_eq page next_page arena set_arena
remove_twice_example = remove_twice held (0 ∷ []) (ground arith)
