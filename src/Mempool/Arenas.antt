-- ===== src/Mempool/Arenas.antt =====
-- Selecting and replacing an arena of a pool.
use knowdy.Base.{◌≡◌, refl, ◌∙◌, sub_size, ℕ}
use knowdy.Mempool.{PageType, small_x4, Arena, Pool, arena, set_arena, free, write}

-- The replaced arena is the selected one; type, capacity and memory stay.
pub arena-set_arena : (self : Pool) (t : PageType) (a : Arena) → arena (set_arena self t a) t ≡ a
unfolding arena set_arena
arena-set_arena self small_x4 a = refl
arena-set_arena self _ a = refl

pub mem-set_arena : (self : Pool) (t : PageType) (a : Arena) → (set_arena self t a).mem ≡ self.mem
unfolding set_arena
mem-set_arena self small_x4 a = refl
mem-set_arena self _ a = refl

pub alloc-set_arena :
    (self : Pool) (t : PageType) (a : Arena) → (set_arena self t a).alloc ≡ self.alloc
unfolding set_arena
alloc-set_arena self small_x4 a = refl
alloc-set_arena self _ a = refl

pub arena-mem :
    (self : Pool) (t : PageType) (m : ℕ → ℕ) → arena (record self { mem = m }) t ≡ arena self t
unfolding arena
arena-mem self small_x4 m = refl
arena-mem self _ m = refl

-- What giving back a page changes of its arena, and that the type of the pool stays.
pub arena-free :
    (self : Pool) (t : PageType) (freed : ℕ)
    → arena (free self t freed) t ≡ record (arena self t) {
      page_list = freed;
      pages_used = sub_size (arena self t).pages_used 1;
    }
unfolding free
arena-free self t freed =
    arena-mem (set_arena self t _) t (write self.mem freed (arena self t).page_list)
    ∙ arena-set_arena self t _

pub alloc-free : (self : Pool) (t : PageType) (freed : ℕ) → (free self t freed).alloc ≡ self.alloc
unfolding free
alloc-free self t freed = alloc-set_arena self t _
