-- ===== src/Mempool.antt =====
-- The memory pool of src/knd_mempool.c: five arenas of equal pages, handed out by counting
-- (KND_ALLOC_INCR), from a linked list (KND_ALLOC_LIST) or from lists that threads share
-- (KND_ALLOC_SHARED).
pub mod Arenas
pub mod Chain
pub mod Build
pub mod Pooled
pub mod Traffic
pub mod Incr
pub mod Shared
pub mod Returned
mod Tests
use knowdy.Err.{Err}
use knowdy.Base.{
  ℕ, zero, suc, ◌+◌, ◌*◌, ◌%◌, ◌^◌, ◌≡◌, Bool, true, false, ◌&&◌, ◌||◌, Option, none, some, ltb,
  leb, ◌==◌, if◌then◌else◌, u64, sub_size,
}

-- `knd_mempool_t`
pub data Alloc : Type 0 where
  incr list shared : Alloc

-- `knd_mempage_t`
pub data PageType : Type 0 where
  large base_x4 base_x2 base small_x4 small_x2 small tiny : PageType

-- The fields that `struct kndMemPool` has once for each size of page. A pointer is a number, 0 is NULL.
pub record Arena : Type 0 where
  pub pages : ℕ
  pub page_size : ℕ
  pub num_pages : ℕ
  pub pages_used : ℕ
  pub page_list : ℕ
  pub shared_page_list : ℕ
  pub shared_pages_used : ℕ

-- `struct kndMemPool`, with the memory that it works on: `mem a` is the `next` of the
-- `kndMemPageHeader` at the address `a`.
pub record Pool : Type 0 where
  pub alloc : Alloc
  pub capacity : ℕ
  pub pages_base : Arena
  pub pages_x4 : Arena
  pub pages_x2 : Arena
  pub pages_small : Arena
  pub pages_tiny : Arena
  pub mem : ℕ → ℕ

-- The `switch (page_type)` of each operation; its default is the base arena.
unfoldable pub arena : Pool → PageType → Arena
arena self small_x4 = self.pages_x4
arena self small_x2 = self.pages_x2
arena self small = self.pages_small
arena self tiny = self.pages_tiny
arena self _ = self.pages_base

unfoldable pub set_arena : Pool → PageType → Arena → Pool
set_arena self small_x4 a = record self { pages_x4 = a }
set_arena self small_x2 a = record self { pages_x2 = a }
set_arena self small a = record self { pages_small = a }
set_arena self tiny a = record self { pages_tiny = a }
set_arena self _ a = record self { pages_base = a }

abbrev pub write : (ℕ → ℕ) → ℕ → ℕ → ℕ → ℕ
write mem a v q = if a == q then v else mem q

-- `get_shared_page` where no other thread interferes: the exchange succeeds. (Its steps among other
-- threads are in `Mempool.Shared`.)
unfoldable pub get_shared_page : Pool → PageType → Err × ℕ × Pool
get_shared_page self page_type =
    let a = arena self page_type in
    if a.shared_page_list == 0 then (Err.nomem, 0, self) else (
      Err.ok,
      a.shared_page_list,
      set_arena self page_type (record a {
        shared_page_list = self.mem a.shared_page_list;
        shared_pages_used = u64 (a.shared_pages_used + 1);
      }),
    )

unfoldable pub get_page : Pool → PageType → Err × ℕ × Pool
get_page self page_type =
    let a = arena self page_type in
    if a.page_list == 0 then (Err.nomem, 0, self) else (
      Err.ok,
      a.page_list,
      set_arena self page_type
          (record a { page_list = self.mem a.page_list; pages_used = u64 (a.pages_used + 1) }),
    )

-- The part of `knd_mempool_page` behind its switch on the pool's type.
unfoldable pub next_page : Pool → PageType → Err × ℕ × Pool
next_page self page_type =
    let a = arena self page_type in
    if ltb a.num_pages (u64 (a.pages_used + 1)) then (Err.nomem, 0, self) else (
      Err.ok,
      u64 (a.pages + u64 (a.page_size * a.pages_used)),
      set_arena self page_type (record a { pages_used = u64 (a.pages_used + 1) }),
    )

-- `knd_mempool_page`: the code, the pointer that goes to `*result` where it is `knd_OK`, and the pool.
unfoldable pub page : Pool → PageType → Err × ℕ × Pool
page self page_type = elim self.alloc [
  | shared ↦ get_shared_page self page_type
  | list ↦ get_page self page_type
  | incr ↦ next_page self page_type
]

-- `knd_mempool_free`
unfoldable pub free : Pool → PageType → ℕ → Pool
free self page_type freed =
    let a = arena self page_type in
    record (set_arena self page_type
      (record a { page_list = freed; pages_used = sub_size a.pages_used 1 })) {
        mem = write self.mem freed a.page_list;
      }

abbrev unused : Arena → Arena
unused a = record a { pages_used = 0 }

-- `knd_mempool_reset`
unfoldable pub reset : Pool → Pool
reset self = record self {
  pages_base = unused self.pages_base;
  pages_x4 = unused self.pages_x4;
  pages_x2 = unused self.pages_x2;
  pages_small = unused self.pages_small;
  pages_tiny = unused self.pages_tiny;
}
