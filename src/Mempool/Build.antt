-- ===== src/Mempool/Build.antt =====
-- Allocating the arenas and linking their pages (`alloc_capacity`, `reset_capacity`).
pub mod Links
pub mod Linked
pub mod Laws
use knowdy.Err.{Err}
use knowdy.Base.{
  ℕ, zero, suc, ◌+◌, ◌*◌, ◌%◌, ◌^◌, Bool, true, false, ◌&&◌, Option, none, some, ltb, leb, ◌==◌,
  if◌then◌else◌, u64,
}
use knowdy.Mempool.{Alloc, PageType, Arena, Pool, arena, set_arena, write}

-- `*page_list = v`, where `page_list` points to the head of the list (`none`) or to the `next` of a page.
abbrev pub store : Option ℕ → ℕ → ℕ × (ℕ → ℕ) → ℕ × (ℕ → ℕ)
store none v (head, mem) = (v, mem)
store (some p) v (head, mem) = (head, write mem p v)

-- The loop of `build_linked_list`, with the rounds left.
unfoldable pub build_loop : ℕ → ℕ → ℕ → Option ℕ → ℕ × (ℕ → ℕ) → ℕ × (ℕ → ℕ)
build_loop page_size zero pages page_list s = store page_list 0 s
build_loop page_size (suc left) pages page_list s =
    build_loop page_size left (pages + page_size) (some pages) (store page_list pages s)

-- `build_linked_list` on the list of an arena.
unfoldable pub build_linked_list : (ℕ → ℕ) → Arena → ℕ × (ℕ → ℕ)
build_linked_list mem a = build_loop a.page_size a.num_pages a.pages none (a.page_list, mem)

-- The heads of the words from `at` on, `size` bytes, set to zero.
abbrev pub memset_zero : (ℕ → ℕ) → ℕ → ℕ → ℕ → ℕ
memset_zero mem at size q = if leb at q && ltb q (at + size) then 0 else mem q

-- `sizeof(struct kndMemPageHeader)`
abbrev pub header_size : ℕ
header_size = 8

-- `alloc_page_buf`, with the answer of `calloc` (0 is NULL).
unfoldable pub alloc_page_buf : Pool → PageType → ℕ → ℕ → ℕ → Err × Pool
alloc_page_buf self t default_num_pages default_page_size calloced =
    let a = arena self t in
    let num_pages = if a.num_pages == 0 then default_num_pages else a.num_pages in
    let page_size = if a.page_size == 0 then default_page_size else a.page_size in
    if leb page_size header_size
    then (Err.limit, self)
    else if calloced == 0
    then (Err.nomem, self)
    else (
      Err.ok,
      record (set_arena self t
          (record a { pages = calloced; page_size = page_size; num_pages = num_pages })) {
            capacity = u64 (self.capacity + u64 (num_pages * page_size));
            mem = memset_zero self.mem calloced (num_pages * page_size);
          },
    )

-- `RET_ERR()`: the first error is returned at once.
abbrev pub ret_err : Err × Pool → (Pool → Err × Pool) → Err × Pool
ret_err (Err.ok, self) rest = rest self
ret_err (err, self) rest = (err, self)

-- One call of `build_linked_list` on an arena of the pool.
unfoldable pub link : Pool → PageType → Pool
link self t =
    let (head, mem') = build_linked_list self.mem (arena self t) in
    record (set_arena self t (record (arena self t) { page_list = head })) { mem = mem' }

unfoldable pub link_all : Pool → Pool
link_all self =
    link
      (link (link (link (link self PageType.base) PageType.small_x4) PageType.small_x2)
        PageType.small)
      PageType.tiny

abbrev pub publish : Arena → Arena
publish a = record a { shared_page_list = a.page_list }

-- The five lists are stored as the shared ones.
unfoldable pub publish_all : Pool → Pool
publish_all self = record self {
  pages_base = publish self.pages_base;
  pages_x4 = publish self.pages_x4;
  pages_x2 = publish self.pages_x2;
  pages_small = publish self.pages_small;
  pages_tiny = publish self.pages_tiny;
}

-- The answers of the five calls of `calloc`, in their order.
pub record Buffers : Type 0 where
  pub buf_base : ℕ
  pub buf_x4 : ℕ
  pub buf_x2 : ℕ
  pub buf_small : ℕ
  pub buf_tiny : ℕ

-- The five calls of `alloc_page_buf`, with the sizes of include/knd_config.h.
unfoldable pub alloc_buffers : Pool → Buffers → Err × Pool
alloc_buffers self b = ret_err (alloc_page_buf self PageType.base 10000 1024 b.buf_base) λ s.
    ret_err (alloc_page_buf s PageType.small_x4 10000 512 b.buf_x4) λ s.
      ret_err (alloc_page_buf s PageType.small_x2 10000 256 b.buf_x2) λ s.
        ret_err (alloc_page_buf s PageType.small 10000 128 b.buf_small)
          λ s. alloc_page_buf s PageType.tiny 10000 64 b.buf_tiny

-- The switch on the pool's type, and the stores behind it.
unfoldable pub build_lists : Alloc → Pool → Pool
build_lists Alloc.incr self = self
build_lists Alloc.list self = link_all self
build_lists Alloc.shared self = publish_all (link_all self)

-- `alloc_capacity`
unfoldable pub alloc_capacity : Pool → Buffers → Err × Pool
alloc_capacity self b = ret_err (alloc_buffers self b) λ s. (Err.ok, build_lists s.alloc s)

-- One arena of `reset_capacity`: its memory is cleared and its pages are linked again.
unfoldable pub reset_arena : Pool → PageType → Pool
reset_arena self t =
    let a = arena self t in
    link (record self { mem = memset_zero self.mem a.pages (a.page_size * a.num_pages) }) t

-- `reset_capacity`
unfoldable pub reset_capacity : Pool → Pool
reset_capacity self =
    reset_arena
      (reset_arena
        (reset_arena (reset_arena (reset_arena self PageType.base) PageType.small_x4)
          PageType.small_x2)
        PageType.small)
      PageType.tiny
