-- ===== src/Lib.antt =====
-- The core of the Knowdy graph database: the memory that its parts share, and the containers and
-- helpers that classes, instances and texts are built from.
--
-- The parts, and where they are modelled. Paths are from the repository's root.
--
--   Err               include/knd_err.h: the return codes.
--   Mempool           src/knd_mempool.c: pools of pages. A pointer is a number and 0 is NULL; the memory
--                     of a pool is a function that gives for each address the link stored there.
--                     `page` is knd_mempool_page, `free` knd_mempool_free, `reset` knd_mempool_reset,
--                     `alloc_capacity` and `reset_capacity` (Mempool/Build) the functions of these names.
--                     Mempool/Chain, Arenas, Pooled: free lists and the five arenas; Traffic: pools whose
--                     pages come from a list; Incr: pools that count; Shared: threads that pop from one
--                     list, as a step relation; Returned: pages given back to a shared pool.
--   Utils             src/knd_utils.c: ids in base 62 (Ids), packed integers (Pack), UTF-8 (Utf8), texts
--                     (Text) and base64 (Base64). The theorems about each are in its child Laws.
--   Paths             src/knd_utils.c: the directories of a path, paths of ids, runs of spaces. `mkdir`
--                     is knd_mkdir; the system calls stat and mkdir are parameters.
--   Dict              src/knd_dict.c: the chained hash table. Chains: one chain; Refine and Runs: calls
--                     against a map from keys; Count: the counter of keys.
--   Output            src/knd_output.c: the output buffer. The memory is a function from offsets, so that
--                     a write behind the capacity is seen. Memory: copies; Steps: operations against a
--                     bounded text; Escape and Path: escaped texts and state paths.
--   Set               src/knd_set.c: sets of elements under ids, as tries. Walks: intersection and
--                     iteration; Lookup, Add, Adding: what a set holds; Common, Intersect: what several
--                     sets hold in common; Codes: how an intersection ends; Map: iteration against a
--                     list of the elements.
--   SharedDict        src/knd_shared_dict.c: the hash table that threads share. Traffic: an addition
--                     against the items that other threads put in front of the chain in between.
--   Gsp               src/knd_shared_set.c, src/knd_shared_set.gsp.c: the file format of a shared set.
--                     A file is the list of its bytes. Write: `marshall` is knd_shared_set_marshall;
--                     Read: payload blocks (unmarshall_elems); Load: whole files and single elements.
--                     Format: the bytes of a set, written down apart from both. Footers, Notes, Writing,
--                     Trees, Directory, Growing, Marshalling: the writer writes them. Cells, Reading, Payload,
--                     Sizes, Children, Subdirs, Marks, Blocks, Whole: the reader takes them in.
--                     RoundTrip: both together.
--   SharedSet         src/knd_shared_set.c, the trie in memory, as one thread uses it: `add`, `get`,
--                     `set_map` and `new` are knd_shared_set_add, _get, _map and _new. Same: step by
--                     step what Set does; Runs: sequences of requests; Adding, Refused: additions that
--                     succeed and that fail.
--   SetIdx            src/knd_set_idx.c: sets of ids as bit masks; `add` is knd_set_idx_add, `exist` is
--                     knd_set_idx_exist. Masks: the bits; Laws: what a set holds.
--   Result            outcomes of code that may fail, for Gsp.
--   States            src/knd_state.c, src/knd_logic.c: allocations.
--   Base              lists, machine words and tests that the parts share.
--
-- How the parts interact: Dict takes its items from the tiny pages of a pool and Set its nodes from the
-- base pages, both by `Mempool.page`, so their error paths are those of the pool. Set reads the digits
-- of an id by `Utils.Ids.obj_id_base`. Gsp writes the tries of Set through the bounded text of
-- `Output.Steps` with the packed integers of Utils.Pack, and reads them back.
--
-- Numbers: a size_t or an unsigned long keeps its wrap-around at 2^64 (`u64`, `sub_size`), an unsigned
-- char its range as a hypothesis. A char above 127 is negative where the source converts it
-- (`Dict.size_of_char`).
--
-- Loops: all are recursions on a list, on a count, or on the trie. The one loop on fuel is
-- `Utils.Ids.num_loop` (knd_num_to_str): its fuel is the number itself, which is enough because each
-- turn divides it by the base, at least 2. The recursion of `Gsp.Load.unmarshall_block` has fuel, too:
-- 8 is enough for the files of sets whose ids fit the ids' buffer. What the reader does to a file that
-- leads it deeper is not modelled: it writes behind the buffer, which is a `fault`, and goes on.
--
-- Threads: `Mempool.Shared.Step` has any number of threads at the atomic accesses of the pop. In
-- `SharedDict.set` the other threads are a list of rounds of the loop: at each they decide whether the
-- exchange succeeds and what stands in front of the chain; the loop may be unfinished at the list's end.
--
-- Undefined behaviour: where the source reads outside of an array or through a NULL pointer, or an
-- assert on an argument fails, the model gives `none`: an id with a byte that is no digit has the
-- position -1 in a set; an intersection of more than KND_MAX_CLAUSES sets overruns an array. The asserts that a page is as large as the struct that it is
-- for hold with the page sizes of include/knd_config.h and are left out, in `item_new` of both tables,
-- `elem_idx_new` and `new` of Set, States and `Output.name_buf_new`; the one that does not hold with
-- them is kept, in `SharedSet.new`.
--
-- Taken from outside: `qsort` of the C library in `Set.Walks.intersect`, of which only is used that it
-- permutes its input; the text that a format gives in `Output.writef`; in Gsp the callbacks that write
-- and read an element; in SetIdx and SharedSet the number of times that `calloc` gives memory; in
-- Paths what `stat` finds and `mkdir` does.
--
-- Not modelled: system calls, malloc and free, logging, the parts above the containers (classes,
-- instances, procedures, texts, repositories, shards), which rest on the gsl parser, a submodule, and
-- the tries and caches that threads share. In Gsp files open, appending to them succeeds, memory is
-- there, and the blocks that keep what was read are left out.
pub mod Base
pub mod Dict
pub mod Err
pub mod Gsp
pub mod Mempool
pub mod Output
pub mod Paths
pub mod Result
pub mod Set
pub mod SharedSet
pub mod SetIdx
pub mod SharedDict
pub mod States
pub mod Utils
