-- ===== src/States.antt =====
-- The constructors of src/knd_state.c and src/knd_logic.c: each takes one tiny page of a pool and
-- clears it; the code of the pool is passed on.
use knowdy.Err.{Err}
use knowdy.Base.{ℕ}
use knowdy.Mempool.{PageType, Pool, page}

-- `knd_state_new`
abbrev pub state_new : Pool → Err × ℕ × Pool
state_new mempool = page mempool PageType.tiny

-- `knd_state_ref_new`
abbrev pub state_ref_new : Pool → Err × ℕ × Pool
state_ref_new mempool = page mempool PageType.tiny

-- `knd_state_val_new`
abbrev pub state_val_new : Pool → Err × ℕ × Pool
state_val_new mempool = page mempool PageType.tiny

-- `knd_situation_new`
abbrev pub situation_new : Pool → Err × ℕ × Pool
situation_new mempool = page mempool PageType.tiny

-- `knd_logic_clause_new`
abbrev pub logic_clause_new : Pool → Err × ℕ × Pool
logic_clause_new mempool = page mempool PageType.tiny
