-- ===== src/Output.antt =====
-- The output buffer of src/knd_output.c.
pub mod Memory
pub mod Steps
pub mod Escape
pub mod Path
mod Tests
use knowdy.Err.{Err}
use knowdy.Base.{
  ℕ, zero, suc, ◌+◌, ◌-◌, ◌*◌, ◌/◌, ◌%◌, ◌^◌, ◌<◌, ◌≡◌, List, [], ◌∷◌, ◌++◌, Bool, true, false,
  ◌||◌, ltb, leb, ◌==◌, if◌then◌else◌, u64, sub_size, length, take,
}
use knowdy.Mempool.{PageType, Pool, page}

-- `struct kndOutput`, with the memory that it works on: `buf i` is the byte at `self->buf + i`.
-- `capacity` bytes belong to the buffer (one more where `knd_output_new` allocates it).
pub record Output : Type 0 where
  pub buf : ℕ → ℕ
  pub buf_size : ℕ
  pub capacity : ℕ

abbrev pub store : (ℕ → ℕ) → ℕ → ℕ → ℕ → ℕ
store buf at c i = if at == i then c else buf i

unfoldable pub memcpy : (ℕ → ℕ) → ℕ → List ℕ → ℕ → ℕ
memcpy buf at [] = buf
memcpy buf at (c ∷ cs) = memcpy (store buf at c) (suc at) cs

-- `kndOutput_reset`
unfoldable pub reset : Output → Output
reset self = record self { buf_size = 0; buf = store self.buf 0 0 }

-- `kndOutput_rtrim`
unfoldable pub rtrim : Output → ℕ → Err × Output
rtrim self trim_size = if ltb self.buf_size trim_size then (Err.limit, self) else (
  Err.ok,
  record self {
    buf_size = self.buf_size - trim_size;
    buf = store self.buf (self.buf_size - trim_size) 0;
  },
)

-- `kndOutput_writec`
unfoldable pub writec : Output → ℕ → Err × Output
writec self ch = if leb (sub_size self.capacity 1) self.buf_size then (Err.nomem, self) else (
  Err.ok,
  record self {
    buf = store (store self.buf self.buf_size ch) (suc self.buf_size) 0;
    buf_size = suc self.buf_size;
  },
)

-- `vsnprintf` where the format's text is `text`: at most `size` bytes are written, the last of them
-- a NUL.
unfoldable pub vsnprintf : (ℕ → ℕ) → ℕ → ℕ → List ℕ → ℕ → ℕ
vsnprintf buf at size text =
    if size == 0 then buf else memcpy buf at (take (size - 1) text ++ (0 ∷ []))

-- `kndOutput_writef`, the text of the format given. A length that `int` does not hold is an error of
-- `vsnprintf`, which returns a negative number.
unfoldable pub writef : Output → List ℕ → Err × Output
writef self text =
    let free_space = sub_size self.capacity self.buf_size in
    let buf = vsnprintf self.buf self.buf_size free_space text in
    if leb (2 ^ 31) (length text)
    then (Err.io_fail, record self { buf = buf })
    else if leb free_space (length text)
    then (Err.nomem, record self { buf = buf })
    else (Err.ok, record self { buf = buf; buf_size = u64 (self.buf_size + length text) })

-- `kndOutput_write`
unfoldable pub write : Output → List ℕ → Err × Output
write self text =
    if ltb (sub_size (sub_size self.capacity self.buf_size) 1) (length text)
    then (Err.nomem, self)
    else let buf_size = u64 (self.buf_size + length text) in
      (
        Err.ok,
        record self {
          buf = store (memcpy self.buf self.buf_size text) buf_size 0;
          buf_size = buf_size;
        },
      )

-- The cases of the `switch` of `kndOutput_write_escaped`.
pub data Kind : Type 0 where
  dropped white plain : Kind

unfoldable pub kind_of : ℕ → Kind
kind_of c =
    if (c == 123) || (c == 125) || (c == 34) || (c == 39)
    then dropped
    else if (c == 10) || (c == 13) || (c == 9) || (c == 32)
    then white
    else plain

-- The loop of `kndOutput_write_escaped`: `buf` the memory, `at` the place of the next character
-- (`c`), `chunk_size` what has been written.
unfoldable pub escape_loop : (ℕ → ℕ) → ℕ → ℕ → ℕ → Bool → List ℕ → Err × ℕ × (ℕ → ℕ)
escape_loop buf at free_space chunk_size in_whitespace [] = (Err.ok, chunk_size, buf)
escape_loop buf at free_space chunk_size in_whitespace (b ∷ bs) = elim (leb free_space chunk_size) [
  | true ↦ (Err.nomem, chunk_size, buf)
  | false ↦ elim (kind_of b) [
    | dropped ↦ escape_loop buf at free_space chunk_size in_whitespace bs
    | white ↦ elim in_whitespace [
      | true ↦ escape_loop buf at free_space chunk_size true bs
      | false ↦ escape_loop (store buf at 32) (suc at) free_space (suc chunk_size) true bs
    ]
    | plain ↦ escape_loop (store buf at b) (suc at) free_space (suc chunk_size) false bs
  ]
]

-- The end of `kndOutput_write_escaped`: a failed loop leaves what it has written behind the text.
unfoldable pub escaped : Output → Err × ℕ × (ℕ → ℕ) → Err × Output
escaped self (Err.ok, chunk_size, buf) =
    (Err.ok, record self { buf = buf; buf_size = u64 (self.buf_size + chunk_size) })
escaped self (err, chunk_size, buf) = (err, record self { buf = buf })

-- `kndOutput_write_escaped`
unfoldable pub write_escaped : Output → List ℕ → Err × Output
write_escaped self text =
    escaped self
      (escape_loop self.buf self.buf_size (sub_size self.capacity self.buf_size) 0 false text)

-- `/` before each character of a state.
unfoldable pub state_path : List ℕ → List ℕ
state_path [] = []
state_path (c ∷ cs) = 47 ∷ c ∷ state_path cs

-- `kndOutput_write_state_path`
unfoldable pub write_state_path : Output → List ℕ → Err × Output
write_state_path self state =
    let rec_size = u64 (u64 (length state * 2) + 1) in
    if ltb (sub_size self.capacity self.buf_size) rec_size then (Err.nomem, self) else (
      Err.ok,
      record self {
        buf = memcpy self.buf self.buf_size (state_path state ++ (0 ∷ []));
        buf_size = u64 (self.buf_size + rec_size);
      },
    )

-- `knd_name_buf_new`
unfoldable pub name_buf_new : Pool → Err × ℕ × Pool
name_buf_new mempool = page mempool PageType.base

-- `knd_output_new`, with a buffer that the caller gives.
unfoldable pub new : (ℕ → ℕ) → ℕ → Output
new buf capacity = record { buf = buf; buf_size = 0; capacity = capacity }
