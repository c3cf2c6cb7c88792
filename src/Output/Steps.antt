-- ===== src/Output/Steps.antt =====
-- The operations of an output against a text of bounded length.
use knowdy.Err.{Err}
use knowdy.Base.{
  ℕ, suc, ◌+◌, ◌-◌, ◌≤◌, ◌<◌, ◌^◌, ◌≡◌, refl, arith, List, [], ◌∷◌, ◌++◌, length, take, ltb,
  if◌then◌else◌, sub_size, min, length-take, take-all,
}
use knowdy.Output.{Output, store, memcpy, vsnprintf, reset, rtrim, writec, write, writef}
use knowdy.Output.Memory.{
  bytes, length-bytes, bytes-store, bytes-store_next, bytes-memcpy, memcpy_after,
  bytes-memcpy_before, take-bytes, memcpy-append,
}

abbrev pub text_of : Output → List ℕ
text_of self = bytes self.buf self.buf_size

-- There is room for the NUL behind the text.
abbrev pub Fits : Output → Type 0
Fits self = (self.buf_size < self.capacity) × (self.capacity < 2 ^ 64)

-- No byte behind the buffer is written, and the new state fits.
abbrev pub Kept : Output → Output → Type 0
Kept self self' =
    (self'.capacity ≡ self.capacity)
    × Fits self'
    × ((i : ℕ) → self.capacity ≤ i → self'.buf i ≡ self.buf i)

pub data Op : Type 0 where
  clear : Op
  trim : ℕ → Op
  put : ℕ → Op
  add : List ℕ → Op
  format : List ℕ → Op

unfoldable pub step : Output → Op → Err × Output
step self clear = (Err.ok, reset self)
step self (trim n) = rtrim self n
step self (put c) = writec self c
step self (add text) = write self text
step self (format text) = writef self text

-- What is appended fits if a NUL fits behind it.
unfoldable pub append : ℕ → List ℕ → List ℕ → Err × List ℕ
append capacity t text =
    if ltb (length t + length text) capacity then (Err.ok, t ++ text) else (Err.nomem, t)

-- A formatted text of 2^31 bytes or more is refused.
unfoldable pub append_format : ℕ → List ℕ → List ℕ → Err × List ℕ
append_format capacity t text =
    if ltb (length text) (2 ^ 31) then append capacity t text else (Err.io_fail, t)

unfoldable pub spec_step : ℕ → List ℕ → Op → Err × List ℕ
spec_step capacity t clear = (Err.ok, [])
spec_step capacity t (trim n) =
    if ltb (length t) n then (Err.limit, t) else (Err.ok, take (length t - n) t)
spec_step capacity t (put c) = append capacity t (c ∷ [])
spec_step capacity t (add text) = append capacity t text
spec_step capacity t (format text) = append_format capacity t text

abbrev pub Done : Output → Err × List ℕ → Err × Output → Type 0
Done self spec (err, self') =
    ((err, text_of self') ≡ spec) × Kept self self' × (err ≡ Err.ok → self'.buf self'.buf_size ≡ 0)

append_ok :
    (capacity : ℕ) (t text : List ℕ)
    → length t + length text < capacity
    → append capacity t text ≡ (Err.ok, t ++ text)
unfolding append
append_ok capacity t text h = ground arith

append_nomem :
    (capacity : ℕ) (t text : List ℕ)
    → capacity ≤ length t + length text
    → append capacity t text ≡ (Err.nomem, t)
unfolding append
append_nomem capacity t text h = ground arith

reset-Done : (self : Output) → Fits self → Done self (Err.ok, []) (Err.ok, reset self)
unfolding reset bytes
reset-Done self f = (refl, (refl, ((omega arith), f.1), λ i h. ground arith), λ _. ground arith)

rtrim-Done :
    (self : Output) (n : ℕ)
    → Fits self
    → Done self (spec_step self.capacity (text_of self) (trim n)) (rtrim self n)
unfolding rtrim spec_step
rtrim-Done self n f = ground (
  arith,
  length-bytes self.buf self.buf_size,
  bytes-store self.buf (self.buf_size - n) (self.buf_size - n) 0,
  take-bytes self.buf self.buf_size (self.buf_size - n),
)

writec-Done :
    (self : Output) (c : ℕ)
    → Fits self
    → Done self (append self.capacity (text_of self) (c ∷ [])) (writec self c)
unfolding writec append
writec-Done self c f = ground (
  arith,
  length-bytes self.buf self.buf_size,
  bytes-store (store self.buf self.buf_size c) (suc self.buf_size) (suc self.buf_size) 0,
  bytes-store_next self.buf self.buf_size c,
)

write-Done :
    (self : Output) (text : List ℕ)
    → Fits self
    → length text < 2 ^ 64
    → Done self (append self.capacity (text_of self) text) (write self text)
unfolding write append
write-Done self text f h = ground (
  arith,
  length-bytes self.buf self.buf_size,
  bytes-store (memcpy self.buf self.buf_size text) (self.buf_size + length text)
      (self.buf_size + length text) 0,
  bytes-memcpy self.buf self.buf_size text,
  memcpy_after self.buf self.buf_size text,
)

-- The text and a NUL, as far as there is room.
vsnprintf_lem :
    (self : Output) (text : List ℕ)
    → Fits self
    → let buf = vsnprintf self.buf self.buf_size (sub_size self.capacity self.buf_size) text in
      let n = min (self.capacity - self.buf_size - 1) (length text) in
      (bytes buf self.buf_size ≡ text_of self)
      × (length text < self.capacity - self.buf_size
          → bytes buf (self.buf_size + length text) ≡ text_of self ++ text)
      × (buf (self.buf_size + n) ≡ 0)
      × ((i : ℕ) → self.capacity ≤ i → buf i ≡ self.buf i)
unfolding vsnprintf
vsnprintf_lem self text f =
    let n = self.capacity - self.buf_size - 1 in
    let cut = take n text in
    ground (
      arith,
      memcpy-append self.buf self.buf_size cut 0,
      length-take n text,
      take-all n text,
      bytes-memcpy self.buf self.buf_size text,
      bytes-store (memcpy self.buf self.buf_size text) (self.buf_size + length text)
          (self.buf_size + length text) 0,
      bytes-memcpy_before self.buf self.buf_size self.buf_size (cut ++ (0 ∷ [])),
      memcpy_after self.buf self.buf_size cut,
    )

writef-Done :
    (self : Output) (text : List ℕ)
    → Fits self
    → Done self (append_format self.capacity (text_of self) text) (writef self text)
unfolding writef append append_format
writef-Done self text f =
    ground (arith, length-bytes self.buf self.buf_size, vsnprintf_lem self text f)

abbrev pub IsSmall : Op → Type 0
IsSmall (add text) = length text < 2 ^ 64
IsSmall _ = Unit

-- Every operation on an output with room for its NUL gives the code and the text that a text bounded
-- by the capacity gives: a text is cleared, trimmed or, where a NUL fits behind it, extended, else
-- left as it is; a formatted text of 2^31 bytes or more is refused with `knd_IO_FAIL`. The output keeps
-- its capacity and its room, no byte behind the buffer is written, and the text ends in a NUL after
-- each success. Texts that are not formatted are shorter than 2^64.
pub step-Refines :
    (self : Output) (op : Op)
    → Fits self
    → IsSmall op
    → Done self (spec_step self.capacity (text_of self) op) (step self op)
unfolding step spec_step
step-Refines self clear f small = reset-Done self f
step-Refines self (trim n) f small = rtrim-Done self n f
step-Refines self (put c) f small = writec-Done self c f
step-Refines self (add text) f small = write-Done self text f small
step-Refines self (format text) f small = writef-Done self text f
