-- ===== src/Dict.antt =====
-- The chained hash table of src/knd_dict.c.
pub mod Chains
pub mod Refine
pub mod Runs
pub mod Count
mod Tests
use knowdy.Err.{Err}
use knowdy.Base.{
  ℕ, zero, suc, ◌+◌, ◌-◌, ◌*◌, ◌%◌, ◌^◌, List, [], ◌∷◌, Option, none, some, Bool, true, false, ltb,
  ◌==◌, if◌then◌else◌, bytes_eq, bit_xor, u64, sub_size, ◌<<◌,
}
use knowdy.Mempool.{PageType, Pool, page}

-- `knd_dict_item_phase`
pub data Phase : Type 0 where
  valid pending removed : Phase

-- `struct kndDictItem`; `key_size` is the length of the key, `next` the rest of the chain.
pub record Item : Type 0 where
  pub phase : Phase
  pub key : List ℕ
  pub content : ℕ

-- `struct kndDict`; `content` is the `data` pointer, 0 is NULL.
pub record Dict : Type 0 where
  pub hash_array : ℕ → List Item
  pub size : ℕ
  pub mempool : Pool
  pub num_keys : ℕ
  pub num_items : ℕ

-- A `char` converted to `size_t`: from 0x80 on it is negative.
abbrev pub size_of_char : ℕ → ℕ
size_of_char c = if ltb c 128 then c else c + (2 ^ 64 - 256)

-- The loop of `knd_dict_hash`.
unfoldable pub hash_loop : ℕ → List ℕ → ℕ
hash_loop h [] = h
hash_loop h (c ∷ key) = hash_loop (bit_xor (u64 (h << 1)) (size_of_char c)) key

unfoldable pub hash : List ℕ → ℕ
hash key = hash_loop 0 key

-- The index of a key in the array.
abbrev pub slot : Dict → List ℕ → ℕ
slot self key = hash key % self.size

-- The walk along a chain: the first item with the key.
unfoldable pub find : List ℕ → List Item → Option Item
find key [] = none
find key (item ∷ chain) = if bytes_eq item.key key then some item else find key chain

-- `dict_item_new`
unfoldable pub item_new : Pool → Err × ℕ × Pool
item_new mempool = page mempool PageType.tiny

abbrev pub update : (ℕ → List Item) → ℕ → List Item → ℕ → List Item
update hash_array h chain i = if h == i then chain else hash_array i

-- `knd_dict_get`
unfoldable pub get : Dict → List ℕ → ℕ
get self key = elim (find key (self.hash_array (slot self key))) [
  | none ↦ 0
  | some item ↦ elim item.phase [ Phase.removed ↦ 0 | _ ↦ item.content ]
]

-- The second half of `knd_dict_set`: the new item becomes the head of its chain.
unfoldable pub add_new : Dict → List ℕ → ℕ → Err × ℕ × Pool → Err × Dict
add_new self key content (Err.ok, new_item, mempool) = (
  Err.ok,
  record self {
    hash_array = update self.hash_array (slot self key) (
        record { phase = Phase.valid; key = key; content = content }
        ∷ self.hash_array (slot self key));
    mempool = mempool;
    num_keys = u64 (self.num_keys + 1);
    num_items = u64 (self.num_items + 1);
  },
)
add_new self key content _ = (Err.nomem, self)

abbrev pub add_item : Dict → List ℕ → ℕ → Err × Dict
add_item self key content = add_new self key content (item_new self.mempool)

-- `knd_dict_set`
unfoldable pub set : Dict → List ℕ → ℕ → Err × Dict
set self key content = elim (find key (self.hash_array (slot self key))) [
  | none ↦ add_item self key content
  | some item ↦ elim item.phase [
    | Phase.valid ↦ (Err.conflict, self)
    | _ ↦ add_item self key content
  ]
]

-- The first item with the key is marked.
unfoldable pub mark_removed : List ℕ → List Item → List Item
mark_removed key [] = []
mark_removed key (item ∷ chain) =
    if bytes_eq item.key key
    then record item { phase = Phase.removed } ∷ chain
    else item ∷ mark_removed key chain

-- The second half of `knd_dict_remove`, after the walk.
unfoldable pub remove_found : Dict → List ℕ → Option Item → Err × Dict
remove_found self key none = (Err.fail, self)
remove_found self key (some item) = (
  Err.ok,
  record self {
    hash_array =
        update self.hash_array (slot self key) (mark_removed key (self.hash_array (slot self key)));
    num_keys = sub_size self.num_keys 1;
  },
)

-- `knd_dict_remove`
unfoldable pub remove : Dict → List ℕ → Err × Dict
remove self key = remove_found self key (find key (self.hash_array (slot self key)))

-- `knd_dict_reset`
unfoldable pub reset : Dict → Dict
reset self = record self { hash_array = λ _. [] }

-- `knd_dict_new`, where the allocations succeed.
unfoldable pub new : Pool → ℕ → Dict
new mempool init_size = record {
  hash_array = λ _. [];
  size = init_size;
  mempool = mempool;
  num_keys = 0;
  num_items = 0;
}
