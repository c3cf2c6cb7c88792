-- ===== src/SharedDict.antt =====
-- The hash table that threads share (src/knd_shared_dict.c). A chain is a list with its head first;
-- other threads only put items in front of it and change phases.
pub mod Traffic
mod Tests
use knowdy.Err.{Err}
use knowdy.Base.{
  ℕ, zero, suc, ◌+◌, ◌*◌, ◌-◌, ◌%◌, ◌^◌, ◌≡◌, List, [], ◌∷◌, ◌++◌, Option, none, some, Bool, true,
  false, not, ltb, ◌==◌, if◌then◌else◌, bytes_eq, bit_xor, u64, ◌<<◌,
}
use knowdy.Mempool.{PageType, Pool, page}
use knowdy.States.{state_new}
use knowdy.Dict.{size_of_char}

-- `knd_shared_dict_item_phase`
pub data Phase : Type 0 where
  valid pending removed : Phase

-- `struct kndState`, as far as this file sets it.
pub record State : Type 0 where
  pub commit : ℕ
  pub content : ℕ

-- `struct kndSharedDictItem`; `next` is the rest of the chain.
pub record Item : Type 0 where
  pub phase : Phase
  pub key : List ℕ
  pub content : ℕ
  pub states : Option State

-- `struct kndSharedDict`
pub record SharedDict : Type 0 where
  pub hash_array : ℕ → List Item
  pub size : ℕ
  pub num_items : ℕ

-- The loop of `knd_shared_dict_hash`.
unfoldable pub hash_loop : ℕ → List ℕ → ℕ
hash_loop h [] = h
hash_loop h (c ∷ key) = hash_loop (bit_xor (u64 (h << 1)) (size_of_char c)) key

-- `knd_shared_dict_hash`
unfoldable pub hash : List ℕ → ℕ
hash key = hash_loop 0 key

abbrev pub slot : SharedDict → List ℕ → ℕ
slot self key = hash key % self.size

-- The walk along a chain.
unfoldable pub find : List ℕ → List Item → Option Item
find key [] = none
find key (item ∷ chain) = if bytes_eq item.key key then some item else find key chain

-- `dict_item_new`
abbrev pub item_new : Pool → Err × ℕ × Pool
item_new mempool = page mempool PageType.tiny

-- `knd_shared_dict_get`
unfoldable pub get : SharedDict → List ℕ → ℕ
get self key = elim (find key (self.hash_array (slot self key))) [
  | none ↦ 0
  | some item ↦ elim item.phase [ Phase.removed ↦ 0 | _ ↦ item.content ]
]

-- The first test of `knd_shared_dict_set`, on the chain that it has loaded.
unfoldable pub is_taken : List ℕ → Bool → List Item → Bool
is_taken key allow_overwrite orig = elim (find key orig) [
  | none ↦ false
  | some item ↦
      if allow_overwrite then false else elim item.phase [ Phase.valid ↦ true | _ ↦ false ]
]

-- The new item; `commit` is 0 for NULL.
unfoldable pub new_item : List ℕ → ℕ → ℕ → Item
new_item key content commit =
    if commit == 0
    then record { phase = Phase.valid; key = key; content = content; states = none }
    else (record {
      phase = Phase.pending;
      key = key;
      content = content;
      states = some (record { commit = commit; content = content });
    })

-- The pages that the new item takes: one for itself, one more for its state.
unfoldable pub alloc_item : Pool → ℕ → Err × Pool
alloc_item mempool commit =
    let (err, item, mempool') = item_new mempool in
    let (err', state, mempool'') = state_new mempool' in
    elim err [
      | Err.ok ↦ if commit == 0 then (Err.ok, mempool') else (err', mempool'')
      | _ ↦ (Err.nomem, mempool')
    ]

-- What the other threads decide at a round of the loop: whether the exchange succeeds, which also may
-- fail for no reason, and which items are in front of the chain that was loaded first.
abbrev pub Load : Type 0
Load = Bool × List Item

-- The `do … while` loop, as far as rounds are given: `none`, if it has not ended in them. The walk
-- stops at the head that was loaded first.
unfoldable pub push_loop : Item → List Item → List Load → Option (Err × List Item)
push_loop item orig [] = none
push_loop item orig ((won, added) ∷ loads) =
    let again = push_loop item orig loads in
    elim (find item.key added) [
      | some other ↦ some (Err.conflict, added ++ orig)
      | none ↦ if won then some (Err.ok, item ∷ (added ++ orig)) else again
    ]

abbrev pub update : (ℕ → List Item) → ℕ → List Item → ℕ → List Item
update hash_array h chain i = if h == i then chain else hash_array i

-- What the loop leaves of a table.
abbrev pub pushed : SharedDict → List ℕ → Err × List Item → Err × SharedDict
pushed self key (err, chain) = (
  err,
  record self {
    hash_array = update self.hash_array (slot self key) chain;
    num_items = elim err [ Err.ok ↦ u64 (self.num_items + 1) | _ ↦ self.num_items ];
  },
)

-- `knd_shared_dict_set` on the chain that it loads first; `loads` as in the loop.
unfoldable pub set :
    SharedDict → List ℕ → ℕ → Pool → ℕ → Bool → List Load → Option (Err × SharedDict × Pool)
set self key content mempool commit allow_overwrite loads =
    let orig = self.hash_array (slot self key) in
    let (err, mempool') = alloc_item mempool commit in
    if is_taken key allow_overwrite orig then some (Err.conflict, self, mempool) else elim err [
      | Err.ok ↦ elim (push_loop (new_item key content commit) orig loads) [
        | none ↦ none
        | some r ↦ some ((pushed self key r).0, (pushed self key r).1, mempool')
      ]
      | failed ↦ some (failed, self, mempool')
    ]

unfoldable pub mark_removed : List ℕ → List Item → List Item
mark_removed key [] = []
mark_removed key (item ∷ chain) =
    if bytes_eq item.key key
    then record item { phase = Phase.removed } ∷ chain
    else item ∷ mark_removed key chain

-- `knd_shared_dict_remove`
unfoldable pub remove : SharedDict → List ℕ → Err × SharedDict
remove self key =
    let chain = self.hash_array (slot self key) in
    elim (find key chain) [
      | none ↦ (Err.fail, self)
      | some item ↦ (
        Err.ok,
        record self {
          hash_array = update self.hash_array (slot self key) (mark_removed key chain);
        },
      )
    ]

-- `knd_shared_dict_new`, where the allocations succeed.
unfoldable pub new : ℕ → SharedDict
new init_size = record { hash_array = λ i. []; size = init_size; num_items = 0 }
