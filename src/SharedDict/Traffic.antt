-- ===== src/SharedDict/Traffic.antt =====
-- Additions to a shared table while other threads put items in front of the same chain.
use knowdy.Err.{Err}
use knowdy.Base.{
  ℕ, ◌+◌, ◌≡◌, ◌≢◌, List, [], ◌∷◌, ◌++◌, none, some, ◌⊎◌, Bool, true, false, bytes_eq, u64,
  if◌then◌else◌, Option,
}
use knowdy.Mempool.{Pool}
use knowdy.SharedDict.{
  Item, Load, SharedDict, slot, find, get, is_taken, alloc_item, pushed, update,
}

-- Rounds that end without a result: the exchange fails, and nobody has added an item under the key.
abbrev pub Lost : List ℕ → List Load → Type 0
Lost key [] = Unit
Lost key ((won, added) ∷ loads) = (won ≡ false) × (find key added ≡ none) × Lost key loads

-- The first round that is not lost has the items `added` in front of the chain.
abbrev pub Decides : List ℕ → List Load → Bool → List Item → Type 0
Decides key [] won added = ⊥
Decides key ((w, front) ∷ loads) won added =
    ((w ≡ won)
      × (front ≡ added)
      × (((won ≡ true) × (find key added ≡ none)) ⊎ (find key added ≢ none)))
    ⊎ ((w ≡ false) × (find key front ≡ none) × Decides key loads won added)

-- All rounds are lost; or the first that is not puts the new item in front of what others have added,
-- none of it under the key, or finds an item of another thread under the key.
abbrev pub Pushed : Item → List Item → List Load → Option (Err × List Item) → Type 0
Pushed item orig loads o =
    ((o ≡ none) × Lost item.key loads)
    ⊎ ((won : Bool) × (added : List Item) × Decides item.key loads won added
        × (((find item.key added ≡ none) × (o ≡ some (Err.ok, item ∷ (added ++ orig))))
            ⊎ ((find item.key added ≢ none) × (o ≡ some (Err.conflict, added ++ orig)))))

-- The table with the items of other threads in front of one chain.
abbrev pub with_added : SharedDict → List ℕ → List Item → SharedDict
with_added self key added = record self {
  hash_array = update self.hash_array (slot self key) (added ++ self.hash_array (slot self key));
}

-- What an addition gives once an item is allocated: nothing in the rounds that are given, all of them
-- lost; or it is decided at the first round that is not.
abbrev pub Decided :
    SharedDict → List ℕ → ℕ → Pool → List Load → Option (Err × SharedDict × Pool) → Type 0
Decided self key content mempool loads o =
    ((o ≡ none) × Lost key loads)
    ⊎ ((won : Bool) × (added : List Item) × (self' : SharedDict) × Decides key loads won added
        × (((find key added ≡ none)
              × (o ≡ some (Err.ok, self', mempool))
              × (self'.num_items ≡ u64 (self.num_items + 1))
              × ((k : List ℕ)
                  → get self' k
                    ≡ (if bytes_eq key k then content else get (with_added self key added) k)))
            ⊎ ((find key added ≢ none)
                × (o ≡ some (Err.conflict, self', mempool))
                × (self'.num_items ≡ self.num_items)
                × ((k : List ℕ) → get self' k ≡ get (with_added self key added) k))))

-- The ways an addition ends.
abbrev pub Outcome :
    SharedDict
    → List ℕ
    → ℕ
    → Pool
    → ℕ
    → Bool
    → List Load
    → Option (Err × SharedDict × Pool)
    → Type 0
Outcome self key content mempool commit ow loads o =
    ((is_taken key ow (self.hash_array (slot self key)) ≡ true)
      × (o ≡ some (Err.conflict, self, mempool)))
    ⊎ ((is_taken key ow (self.hash_array (slot self key)) ≡ false)
        × let (err, mempool') = alloc_item mempool commit in
          ((err ≢ Err.ok) × (o ≡ some (err, self, mempool')))
          ⊎ ((err ≡ Err.ok) × Decided self key content mempool' loads o))

-- What the loop leaves, as the table has it.
abbrev finish :
    SharedDict → List ℕ → Pool → Option (Err × List Item) → Option (Err × SharedDict × Pool)
finish self key mempool none = none
finish self key mempool (some r) = some ((pushed self key r).0, (pushed self key r).1, mempool)
