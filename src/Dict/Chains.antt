-- ===== src/Dict/Chains.antt =====
-- Walks along one chain.
use knowdy.Base.{
  ℕ, ◌≡◌, ◌≢◌, arith, List, [], ◌∷◌, Option, none, some, if◌then◌else◌, bytes_eq, bytes_eq_iff,
}
use knowdy.Dict.{Phase, Item, find, mark_removed}

-- What a chain says of a key: nothing, a live value, or that the key was removed.
pub data Entry : Type 0 where
  absent : Entry
  live : ℕ → Entry
  gone : Entry

abbrev pub entry_of : Option Item → Entry
entry_of none = absent
entry_of (some item) = elim item.phase [
  | Phase.removed ↦ gone
  | Phase.valid ↦ live item.content
  | Phase.pending ↦ live item.content
]

-- No item is pending: `knd_dict_set` makes valid items only.
abbrev pub NonePending : List Item → Type 0
NonePending [] = Unit
NonePending (item ∷ chain) = (item.phase ≢ Phase.pending) × NonePending chain

pub find-mark_removed :
    (key k : List ℕ) (chain : List Item)
    → entry_of (find k (mark_removed key chain)) ≡ (
        if bytes_eq key k
        then elim (find key chain) [ none ↦ absent | some _ ↦ gone ]
        else entry_of (find k chain))
unfolding find mark_removed
find-mark_removed key k [] = ground arith
find-mark_removed key k (item ∷ chain) = ground (
  arith,
  find-mark_removed key k chain,
  bytes_eq_iff item.key key,
  bytes_eq_iff item.key k,
  bytes_eq_iff key k,
)

pub NonePending-mark_removed :
    (key : List ℕ) (chain : List Item) → NonePending chain → NonePending (mark_removed key chain)
unfolding mark_removed
NonePending-mark_removed key [] h = h
NonePending-mark_removed key (item ∷ chain) h = ground (arith, NonePending-mark_removed key chain)

pub find-NonePending :
    (key : List ℕ) (chain : List Item) (item : Item)
    → NonePending chain
    → find key chain ≡ some item
    → item.phase ≢ Phase.pending
unfolding find
find-NonePending key [] item h e = absurd (ground arith)
find-NonePending key (x ∷ chain) item h e = ground (arith, find-NonePending key chain item)
