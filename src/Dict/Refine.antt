-- ===== src/Dict/Refine.antt =====
-- The table against a map from keys: any sequence of calls gives the map's answers, as long as the
-- memory pool has pages.
use knowdy.Err.{Err}
use knowdy.Base.{
  ℕ, ◌≡◌, ◌≢◌, refl, arith, List, ◌∷◌, Option, none, some, true, if◌then◌else◌, bytes_eq,
  bytes_eq_iff, ◌⊎◌, inl, inr, fun_ext, ap, ◌==◌, sym, ◌∙◌,
}
use knowdy.Dict.{
  Phase, Item, Dict, slot, find, get, set, add_new, item_new, mark_removed, remove, remove_found,
  update,
}
use knowdy.Mempool.{Pool}
use knowdy.Dict.Chains.{
  Entry, absent, live, gone, entry_of, NonePending, find-mark_removed, NonePending-mark_removed,
  find-NonePending,
}

-- The map that a table stands for.
abbrev pub view : Dict → List ℕ → Entry
view self k = entry_of (find k (self.hash_array (slot self k)))

abbrev pub AllChains : Dict → Type 0
AllChains self = (i : ℕ) → NonePending (self.hash_array i)

pub data Op : Type 0 where
  get_op : List ℕ → Op
  set_op : List ℕ → ℕ → Op
  remove_op : List ℕ → Op

-- A call: its code and the pointer that it returns.
unfoldable pub step : Dict → Op → Err × ℕ × Dict
step self (get_op key) = (Err.ok, get self key, self)
step self (set_op key content) = let (err, self') = set self key content in (err, 0, self')
step self (remove_op key) = let (err, self') = remove self key in (err, 0, self')

abbrev pub write : (List ℕ → Entry) → List ℕ → Entry → List ℕ → Entry
write map key e k = if bytes_eq key k then e else map k

-- The same on the map.
unfoldable pub spec_step : (List ℕ → Entry) → Op → Err × ℕ × (List ℕ → Entry)
spec_step map (get_op key) = (Err.ok, elim (map key) [ live content ↦ content | _ ↦ 0 ], map)
spec_step map (set_op key content) = elim (map key) [
  | live _ ↦ (Err.conflict, 0, map)
  | _ ↦ (Err.ok, 0, write map key (live content))
]
spec_step map (remove_op key) = elim (map key) [
  | absent ↦ (Err.fail, 0, map)
  | _ ↦ (Err.ok, 0, write map key gone)
]

-- A chain is replaced: what the table says of a key is what its chain says.
view-update :
    (self : Dict) (key k : List ℕ) (chain : List Item)
    → entry_of (find k (update self.hash_array (slot self key) chain (slot self k)))
      ≡ (if slot self key == slot self k then entry_of (find k chain) else view self k)
view-update self key k chain = ground arith

same_slot : (self : Dict) (key k : List ℕ) → bytes_eq key k ≡ true → slot self key ≡ slot self k
same_slot self key k e = ap (slot self) ((bytes_eq_iff key k).0 e)

view-add :
    (self : Dict) (key k : List ℕ) (content : ℕ)
    → entry_of (
        find k (
          update self.hash_array
            (slot self key)
            (record { phase = Phase.valid; key = key; content = content }
              ∷ self.hash_array (slot self key))
            (slot self k)))
      ≡ write (view self) key (live content) k
unfolding find
view-add self key k content = ground (arith, same_slot self key k)

pub view-mark_removed :
    (self : Dict) (key k : List ℕ) (item : Item)
    → find key (self.hash_array (slot self key)) ≡ some item
    → entry_of (
        find k (
          update self.hash_array
            (slot self key)
            (mark_removed key (self.hash_array (slot self key)))
            (slot self k)))
      ≡ write (view self) key gone k
view-mark_removed self key k item e =
    ground (arith, same_slot self key k, find-mark_removed key k (self.hash_array (slot self key)))

live_of :
    (self : Dict) (key : List ℕ) (item : Item)
    → AllChains self
    → find key (self.hash_array (slot self key)) ≡ some item
    → view self key ≡ elim item.phase [ Phase.removed ↦ gone | _ ↦ live item.content ]
live_of self key item h e = ground arith

-- What a call answers and leaves: the map's answer, or the pool is empty and nothing changed.
abbrev pub Refines : Dict → Op → Err × ℕ × Dict → Type 0
Refines self op (err, content, self') =
    ((err, content, view self') ≡ spec_step (view self) op)
    ⊎ ((err ≡ Err.nomem) × (self' ≡ self) × ((spec_step (view self) op).0 ≡ Err.ok))

add_new_lem :
    (self : Dict) (key : List ℕ) (content : ℕ) (r : Err × ℕ × Pool)
    → let (err, self') = add_new self key content r in
      ((err ≡ Err.ok) × (view self' ≡ write (view self) key (live content)))
      ⊎ ((err ≡ Err.nomem) × (self' ≡ self))
unfolding add_new
add_new_lem self key content (Err.ok, new_item, mempool) =
    inl (refl, fun_ext (λ k. view-add self key k content))
add_new_lem self key content _ = inr (refl, refl)

set-Refines :
    (self : Dict) (key : List ℕ) (content : ℕ) (o : Option Item)
    → AllChains self
    → find key (self.hash_array (slot self key)) ≡ o
    → Refines self (set_op key content) (step self (set_op key content))
unfolding set spec_step step
set-Refines self key content none h e =
    ground (arith, add_new_lem self key content (item_new self.mempool))
set-Refines self key content (some item) h e = ground (
  arith,
  add_new_lem self key content (item_new self.mempool),
  live_of self key item h e,
  find-NonePending key (self.hash_array (slot self key)) item (h (slot self key)) e,
)

spec_remove_absent :
    (m : List ℕ → Entry) (key : List ℕ)
    → m key ≡ absent
    → spec_step m (remove_op key) ≡ (Err.fail, 0, m)
unfolding spec_step
spec_remove_absent m key h = ground arith

spec_remove :
    (m : List ℕ → Entry) (key : List ℕ)
    → m key ≢ absent
    → spec_step m (remove_op key) ≡ (Err.ok, 0, write m key gone)
unfolding spec_step
spec_remove m key h = ground arith

remove-Refines :
    (self : Dict) (key : List ℕ) (o : Option Item)
    → AllChains self
    → find key (self.hash_array (slot self key)) ≡ o
    → let (err, self') = remove_found self key o in Refines self (remove_op key) (err, 0, self')
unfolding remove_found
remove-Refines self key none h e = inl (sym (spec_remove_absent (view self) key (ap entry_of e)))
remove-Refines self key (some item) h e = inl (
    ap (λ (m : List ℕ → Entry). (Err.ok, 0, m)) (fun_ext (λ k. view-mark_removed self key k item e))
    ∙ sym (spec_remove (view self) key (ground (arith, live_of self key item h e))))

get-Refines : (self : Dict) (key : List ℕ) → Refines self (get_op key) (step self (get_op key))
unfolding get spec_step step
get-Refines self key = ground arith

pub step-Refines : (self : Dict) (op : Op) → AllChains self → Refines self op (step self op)
unfolding step remove
step-Refines self (get_op key) h = get-Refines self key
step-Refines self (set_op key content) h =
    set-Refines self key content (find key (self.hash_array (slot self key))) h refl
step-Refines self (remove_op key) h =
    remove-Refines self key (find key (self.hash_array (slot self key))) h refl

add_new-AllChains :
    (self : Dict) (key : List ℕ) (content : ℕ) (r : Err × ℕ × Pool)
    → AllChains self
    → AllChains (add_new self key content r).1
unfolding add_new
add_new-AllChains self key content (Err.ok, new_item, mempool) h i =
    ground (arith, h i, h (slot self key))
add_new-AllChains self key content _ h i = h i

set-AllChains :
    (self : Dict) (key : List ℕ) (content : ℕ) (o : Option Item)
    → AllChains self
    → find key (self.hash_array (slot self key)) ≡ o
    → AllChains (set self key content).1
unfolding set
set-AllChains self key content none h e i =
    ground (arith, add_new-AllChains self key content (item_new self.mempool) h i)
set-AllChains self key content (some item) h e i =
    ground (arith, h i, add_new-AllChains self key content (item_new self.mempool) h i)

remove-AllChains :
    (self : Dict) (key : List ℕ) (o : Option Item)
    → AllChains self
    → AllChains (remove_found self key o).1
unfolding remove_found
remove-AllChains self key none h i = h i
remove-AllChains self key (some item) h i =
    ground (
      arith,
      h i,
      NonePending-mark_removed key (self.hash_array (slot self key)) (h (slot self key)),
    )

pub step-AllChains : (self : Dict) (op : Op) → AllChains self → AllChains (step self op).2
unfolding step remove
step-AllChains self (get_op key) h = h
step-AllChains self (set_op key content) h =
    set-AllChains self key content (find key (self.hash_array (slot self key))) h refl
step-AllChains self (remove_op key) h =
    remove-AllChains self key (find key (self.hash_array (slot self key))) h
