-- ===== src/Dict/Count.antt =====
-- The counter of keys of src/knd_dict.c.
use knowdy.Err.{Err}
use knowdy.Base.{
  ℕ, ◌≡◌, ◌≢◌, arith, refl, List, Option, none, some, fun_ext, sub_size, sym, ap, ◌∙◌, bytes_eq,
  bytes_eq_iff, true,
}
use knowdy.Dict.{Item, Dict, slot, find, remove, remove_found}
use knowdy.Dict.Chains.{Entry, absent, gone, entry_of}
use knowdy.Dict.Refine.{view, write, view-mark_removed}

remove_found_twice :
    (self : Dict) (key : List ℕ) (o : Option Item)
    → find key (self.hash_array (slot self key)) ≡ o
    → entry_of o ≢ absent
    → let (err, self') = remove_found self key o in
      (err ≡ Err.ok)
      × (self'.num_keys ≡ sub_size self.num_keys 1)
      × (view self' ≡ write (view self) key gone)
unfolding remove_found
remove_found_twice self key none e h = absurd (h refl)
remove_found_twice self key (some item) e h =
    (refl, refl, fun_ext (λ k. view-mark_removed self key k item e))

happly : {m m' : List ℕ → Entry} → m ≡ m' → (k : List ℕ) → m k ≡ m' k
happly e k = ap (λ (f : List ℕ → Entry). f k) e

write_same : (m : List ℕ → Entry) (key : List ℕ) (e : Entry) → write m key e key ≡ e
write_same m key e = ground (arith, bytes_eq_iff key key)

write_at :
    (m : List ℕ → Entry) (key : List ℕ) (e : Entry) (k : List ℕ)
    → m key ≡ e
    → (bytes_eq key k ≡ true → key ≡ k)
    → write m key e k ≡ m k
write_at m key e k h same = ground (arith, ap m)

write_stable : (m : List ℕ → Entry) (key : List ℕ) (e : Entry) → m key ≡ e → write m key e ≡ m
write_stable m key e h = fun_ext (λ k. write_at m key e k h (bytes_eq_iff key k).0)

live_gone : gone ≢ absent
live_gone e = ground (arith, e)

-- Removing a key that the table holds, valid or already removed, succeeds, marks it removed and
-- takes one off the counter of keys, every time: two removals of one key take two off, modulo 2^64.
pub remove_twice :
    (self : Dict) (key : List ℕ)
    → view self key ≢ absent
    → let (err1, self1) = remove self key in
      let (err2, self2) = remove self1 key in
      (err1 ≡ Err.ok)
      × (err2 ≡ Err.ok)
      × (view self1 key ≡ gone)
      × (view self2 ≡ view self1)
      × (self2.num_keys ≡ sub_size (sub_size self.num_keys 1) 1)
unfolding remove
remove_twice self key h =
    let found = find key (self.hash_array (slot self key)) in
    let (ok1, count1, view1) = remove_found_twice self key found refl h in
    let self1 = (remove_found self key found).1 in
    let gone1 = happly view1 key ∙ write_same (view self) key gone in
    let (ok2, count2, view2) =
      remove_found_twice self1 key (find key (self1.hash_array (slot self1 key))) refl
        (λ e. live_gone (sym gone1 ∙ e)) in
    (
      ok1,
      ok2,
      gone1,
      view2 ∙ write_stable (view self1) key gone gone1,
      count2 ∙ ap (λ (n : ℕ). sub_size n 1) count1,
    )
