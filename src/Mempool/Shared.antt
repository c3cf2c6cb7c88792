-- ===== src/Mempool/Shared.antt =====
-- `get_shared_page` of a shared pool (KND_ALLOC_SHARED) among any number of threads, for the pages of
-- one size: loads, exchanges and the writes of those that hold pages, in any order.
use knowdy.Base.{
  ℕ, ◌+◌, ◌≡◌, ◌≢◌, refl, arith, List, [], ◌∷◌, ◌++◌, ◌⊎◌, inl, inr, ◌==◌, if◌then◌else◌, ◌∙◌, ap,
  subst, Bool-cases, u64, ℕ_discrete,
}
use knowdy.Mempool.{write}
use knowdy.Mempool.Chain.{
  In, Distinct, Chain, Chain-write, NotIn-middle, Distinct-middle, Distinct-prefix, Distinct-remove,
  NotIn-append, NotIn-prefix, ne_of_NotIn, remove,
}

-- Where a thread stands in the `do … while` loop of its case: before the load, with the head loaded,
-- with the head's `next` read, or with the exchange won and the counter to be raised.
pub data Local : Type 0 where
  idle : Local
  loaded : (page_list : ℕ) → Local
  ready : (page_list next_page : ℕ) → Local
  won : (page_list : ℕ) → Local

-- `handed` are the pages that exchanges have taken off the list.
pub record Shared : Type 0 where
  pub head : ℕ
  pub pages_used : ℕ
  pub mem : ℕ → ℕ
  pub local : ℕ → Local
  pub handed : List ℕ

abbrev pub at : (ℕ → Local) → ℕ → Local → ℕ → Local
at local i l j = if i == j then l else local j

-- One step of thread `i`, or of a holder. A load of NULL returns `knd_NOMEM`: the thread stays idle.
-- The weak exchange may fail for no reason, and the loop goes on from its load.
pub data Step : Shared → Shared → Type 0 where
  load :
      (s : Shared) (i : ℕ)
      → s.local i ≡ idle
      → s.head ≢ 0
      → Step s (record s { local = at s.local i (loaded s.head) })
  read_next :
      (s : Shared) (i p : ℕ)
      → s.local i ≡ loaded p
      → Step s (record s { local = at s.local i (ready p (s.mem p)) })
  exchange :
      (s : Shared) (i p n : ℕ)
      → s.local i ≡ ready p n
      → s.head ≡ p
      → Step s (record s { head = n; local = at s.local i (won p); handed = p ∷ s.handed })
  exchange_failed :
      (s : Shared) (i p n : ℕ)
      → s.local i ≡ ready p n
      → Step s (record s { local = at s.local i idle })
  count :
      (s : Shared) (i p : ℕ)
      → s.local i ≡ won p
      → Step s (record s { pages_used = u64 (s.pages_used + 1); local = at s.local i idle })
  scribble : (s : Shared) (a v : ℕ) → In a s.handed → Step s (record s { mem = write s.mem a v })

pub data Reach (s : Shared) : Shared → Type 0 where
  here : Reach s s
  next : {t u : Shared} → Reach s t → Step t u → Reach s u

-- A head that a thread has loaded is a page; the `next` that it has read is still in the page, unless
-- the page has been handed out (it is then no longer in the list, and never again).
abbrev pub Knows : List ℕ → (ℕ → ℕ) → Local → Type 0
Knows handed mem idle = Unit
Knows handed mem (loaded p) = p ≢ 0
Knows handed mem (ready p n) = (p ≢ 0) × (In p handed ⊎ (mem p ≡ n))
Knows handed mem (won p) = Unit

pub record Inv (s : Shared) : Type 0 where
  pub free_pages : List ℕ
  pub chain : Chain s.mem s.head free_pages
  pub distinct : Distinct (0 ∷ (s.handed ++ free_pages))
  pub knows : (i : ℕ) → Knows s.handed s.mem (s.local i)

Knows-at :
    (handed : List ℕ) (mem : ℕ → ℕ) (local : ℕ → Local) (i : ℕ) (l : Local)
    → ((j : ℕ) → Knows handed mem (local j))
    → Knows handed mem l
    → (j : ℕ) → Knows handed mem (at local i l j)
Knows-at handed mem local i l all h j = elim (Bool-cases (i == j)) [
  | inl e ↦ rw e h
  | inr e ↦ rw e (all j)
]

Knows-cons :
    (handed : List ℕ) (mem : ℕ → ℕ) (q : ℕ) (l : Local)
    → Knows handed mem l
    → Knows (q ∷ handed) mem l
Knows-cons handed mem q idle h = h
Knows-cons handed mem q (loaded p) h = h
Knows-cons handed mem q (ready p n) (nz, inl old) = (nz, inl (inr old))
Knows-cons handed mem q (ready p n) (nz, inr same) = (nz, inr same)
Knows-cons handed mem q (won p) h = h

-- The holder of a page may write to it: whoever still has it loaded finds it handed out.
Knows-write :
    (handed : List ℕ) (mem : ℕ → ℕ) (a v : ℕ) (l : Local)
    → In a handed
    → Knows handed mem l
    → Knows handed (write mem a v) l
Knows-write handed mem a v idle i h = h
Knows-write handed mem a v (loaded p) i h = h
Knows-write handed mem a v (ready p n) i (nz, inl old) = (nz, inl old)
Knows-write handed mem a v (ready p n) i (nz, inr same) = elim (ℕ_discrete a p) [
  | yes e ↦ (nz, inl (subst (λ q. In q handed) e i))
  | no ne ↦ (nz, inr (ground arith))
]
Knows-write handed mem a v (won p) i h = h

-- The list after an exchange: the head was the first page, and what the thread had read is its `next`.
rest_of :
    (s : Shared) (p n : ℕ) (ps : List ℕ)
    → s.head ≡ p
    → Knows s.handed s.mem (ready p n)
    → Chain s.mem s.head ps
    → Distinct (0 ∷ (s.handed ++ ps))
    → (rest : List ℕ) × Chain s.mem n rest × Distinct (0 ∷ (p ∷ (s.handed ++ rest)))
rest_of s p n [] h (nz, k) c d = absurd (ground arith)
rest_of s p n (q ∷ ps) h (nz, k) (e, nz', c) (nd, d) = (
  ps,
  unread k,
  subst (λ x. Distinct (0 ∷ (x ∷ (s.handed ++ ps)))) same
      (NotIn-middle 0 q s.handed ps nd, Distinct-middle q s.handed ps d),
)
  where
    same : q ≡ p
    same = ground arith

    unread : In p s.handed ⊎ (s.mem p ≡ n) → Chain s.mem n ps
    unread (inl old) =
        absurd (ne_of_NotIn q p s.handed ps old (Distinct-middle q s.handed ps d).0 same)
    unread (inr next_is) = subst (λ x. Chain s.mem x ps) (ap s.mem same ∙ next_is) c

Step-Inv : {s t : Shared} → Step s t → Inv s → Inv t
Step-Inv (load s i e nz) v = record {
  free_pages = v.free_pages;
  chain = v.chain;
  distinct = v.distinct;
  knows = Knows-at s.handed s.mem s.local i (loaded s.head) v.knows nz;
}
Step-Inv (read_next s i p e) v = record {
  free_pages = v.free_pages;
  chain = v.chain;
  distinct = v.distinct;
  knows =
      Knows-at s.handed s.mem s.local i (ready p (s.mem p)) v.knows
        (subst (Knows s.handed s.mem) e (v.knows i), inr refl);
}
Step-Inv (exchange s i p n e h) v =
    let (rest, chain, distinct) =
      rest_of s p n v.free_pages h (subst (Knows s.handed s.mem) e (v.knows i)) v.chain
        v.distinct in
    record {
      free_pages = rest;
      chain = chain;
      distinct = distinct;
      knows =
          Knows-at (p ∷ s.handed) s.mem s.local i (won p)
            (λ j. Knows-cons s.handed s.mem p (s.local j) (v.knows j)) tt;
    }
Step-Inv (exchange_failed s i p n e) v = record {
  free_pages = v.free_pages;
  chain = v.chain;
  distinct = v.distinct;
  knows = Knows-at s.handed s.mem s.local i idle v.knows tt;
}
Step-Inv (count s i p e) v = record {
  free_pages = v.free_pages;
  chain = v.chain;
  distinct = v.distinct;
  knows = Knows-at s.handed s.mem s.local i idle v.knows tt;
}
Step-Inv (scribble s a w i) v = record {
  free_pages = v.free_pages;
  chain =
      Chain-write s.mem a w s.head v.free_pages
        (NotIn-append a (remove a s.handed) v.free_pages
          (Distinct-remove a s.handed v.free_pages i v.distinct.1).0)
        v.chain;
  distinct = v.distinct;
  knows = λ j. Knows-write s.handed s.mem a w (s.local j) i (v.knows j);
}

Reach-Inv : {s t : Shared} → Inv s → Reach s t → Inv t
Reach-Inv v here = v
Reach-Inv v (next r st) = Step-Inv st (Reach-Inv v r)

-- No interleaving hands a page to two threads, or NULL to one: from a list of pages with no thread
-- under way, the pages that exchanges have taken are distinct and none is NULL, whatever their holders
-- write to them.
pub handed-Distinct :
    {s t : Shared} (ps : List ℕ)
    → Chain s.mem s.head ps
    → Distinct (0 ∷ ps)
    → s.handed ≡ []
    → ((i : ℕ) → s.local i ≡ idle)
    → Reach s t
    → Distinct (0 ∷ t.handed)
handed-Distinct {s} {t} ps c d none_yet all_idle r =
    let v = Reach-Inv init r in
    (
      NotIn-prefix 0 t.handed v.free_pages v.distinct.0,
      Distinct-prefix t.handed v.free_pages v.distinct.1,
    )
  where
    init : Inv s
    init = record {
      free_pages = ps;
      chain = c;
      distinct = rw none_yet d;
      knows = λ i. rw (all_idle i) tt;
    }
