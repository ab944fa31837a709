-- ===== src/Session/Tree/Chain.antt =====
-- internal/agent/runtime/session/session.go: the path of an entry whose ancestors are all in
-- the session.
use oops.Prelude.{
  ◌<◌, String, none, some, List, [], ◌∷◌, ◌++◌, true, false, ◌≡◌, ◌∙◌, refl, sym, ap, subst,
  Bool-cases, inl, inr, Dict, lookup, has, has_of_lookup, ◌||◌, insert, length, length-append,
  contains, str_eq, arith, eq_iff, lookup-insert,
}
use oops.Session.Entry.{Entry}
use oops.Session.Tree.{path_in}
use oops.Session.Tree.Walk.{Walk, stop, missing, up, path_in-Walk}

-- `Chain m id path`: from the entry `id` every parent is in the map, up to an entry with no parent;
-- `path` lists them from that root down to `id`. The empty id has the empty path.
pub data Chain (m : Dict Entry) : String → List Entry → Type 0 where
  root : {id : String} → str_eq id "" ≡ true → Chain m id []
  child :
      {id : String} (entry : Entry) {path : List Entry}
      → str_eq id "" ≡ false
      → lookup id m ≡ some entry
      → Chain m entry.parent_id path
      → Chain m id (path ++ entry ∷ [])

pub Chain-unique :
    {m : Dict Entry} {id : String} {p q : List Entry} → Chain m id p → Chain m id q → p ≡ q
Chain-unique (root h) (root k) = refl
Chain-unique (root h) (child e k l c) = cc
Chain-unique (child e k l c) (root h) = cc
Chain-unique {m} (child a {path = p} k l c) (child b {path = q} k' l' c') =
    let e : a ≡ b = cc in
    let c'' : Chain m a.parent_id q = subst (λ (x : Entry). Chain m x.parent_id q) (sym e) c' in
    cc (e, Chain-unique c c'')

-- No id that the walk has seen lies on the rest of the chain: its own chain is longer.
abbrev pub Above : Dict Entry → List String → List Entry → Type 0
Above m seen q =
    (k : String) (r : List Entry) → contains k seen ≡ true → Chain m k r → length q < length r

pub Above-next :
    {m : Dict Entry} (seen : List String) {id : String} (entry : Entry) (q : List Entry)
    → Chain m id (q ++ entry ∷ [])
    → Above m seen (q ++ entry ∷ [])
    → Above m (id ∷ seen) q
Above-next {m} seen {id} entry q c above k r h d = elim (Bool-cases (str_eq id k)) [
  | inl e ↦
      let same : id ≡ k = (eq_iff id k).0 e in
      let eq : q ++ entry ∷ [] ≡ r =
        Chain-unique (subst (λ i. Chain m i (q ++ entry ∷ [])) same c) d in
      omega (arith, ap length eq, length-append q (entry ∷ []))
  | inr e ↦ omega (arith, above k r (ground arith) d, length-append q (entry ∷ []))
]

Walk-eq-Chain :
    {m : Dict Entry} {seen : List String} {id : String} {p q : List Entry}
    → Walk m seen id p
    → Chain m id q
    → Above m seen q
    → p ≡ q
Walk-eq-Chain (stop h) (root k) above = refl
Walk-eq-Chain {id = id} (stop h) (child e {path} k l c) above =
    absurd (omega (arith, above id (path ++ e ∷ []) (ground arith) (child e k l c)))
Walk-eq-Chain (missing h) (root k) above = refl
Walk-eq-Chain (missing h) (child e k l c) above = cc
Walk-eq-Chain (up a h l w) (root k) above = ground arith
Walk-eq-Chain {m} {seen} {id} (up a {path = p} h l w) (child b {path = q} k l' c) above =
    let e : b ≡ a = cc in
    let c' : Chain m a.parent_id q = subst (λ (x : Entry). Chain m x.parent_id q) e c in
    let above' = Above-next seen b q (child b k l' c) above in cc (e, Walk-eq-Chain w c' above')

-- On a chain the walk returns the whole chain.
pub path_in-eq-Chain :
    {m : Dict Entry} {id : String} {path : List Entry} → Chain m id path → path_in m id ≡ path
path_in-eq-Chain {m} {id} c = Walk-eq-Chain (path_in-Walk m id) c (λ k r h d. cc)

-- A write under a new key leaves every chain as it is.
pub Chain-insert :
    (k : String) (v : Entry) {m : Dict Entry} {id : String} {path : List Entry}
    → lookup k m ≡ none
    → Chain m id path
    → Chain (insert k v m) id path
Chain-insert k v new (root h) = root h
Chain-insert k v {m} {id} new (child e h l c) =
    child e h (rw lookup-insert (ground (arith, eq_iff k id))) (Chain-insert k v new c)

pub Chain-known :
    {m : Dict Entry} {id : String} {path : List Entry}
    → Chain m id path
    → (str_eq id "" || has id m) ≡ true
Chain-known (root h) = rw h
Chain-known {m} {id} (child e h l c) = ground (arith, has_of_lookup id m l)

-- The part of a chain above its last entry.
pub Chain-parent :
    {m : Dict Entry} {id : String} {path : List Entry} {e : Entry}
    → Chain m id path
    → lookup id m ≡ some e
    → str_eq id "" ≡ false
    → (above : List Entry) × Chain m e.parent_id above × (path ≡ above ++ e ∷ [])
Chain-parent (root h) l n = cc
Chain-parent {m} {e = e} (child a {path} h l' c) l n =
    let same : a ≡ e = cc in
    (path, subst (λ (x : Entry). Chain m x.parent_id path) same c, ap (λ x. path ++ x ∷ []) same)

-- Two maps that agree on every key have the same chains.
pub Chain-map :
    {m n : Dict Entry} {id : String} {path : List Entry}
    → ((k : String) → lookup k n ≡ lookup k m)
    → Chain m id path
    → Chain n id path
Chain-map {m} {n} {id} same (root h) = root h
Chain-map {m} {n} {id} same (child e h l c) = child e h (same id ∙ l) (Chain-map same c)
