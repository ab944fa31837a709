-- ===== src/Session/Valid/Fork.antt =====
-- internal/agent/runtime/session/session.go: proofs on the copy of a path, for `Fork`.
use oops.Prelude.{
  ◌≤◌, String, List, [], ◌∷◌, ◌++◌, some, true, false, ◌≡◌, refl, sym, ap, ◌∙◌, Dict, lookup, has,
  contains, str_eq, arith, eq_iff, subst, map, All, All-snoc, length, length-append, Bool-cases,
  inl, inr, contains-append,
}
use mathlib.Core.List.{map-append}
use oops.Ai.Types.{Stdlib}
use oops.Session.Entry.{Entry, is_leaf}
use oops.Session.Tree.{Session}
use oops.Session.Tree.Chain.{Chain, root, child, Chain-unique, Chain-known}
use oops.Session.Append.{store_entry}
use oops.Session.Fork.{store_all}
use oops.Session.Valid.{IsValid}
use oops.Session.Valid.Store.{CanStore, store_entry-IsValid, below, stored_has}

abbrev pub ids : List Entry → List String
ids = map (λ (e : Entry). e.id)

abbrev pub NoLeaf : Entry → Type 0
NoLeaf e = is_leaf e.type ≡ false

-- The entries of a map are stored under their own ids.
abbrev pub Own : Dict Entry → Type 0
Own m = (id : String) (e : Entry) → lookup id m ≡ some e → e.id ≡ id

-- Each id on a chain has a chain of its own, which is no longer.
chain_of_id :
    {m : Dict Entry} {id : String} {path : List Entry} (k : String)
    → Own m
    → Chain m id path
    → contains k (ids path) ≡ true
    → (r : List Entry) × Chain m k r × (length r ≤ length path)
chain_of_id k own (root h) c = cc
chain_of_id {m} {id} k own (child e {path} n l c) h = elim (Bool-cases (contains k (ids path))) [
  | inl above ↦
      let (r, d, le) = chain_of_id k own c above in
      (r, d, omega (arith, le, length-append path (e ∷ [])))
  | inr last ↦
      let same : e.id ≡ k = (eq_iff e.id k).0 (
        ground (
          arith,
          last,
          map-append (λ (x : Entry). x.id) path (e ∷ []),
          contains-append k (ids path) (e.id ∷ []),
        )) in
      let here : id ≡ k = sym (own id e l) ∙ same in
      (path ++ e ∷ [], subst (λ i. Chain m i (path ++ e ∷ [])) here (child e n l c), omega arith)
]

-- So the last entry of a chain is not on the part above it.
not_above :
    {m : Dict Entry} (id : String) (e : Entry) {path : List Entry}
    → Own m
    → str_eq id "" ≡ false
    → lookup id m ≡ some e
    → Chain m e.parent_id path
    → contains e.id (ids path) ≡ false
not_above {m} id e {path} own n l c = elim (Bool-cases (contains e.id (ids path))) [
  | inr no_copy ↦ no_copy
  | inl copy ↦
      let (r, d, le) = chain_of_id e.id own c copy in
      let whole : Chain m e.id (path ++ e ∷ []) =
        subst (λ i. Chain m i (path ++ e ∷ [])) (sym (own id e l)) (child e n l c) in
      absurd (omega (arith, le, ap length (Chain-unique whole d), length-append path (e ∷ [])))
]

store_all-snoc :
    (std : Stdlib) (f : Session) (path : List Entry) (e : Entry)
    → store_all std f (path ++ e ∷ []) ≡ store_entry std (store_all std f path) e
unfolding store_all
store_all-snoc std f [] e = refl
store_all-snoc std f (x ∷ path) e = store_all-snoc std (store_entry std f x) path e

-- The copy of a path into a session without entries.
pub record Copy (std : Stdlib) (f : Session) (id : String) (path : List Entry) : Type 0 where
  pub valid : IsValid (store_all std f path)
  pub chain : Chain (store_all std f path).entries id path
  pub holds : (k : String) → has k (store_all std f path).entries ≡ contains k (ids path)

module _ (std : Stdlib) (f : Session) (empty : f.entries ≡ []) (v : IsValid f) where
  Copy-root : {id : String} → str_eq id "" ≡ true → Copy std f id []
  unfolding store_all has
  Copy-root h = record { valid = v; chain = root h; holds = λ k. rw empty }

  Copy-child :
      {m : Dict Entry} (id : String) (e : Entry) {path : List Entry}
      → Own m
      → str_eq id "" ≡ false
      → lookup id m ≡ some e
      → is_leaf e.type ≡ false
      → Chain m e.parent_id path
      → Copy std f e.parent_id path
      → Copy std f id (path ++ e ∷ [])
  Copy-child {m} id e {path} own n l leaf c copy =
      let g = store_all std f path in
      let here : e.id ≡ id = own id e l in
      let can : CanStore g e = record {
        new = copy.holds e.id ∙ not_above id e own n l c;
        named = rw here n;
        parent = Chain-known copy.chain;
        target = λ y. cc (y, leaf);
      } in
      let snoc = store_all-snoc std f path e in
      record {
        valid = rw snoc (store_entry-IsValid std g e copy.valid can);
        chain = rw snoc (
            subst (λ i. Chain (store_entry std g e).entries i (path ++ e ∷ [])) here
              (below std g e copy.valid can copy.chain));
        holds = λ k. rw snoc (
            ground (
              arith,
              stored_has std g e copy.valid can k,
              copy.holds k,
              contains-append k (ids path) (e.id ∷ []),
              map-append (λ (x : Entry). x.id) path (e ∷ []),
            ));
      }

  pub copy_lem :
      {m : Dict Entry} {id : String} {path : List Entry}
      → Own m
      → All NoLeaf path
      → Chain m id path
      → Copy std f id path
  copy_lem own no_leaf (root h) = Copy-root h
  copy_lem own no_leaf (child {id} e {path} n l c) =
      let (above, leaf) = All-snoc NoLeaf path e no_leaf in
      Copy-child id e own n l leaf c (copy_lem own above c)
