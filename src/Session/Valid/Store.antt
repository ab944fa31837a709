-- ===== src/Session/Valid/Store.antt =====
-- internal/agent/runtime/session/session.go: proofs on `storeEntryLocked`.
use oops.Prelude.{
  String, List, [], ◌∷◌, ◌++◌, some, true, false, ◌||◌, ◌≡◌, ◌∙◌, sym, ap, lookup, has, contains,
  str_eq, arith, eq_iff, has-insert, lookup-insert, contains-append, distinct-snoc,
  lookup-none_of_has, Bool-cases, ◌⊎◌, inl, inr, subst,
}
use oops.Ai.Types.{Stdlib}
use oops.Session.Entry.{Entry, is_leaf, is_session_info}
use oops.Session.Tree.{Session, path_to_leaf}
use oops.Session.Tree.Chain.{Chain, child, Chain-insert, path_in-eq-Chain}
use oops.Session.Append.{store_entry}
use oops.Session.Valid.{IsValid, known}

-- What the callers of `storeEntryLocked` have checked: a new id, a known parent, a known target of
-- a leaf entry.
pub record CanStore (s : Session) (e : Entry) : Type 0 where
  pub new : has e.id s.entries ≡ false
  pub named : str_eq e.id "" ≡ false
  pub parent : known s.entries e.parent_id ≡ true
  pub target : is_leaf e.type ≡ true → known s.entries e.leaf_id ≡ true

module _ (std : Stdlib) (s : Session) (e : Entry) (v : IsValid s) (c : CanStore s e) where
  pub order : (store_entry std s e).order ≡ s.order ++ e.id ∷ []
  unfolding store_entry
  order = ground (arith, c.new)

  pub stored_has :
      (id : String) → has id (store_entry std s e).entries ≡ (str_eq e.id id || has id s.entries)
  unfolding store_entry
  stored_has id = has-insert e.id id e s.entries

  keyed :
      (id : String) → contains id (store_entry std s e).order ≡ has id (store_entry std s e).entries
  keyed id =
      rw (order, contains-append id s.order (e.id ∷ [])) (ground (arith, v.keyed id, stored_has id))

  own : (id : String) (x : Entry) → lookup id (store_entry std s e).entries ≡ some x → x.id ≡ id
  unfolding store_entry
  own id x h = ground (arith, v.own id x, lookup-insert e.id id e s.entries, eq_iff e.id id)

  -- A known id keeps its chain, and the new entry hangs under its parent.
  pub kept :
      {id : String} {path : List Entry}
      → Chain s.entries id path
      → Chain (store_entry std s e).entries id path
  unfolding store_entry
  kept ch = Chain-insert e.id e (lookup-none_of_has e.id s.entries c.new) ch

  pub below :
      {path : List Entry}
      → Chain s.entries e.parent_id path
      → Chain (store_entry std s e).entries e.id (path ++ e ∷ [])
  below ch =
      child e c.named (unfold store_entry in rw lookup-insert (ground (arith, eq_iff e.id e.id)))
        (kept ch)

  rooted :
      (id : String)
      → known (store_entry std s e).entries id ≡ true
      → (path : List Entry) × Chain (store_entry std s e).entries id path
  rooted id h = elim (Bool-cases (str_eq e.id id)) [
    | inl same ↦
        let (path, ch) = v.rooted e.parent_id c.parent in
        (
          path ++ e ∷ [],
          subst (λ i. Chain (store_entry std s e).entries i (path ++ e ∷ []))
              ((eq_iff e.id id).0 same) (below ch),
        )
    | inr other ↦ let (path, ch) = v.rooted id (ground (arith, stored_has id)) in (path, kept ch)
  ]

  leaf_is :
      ((store_entry std s e).leaf_id ≡ s.leaf_id)
      ⊎ ((store_entry std s e).leaf_id ≡ e.id)
      ⊎ ((is_leaf e.type ≡ true) × ((store_entry std s e).leaf_id ≡ e.leaf_id))
  unfolding store_entry
  leaf_is = ground arith

  leaf : known (store_entry std s e).entries (store_entry std s e).leaf_id ≡ true
  leaf = ground (
    arith,
    leaf_is,
    stored_has s.leaf_id,
    stored_has e.id,
    stored_has e.leaf_id,
    v.leaf,
    c.target,
    eq_iff e.id e.id,
  )

  pub store_entry-IsValid : IsValid (store_entry std s e)
  store_entry-IsValid = record {
    keyed = keyed;
    once = rw order (distinct-snoc s.order e.id v.once (v.keyed e.id ∙ c.new));
    own = own;
    named = ground (arith, stored_has "", v.named, c.named);
    rooted = rooted;
    leaf = leaf;
  }

  -- Storing an entry changes no path that was there.
  pub path_to_leaf-store_entry :
      (id : String)
      → known s.entries id ≡ true
      → path_to_leaf (store_entry std s e) id ≡ path_to_leaf s id
  unfolding path_to_leaf
  path_to_leaf-store_entry id h =
      let (path, ch) = v.rooted id h in path_in-eq-Chain (kept ch) ∙ sym (path_in-eq-Chain ch)

  -- The path of the new entry is its parent's, with the entry behind.
  pub path_to_leaf-store_entry_new :
      path_to_leaf (store_entry std s e) e.id ≡ path_to_leaf s e.parent_id ++ e ∷ []
  unfolding path_to_leaf
  path_to_leaf-store_entry_new =
      let (path, ch) = v.rooted e.parent_id c.parent in
      path_in-eq-Chain (below ch) ∙ ap (λ l. l ++ e ∷ []) (sym (path_in-eq-Chain ch))

  pub leaf_id-store_entry :
      is_session_info e.type ≡ false → is_leaf e.type ≡ false → (store_entry std s e).leaf_id ≡ e.id
  unfolding store_entry
  leaf_id-store_entry i l = rw (i, l)
