-- ===== src/Session/Valid/Load.antt =====
-- internal/agent/runtime/session/session.go: proofs on `Load`.
use oops.Prelude.{
  String, List, [], ◌∷◌, some, true, ◌≡◌, refl, Dict, lookup, has, arith, subst, ok, >>=-eq-ok,
}
use oops.Ai.Types.{Stdlib}
use oops.Session.Entry.{Entry, validate_entry, validate_named}
use oops.Session.Tree.{Session}
use oops.Session.Tree.Chain.{root}
use oops.Session.Append.{store_entry}
use oops.Session.Load.{candidate, load_entry, load_entries, validate_loaded_history, publish, load}
use oops.Session.Context.{executable_leaf}
use oops.Session.Valid.{IsValid, known}
use oops.Session.Valid.Store.{CanStore, store_entry-IsValid}
use oops.Session.Valid.Leaf.{executable_leaf-known}

-- A session without entries, whatever else it holds.
pub blank-IsValid : (s : Session) → s.entries ≡ [] → s.order ≡ [] → s.leaf_id ≡ "" → IsValid s
unfolding has lookup
blank-IsValid s e o l = record {
  keyed = λ id. rw (e, o);
  once = rw o;
  own = λ id x h. let h' = subst (λ (m : Dict Entry). lookup id m ≡ some x) e h in cc;
  named = rw e;
  rooted = λ id h.
      let h' = subst (λ (m : Dict Entry). known m id ≡ true) e h in ([], root (ground arith));
  leaf = rw l;
}

module _ (std : Stdlib) where
  -- What `loadEntryLocked` has checked when it stores an entry.
  pub load_entry_stores :
      (s : Session) (e : Entry) {t : Session}
      → load_entry std s e ≡ ok t
      → (t ≡ store_entry std s e) × (validate_entry std e ≡ ok tt)
  unfolding load_entry
  load_entry_stores s e h = ground arith

  pub load_entry-CanStore :
      (s : Session) (e : Entry) {t : Session} → load_entry std s e ≡ ok t → CanStore s e
  unfolding load_entry
  load_entry-CanStore s e h = record {
    new = ground arith;
    named = validate_named std e (ground arith);
    parent = ground arith;
    target = λ l. ground arith;
  }

  pub load_entries-IsValid :
      (s : Session) (all : List Entry) {t : Session}
      → IsValid s
      → load_entries std s all ≡ ok t
      → IsValid t
  unfolding load_entries
  load_entries-IsValid s [] {t} v h = let e : s ≡ t = ground arith in subst IsValid e v
  load_entries-IsValid s (e ∷ rest) v h =
      let (u, p, q) = >>=-eq-ok (load_entry std s e) (λ u. load_entries std u rest) h in
      let valid : IsValid u =
        rw (load_entry_stores s e p).0
          (store_entry-IsValid std s e v (load_entry-CanStore s e p)) in
      load_entries-IsValid u rest valid q

  load_parts :
      (s : Session) (all : List Entry) {t : Session}
      → load std s all ≡ ok t
      → (c : Session) × (load_entries std (candidate s.id) all ≡ ok c)
        × (validate_loaded_history std c ≡ ok tt)
        × (t ≡ publish s (record c { leaf_id = executable_leaf std c c.leaf_id }))
  unfolding load
  load_parts s all h = ground arith

  moved-IsValid :
      (c s : Session) (leaf_id : String)
      → IsValid c
      → known c.entries leaf_id ≡ true
      → IsValid (publish s (record c { leaf_id = leaf_id }))
  moved-IsValid c s leaf_id v k = record {
    keyed = v.keyed;
    once = v.once;
    own = v.own;
    named = v.named;
    rooted = v.rooted;
    leaf = k;
  }

  -- Whatever list of entries `Load` accepts, the session that it publishes is valid.
  pub load-IsValid :
      (s : Session) (all : List Entry) {t : Session} → load std s all ≡ ok t → IsValid t
  load-IsValid s all h =
      let (c, p, q, e) = load_parts s all h in
      let v =
        load_entries-IsValid (candidate s.id) all (blank-IsValid (candidate s.id) refl refl refl)
          p in
      rw e (
        moved-IsValid c s (executable_leaf std c c.leaf_id) v
          (executable_leaf-known c v std c.leaf_id v.leaf))
