-- ===== src/Session/Valid/Append.antt =====
-- internal/agent/runtime/session/session.go: proofs on the `Append…` methods.
use oops.Prelude.{
  String, [], ◌∷◌, ◌++◌, true, false, ◌≡◌, refl, ◌⊎◌, inl, inr, ◌∙◌, ap, has, arith, ok, >>=-eq-ok,
}
use oops.Ai.Types.{Stdlib}
use oops.Session.Entry.{Entry, is_leaf, is_session_info, validate_entry, validate_named}
use oops.Session.Tree.{Session, path_to_leaf}
use oops.Session.Append.{Call, filled, prepare_entry, store_entry, append, generate_entry_id}
use oops.Session.Append.Ids.{generate_entry_id-fresh}
use oops.Session.Valid.{IsValid, known}
use oops.Session.Valid.Store.{
  CanStore, store_entry-IsValid, path_to_leaf-store_entry, path_to_leaf-store_entry_new,
  leaf_id-store_entry,
}

-- An entry as the `Append…` methods make them: its id and its parent are left to the session.
pub record IsNew (s : Session) (entry : Entry) : Type 0 where
  pub no_id : entry.id ≡ ""
  pub no_parent : entry.parent_id ≡ ""
  pub target : is_leaf entry.type ≡ true → known s.entries entry.leaf_id ≡ true

module _ (std : Stdlib) (call : Call) (s : Session) (entry : Entry) where
  prepared :
      {e : Entry}
      → prepare_entry std call s entry ≡ ok e
      → (e ≡ filled call s entry) × (validate_entry std e ≡ ok tt)
  unfolding prepare_entry
  prepared h = ground arith

  filled_id : entry.id ≡ "" → (filled call s entry).id ≡ generate_entry_id s.entries call.uuid
  unfolding filled
  filled_id h = rw h

  filled_parent :
      entry.parent_id ≡ ""
      → ((filled call s entry).parent_id ≡ "") ⊎ ((filled call s entry).parent_id ≡ s.leaf_id)
  unfolding filled
  filled_parent h = ground arith

  filled_parent_leaf :
      entry.parent_id ≡ ""
      → is_session_info entry.type ≡ false
      → is_leaf entry.type ≡ false
      → (filled call s entry).parent_id ≡ s.leaf_id
  unfolding filled
  filled_parent_leaf h i l = rw (i, l, h)

  filled_rest :
      ((filled call s entry).type ≡ entry.type)
      × ((filled call s entry).leaf_id ≡ entry.leaf_id)
      × ((filled call s entry).message ≡ entry.message)
  unfolding filled
  filled_rest = (refl, refl, refl)

  -- What `prepareEntryLocked` returns can be stored.
  pub CanStore-of_prepared :
      {e : Entry}
      → IsValid s
      → has (call.uuid 100) s.entries ≡ false
      → IsNew s entry
      → prepare_entry std call s entry ≡ ok e
      → CanStore s e
  CanStore-of_prepared {e} v fresh n h = record {
    new = rw (p.0, filled_id n.no_id) (generate_entry_id-fresh s.entries call.uuid fresh);
    named = validate_named std e p.1;
    parent = rw p.0 (elim (filled_parent n.no_parent) [ inl q ↦ rw q | inr q ↦ rw q v.leaf ]);
    target = rw p.0 (ground (arith, filled_rest, n.target));
  }
    where
      p : (e ≡ filled call s entry) × (validate_entry std e ≡ ok tt)
      p = prepared h

  pub append_parts :
      {r : Session × Entry}
      → append std call s entry ≡ ok r
      → (prepare_entry std call s entry ≡ ok r.1) × (r.0 ≡ store_entry std s r.1)
  unfolding append
  append_parts {r} h =
      let (e, p, q) =
        >>=-eq-ok (prepare_entry std call s entry) (λ e. ok (store_entry std s e, e)) h in
      ground arith

  -- An append that returns keeps the invariant.
  pub append-IsValid :
      {r : Session × Entry}
      → IsValid s
      → has (call.uuid 100) s.entries ≡ false
      → IsNew s entry
      → append std call s entry ≡ ok r
      → IsValid r.0
  append-IsValid {r} v fresh n h =
      let (p, e) = append_parts h in
      rw e (store_entry-IsValid std s r.1 v (CanStore-of_prepared v fresh n p))

  -- If a valid session appends a new entry, and the 101st UUID of the call is no id of the
  -- session, the path to every id known before is what it was.
  pub path_to_leaf-append :
      {r : Session × Entry} (id : String)
      → IsValid s
      → has (call.uuid 100) s.entries ≡ false
      → IsNew s entry
      → append std call s entry ≡ ok r
      → known s.entries id ≡ true
      → path_to_leaf r.0 id ≡ path_to_leaf s id
  path_to_leaf-append {r} id v fresh n h k =
      let (p, e) = append_parts h in
      rw e (path_to_leaf-store_entry std s r.1 v (CanStore-of_prepared v fresh n p) id k)

  -- If a valid session appends a new entry that is neither session info nor a leaf entry, and
  -- the 101st UUID of the call is no id of the session, then the path to the new leaf is the
  -- path to the old leaf with the stored entry behind.
  pub path_to_leaf-append_leaf :
      {r : Session × Entry}
      → IsValid s
      → has (call.uuid 100) s.entries ≡ false
      → IsNew s entry
      → is_session_info entry.type ≡ false
      → is_leaf entry.type ≡ false
      → append std call s entry ≡ ok r
      → path_to_leaf r.0 r.0.leaf_id ≡ path_to_leaf s s.leaf_id ++ r.1 ∷ []
  path_to_leaf-append_leaf {r} v fresh n i l h =
      let (p, e) = append_parts h in
      let c = CanStore-of_prepared v fresh n p in
      let (f, _) = prepared p in
      let i' : is_session_info r.1.type ≡ false = rw f (rw filled_rest.0 i) in
      let l' : is_leaf r.1.type ≡ false = rw f (rw filled_rest.0 l) in
      let at : r.0.leaf_id ≡ r.1.id = rw e (leaf_id-store_entry std s r.1 v c i' l') in
      let parent : r.1.parent_id ≡ s.leaf_id = rw f (filled_parent_leaf n.no_parent i l) in
      ap (path_to_leaf r.0) at
      ∙ ap (λ t. path_to_leaf t r.1.id) e
      ∙ path_to_leaf-store_entry_new std s r.1 v c
      ∙ ap (λ k. path_to_leaf s k ++ r.1 ∷ []) parent
