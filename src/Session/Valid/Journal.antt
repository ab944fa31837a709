-- ===== src/Session/Valid/Journal.antt =====
-- internal/agent/runtime/session/session.go: proofs on a session and the list of its entries.
use oops.Prelude.{
  String, List, [], ◌∷◌, ◌++◌, false, ◌≡◌, refl, sym, ap, ap₂, ◌∙◌, Dict, has, contains, arith,
  eq_iff, subst, ok, map, insert, lookup-insert, bind-ok, bind_assoc_at, ◌>>=◌,
}
use mathlib.Core.List.{map-append}
use oops.Ai.Types.{Stdlib}
use oops.Session.Entry.{Entry, validate_entry}
use oops.Session.Tree.{Session, entries, entry_at, validate_compaction_reference}
use oops.Session.Append.{Call, store_entry, prepare_entry, append}
use oops.Session.Load.{candidate, load_entry, load_entries}
use oops.Session.Valid.{IsValid}
use oops.Session.Valid.Append.{IsNew, append_parts, CanStore-of_prepared}
use oops.Session.Valid.Store.{CanStore, order}

map-entry_at :
    (k : String) (v : Entry) (m : Dict Entry) (ids : List String)
    → contains k ids ≡ false
    → map (entry_at (insert k v m)) ids ≡ map (entry_at m) ids
map-entry_at k v m [] h = refl
map-entry_at k v m (id ∷ ids) h =
    let other : entry_at (insert k v m) id ≡ entry_at m id =
      ground (arith, lookup-insert k id v m, eq_iff id k, eq_iff k id) in
    cc (other, map-entry_at k v m ids (ground arith))

entry_at-insert_self : (k : String) (v : Entry) (m : Dict Entry) → entry_at (insert k v m) k ≡ v
entry_at-insert_self k v m = ground (arith, lookup-insert k k v m, eq_iff k k)

module _ (std : Stdlib) (s : Session) (e : Entry) (v : IsValid s) (c : CanStore s e) where
  -- One entry stored is one entry more at the end of the list.
  pub entries-store_entry : entries (store_entry std s e) ≡ entries s ++ e ∷ []
  unfolding entries store_entry
  entries-store_entry =
      let m = insert e.id e s.entries in
      ap (map (entry_at m)) (order std s e v c)
      ∙ map-append (entry_at m) s.order (e.id ∷ [])
      ∙ ap₂ (λ xs x. xs ++ x ∷ []) (map-entry_at e.id e s.entries s.order (v.keyed e.id ∙ c.new))
          (entry_at-insert_self e.id e s.entries)

-- What the entries determine: all but the id, the leaf, which `MoveTo` sets without an entry, and
-- the times.
pub record SameContent (c s : Session) : Type 0 where
  pub entries : c.entries ≡ s.entries
  pub order : c.order ≡ s.order
  pub labels_by_id : c.labels_by_id ≡ s.labels_by_id
  pub cwd : c.cwd ≡ s.cwd
  pub project_id : c.project_id ≡ s.project_id
  pub name : c.name ≡ s.name
  pub title : c.title ≡ s.title

-- The session's entries load, and give its content.
pub record Journals (std : Stdlib) (s : Session) : Type 0 where
  pub loaded : Session
  pub loads : load_entries std (candidate s.id) (entries s) ≡ ok loaded
  pub same : SameContent loaded s

module _ (std : Stdlib) where
  load_entries-snoc :
      (s : Session) (all : List Entry) (e : Entry)
      → load_entries std s (all ++ e ∷ []) ≡ (load_entries std s all >>= λ t. load_entry std t e)
  unfolding load_entries
  load_entries-snoc s [] e = bind-ok (load_entry std s e)
  load_entries-snoc s (x ∷ all) e =
      bind_assoc_at (load_entry std s x) (λ t. load_entries std t (all ++ e ∷ []))
        (λ t. load_entries std t all) (λ t. load_entry std t e) (λ t. load_entries-snoc t all e)

  SameContent-store_entry :
      {c s : Session} (e : Entry)
      → SameContent c s
      → SameContent (store_entry std c e) (store_entry std s e)
  unfolding store_entry
  SameContent-store_entry e h = record {
    entries = ap (insert e.id e) h.entries;
    order = ground (arith, h.order, h.entries);
    labels_by_id = ground (arith, h.labels_by_id);
    cwd = ground (arith, h.cwd);
    project_id = ground (arith, h.project_id);
    name = ground (arith, h.name);
    title = ground (arith, h.title);
  }

  prepared_checks :
      (call : Call) (s : Session) (entry e : Entry)
      → prepare_entry std call s entry ≡ ok e
      → (validate_entry std e ≡ ok tt) × (validate_compaction_reference s e ≡ ok tt)
  unfolding prepare_entry
  prepared_checks call s entry e h = ground arith

  same_reference :
      (c s : Session) (e : Entry)
      → c.entries ≡ s.entries
      → validate_compaction_reference c e ≡ validate_compaction_reference s e
  unfolding validate_compaction_reference
  same_reference c s e h = ap (λ m. validate_compaction_reference (record c { entries = m }) e) h

  -- What `prepareEntryLocked` has checked, `loadEntryLocked` accepts.
  load_prepared :
      (c s : Session) (call : Call) (entry e : Entry)
      → SameContent c s
      → CanStore s e
      → prepare_entry std call s entry ≡ ok e
      → load_entry std c e ≡ ok (store_entry std c e)
  unfolding load_entry
  load_prepared c s call entry e same can p =
      let checks = prepared_checks call s entry e p in
      ground (arith, checks, same_reference c s e same.entries)

  -- If a valid session whose entries load to its content appends a new entry, and the 101st
  -- UUID of the call is no id of the session, then its list of entries has exactly the stored
  -- entry more, at the end, and still loads to its content.
  pub append-Journals :
      (call : Call) (s : Session) (entry : Entry) {r : Session × Entry}
      → IsValid s
      → has (call.uuid 100) s.entries ≡ false
      → IsNew s entry
      → append std call s entry ≡ ok r
      → Journals std s
      → (entries r.0 ≡ entries s ++ r.1 ∷ []) × Journals std r.0
  append-Journals call s entry {r} v fresh n h j =
      let (p, e) = append_parts std call s entry h in
      let can = CanStore-of_prepared std call s entry v fresh n p in
      let listed : entries r.0 ≡ entries s ++ r.1 ∷ [] =
        ap entries e ∙ entries-store_entry std s r.1 v can in
      let stored = load_prepared j.loaded s call entry r.1 j.same can p in
      let id : r.0.id ≡ s.id = ap (λ (t : Session). t.id) e ∙ (unfold store_entry in refl) in
      (
        listed,
        record {
          loaded = store_entry std j.loaded r.1;
          loads =
              ap₂ (λ i all. load_entries std (candidate i) all) id listed
              ∙ load_entries-snoc (candidate s.id) (entries s) r.1
              ∙ ap (λ m. m >>= λ t. load_entry std t r.1) j.loads
              ∙ stored;
          same =
              subst (SameContent (store_entry std j.loaded r.1)) (sym e)
                (SameContent-store_entry r.1 j.same);
        },
      )
