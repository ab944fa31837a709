-- ===== src/Session/Valid/Reach.antt =====
-- internal/agent/runtime/session/session.go: the writes of a session as steps, and proofs on
-- the sessions that they reach.
use oops.Prelude.{ℕ, String, true, false, ◌≡◌, refl, has, arith, ok}
use oops.Ai.Types.{Stdlib}
use oops.Session.Entry.{Entry, EntryType, zero_entry, is_leaf}
use oops.Session.Tree.{Session, new, entries}
use oops.Session.Append.{Call, append, append_leaf, move_to}
use oops.Session.Load.{load_entries, candidate}
use oops.Session.Valid.{IsValid, known}
use oops.Session.Valid.Append.{IsNew, append-IsValid}
use oops.Session.Valid.Load.{blank-IsValid}
use oops.Session.Valid.Journal.{Journals, append-Journals}

-- One call of a method that writes. A call draws UUIDs of which the 101st is no id of the session;
-- the entry is one that an `Append…` method makes, with neither id nor parent.
pub data Step (std : Stdlib) : Session → Session → Type 0 where
  append_entry :
      {s t : Session} (call : Call) (entry : Entry) {e : Entry}
      → has (call.uuid 100) s.entries ≡ false
      → entry.id ≡ ""
      → entry.parent_id ≡ ""
      → is_leaf entry.type ≡ false
      → append std call s entry ≡ ok (t, e)
      → Step std s t
  point :
      {s t : Session} (call : Call) (leaf_id : String) {e : Entry}
      → has (call.uuid 100) s.entries ≡ false
      → append_leaf std call s leaf_id ≡ ok (t, e)
      → Step std s t
  move : {s t : Session} (now : ℕ) (leaf_id : String) → move_to now s leaf_id ≡ ok t → Step std s t

-- The sessions that the writes make of a new one.
pub data Reach (std : Stdlib) : Session → Type 0 where
  start : (id uuid : String) (now : ℕ) → Reach std (new id uuid now)
  step : {s t : Session} → Reach std s → Step std s t → Reach std t

pub record Good (std : Stdlib) (s : Session) : Type 0 where
  pub valid : IsValid s
  pub journals : Journals std s

abbrev leaf_entry : String → Entry
leaf_entry leaf_id = record zero_entry { type = EntryType.leaf; leaf_id = leaf_id }

module _ (std : Stdlib) where
  new-Good : (id uuid : String) (now : ℕ) → Good std (new id uuid now)
  unfolding new entries load_entries
  new-Good id uuid now = record {
    valid = blank-IsValid (new id uuid now) refl refl refl;
    journals = record {
      loaded = candidate (new id uuid now).id;
      loads = refl;
      same = record {
        entries = refl;
        order = refl;
        labels_by_id = refl;
        cwd = refl;
        project_id = refl;
        name = refl;
        title = refl;
      };
    };
  }

  append-Good :
      (call : Call) (s : Session) (entry : Entry) {r : Session × Entry}
      → has (call.uuid 100) s.entries ≡ false
      → IsNew s entry
      → append std call s entry ≡ ok r
      → Good std s
      → Good std r.0
  append-Good call s entry fresh n h g = record {
    valid = append-IsValid std call s entry g.valid fresh n h;
    journals = (append-Journals std call s entry g.valid fresh n h g.journals).1;
  }

  append_leaf_parts :
      (call : Call) (s : Session) (leaf_id : String) {r : Session × Entry}
      → append_leaf std call s leaf_id ≡ ok r
      → (known s.entries leaf_id ≡ true) × (append std call s (leaf_entry leaf_id) ≡ ok r)
  unfolding append_leaf
  append_leaf_parts call s leaf_id h = (ground arith, ground arith)

  move_to_parts :
      (now : ℕ) (s : Session) (leaf_id : String) {t : Session}
      → move_to now s leaf_id ≡ ok t
      → (known s.entries leaf_id ≡ true) × (t ≡ record s { leaf_id = leaf_id; updated_at = now })
  unfolding move_to
  move_to_parts now s leaf_id h = (ground arith, ground arith)

  moved-Good :
      (s : Session) (leaf_id : String) (now : ℕ)
      → known s.entries leaf_id ≡ true
      → Good std s
      → Good std (record s { leaf_id = leaf_id; updated_at = now })
  unfolding entries
  moved-Good s leaf_id now k g = record {
    valid = record {
      keyed = v.keyed;
      once = v.once;
      own = v.own;
      named = v.named;
      rooted = v.rooted;
      leaf = k;
    };
    journals = record {
      loaded = j.loaded;
      loads = j.loads;
      same = record {
        entries = j.same.entries;
        order = j.same.order;
        labels_by_id = j.same.labels_by_id;
        cwd = j.same.cwd;
        project_id = j.same.project_id;
        name = j.same.name;
        title = j.same.title;
      };
    };
  }
    where
      v : IsValid s
      v = g.valid

      j : Journals std s
      j = g.journals

  Step-Good : {s t : Session} → Step std s t → Good std s → Good std t
  Step-Good {s} (append_entry call entry fresh i p l h) g =
      append-Good call s entry fresh (record { no_id = i; no_parent = p; target = λ y. cc }) h g
  Step-Good {s} (point call leaf_id fresh h) g =
      let (k, a) = append_leaf_parts call s leaf_id h in
      append-Good call s (leaf_entry leaf_id) fresh
        (record { no_id = refl; no_parent = refl; target = λ y. k }) a g
  Step-Good {s} (move now leaf_id h) g =
      let (k, e) = move_to_parts now s leaf_id h in rw e (moved-Good s leaf_id now k g)

  -- Every session that appends, leaf entries and moves make of a new session, where the 101st
  -- UUID of each call is no id of the session, is valid (order and entries have the same ids,
  -- each once; entries stand under their own ids; every id leads up to a root; the leaf is
  -- known), and its entries, loaded one after the other, give the same entries, order, labels
  -- and metadata.
  pub Reach-Good : {s : Session} → Reach std s → Good std s
  Reach-Good (start id uuid now) = new-Good id uuid now
  Reach-Good (step r st) = Step-Good st (Reach-Good r)
