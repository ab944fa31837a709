-- ===== src/Session/Tree.antt =====
-- internal/agent/runtime/session/session.go: the state of a session, and the walk from an entry to
-- the root. `cloneEntry` copies what the map holds, so that callers cannot write to it; in a model
-- of values it is the identity.
pub mod Walk
pub mod Chain
use oops.Prelude.{
  ℕ, zero, suc, ◌+◌, String, Option, none, some, List, [], ◌∷◌, map, keep, Bool, true, false, not,
  ◌&&◌, ◌||◌, Dict, lookup, insert, remove, has, length, contains, str_eq, ltb, ◌==◌, if◌then◌else◌,
  Result, ok, err, ◌>>◌, fail_if,
}
use oops.Session.Entry.{
  Entry, zero_entry, Error, is_compaction, first_kept_unknown, first_kept_not_on_path,
}

pub record Session : Type 0 where
  pub id : String
  pub cwd : String
  pub project_id : String
  pub name : String
  pub title : String
  pub entries : Dict Entry
  pub order : List String
  pub labels_by_id : Dict String
  pub leaf_id : String
  pub created_at : ℕ
  pub updated_at : ℕ

-- The fields that the code leaves out of a composite literal are zero.
abbrev pub blank : String → ℕ → Session
blank id at = record {
  id = id;
  cwd = "";
  project_id = "";
  name = "";
  title = "";
  entries = [];
  order = [];
  labels_by_id = [];
  leaf_id = "";
  created_at = at;
  updated_at = at;
}

-- `New`: an empty id is replaced by a UUID.
unfoldable pub new : (id uuid : String) → (now : ℕ) → Session
new id uuid now = blank (if str_eq id "" then uuid else id) now

-- The loop of `pathToLeafLocked`; `acc` is the path below `id`.
unfoldable pub path_loop : Dict Entry → ℕ → List String → String → List Entry → List Entry
path_loop entries zero seen id acc = acc
path_loop entries (suc fuel) seen id acc =
    let up : List Entry = elim (lookup id entries) [
      | none ↦ acc
      | some entry ↦ path_loop entries fuel (id ∷ seen) entry.parent_id (entry ∷ acc)
    ] in
    if str_eq id "" || contains id seen then acc else up

-- Each round but the last sees another key of the map, so this fuel is never used up.
unfoldable pub path_in : Dict Entry → String → List Entry
unfolding path_loop
path_in entries leaf_id = path_loop entries (suc (length entries)) [] leaf_id []

unfoldable pub path_to_leaf : Session → String → List Entry
unfolding path_in
path_to_leaf s leaf_id = path_in s.entries leaf_id

unfoldable pub index_entry : List Entry → String → Option ℕ
index_entry [] id = none
index_entry (entry ∷ rest) id =
    if str_eq entry.id id
    then some 0
    else elim (index_entry rest id) [ none ↦ none | some i ↦ some (suc i) ]

-- The last index whose entry is a compaction.
unfoldable pub last_compaction_index : List Entry → Option ℕ
last_compaction_index [] = none
last_compaction_index (entry ∷ rest) = elim (last_compaction_index rest) [
  | some i ↦ some (suc i)
  | none ↦ if is_compaction entry.type then some 0 else none
]

-- `s.entries[id]`, the zero entry where the key is missing.
abbrev pub entry_at : Dict Entry → String → Entry
entry_at m id = elim (lookup id m) [ none ↦ zero_entry | some entry ↦ entry ]

unfoldable pub entries : Session → List Entry
entries s = map (entry_at s.entries) s.order

unfoldable pub children : Session → String → List Entry
unfolding entries
children s parent_id = keep (λ entry. str_eq entry.parent_id parent_id) (entries s)

abbrev missing : Option ℕ → Bool
missing none = true
missing (some i) = false

unfoldable pub validate_compaction_reference : Session → Entry → Result Error (Unit {0})
unfolding path_to_leaf index_entry
validate_compaction_reference s entry = if not (is_compaction entry.type) then ok tt else do
  fail_if (not (has entry.first_kept_entry_id s.entries))
      (first_kept_unknown entry.first_kept_entry_id)
  fail_if (missing (index_entry (path_to_leaf s entry.parent_id) entry.first_kept_entry_id))
      (first_kept_not_on_path entry.first_kept_entry_id)
