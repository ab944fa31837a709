-- ===== src/Compaction/Path.antt =====
-- internal/agent/runtime/compaction/compaction.go: `activePath`, which walks up from the leaf over a
-- map of the session's entries and refuses a cycle or a missing entry.
pub mod Agrees
use oops.Prelude.{
  ℕ, zero, suc, String, Option, none, some, List, [], ◌∷◌, Bool, true, false, Dict, lookup, insert,
  length, contains, str_eq, if◌then◌else◌, Result, ok, err,
}
use oops.Session.Entry.{Entry}
use oops.Session.Tree.{Session, entries}

-- The errors of the package, by the place that makes them.
pub data Error : Type 0 where
  contains_cycle : Error
  unknown_entry : String → Error
  outside_path requires_id : Error

-- `byID`: an entry replaces one before it that has the same id.
unfoldable pub indexed : Dict Entry → List Entry → Dict Entry
indexed m [] = m
indexed m (entry ∷ rest) = indexed (insert entry.id entry m) rest

unfoldable pub active_loop :
    Dict Entry → ℕ → List String → String → List Entry → Result Error (List Entry)
active_loop m zero seen id acc = ok acc
active_loop m (suc fuel) seen id acc =
    let up : Result Error (List Entry) = elim (lookup id m) [
      | none ↦ err (unknown_entry id)
      | some entry ↦ active_loop m fuel (id ∷ seen) entry.parent_id (entry ∷ acc)
    ] in
    if str_eq id "" then ok acc else if contains id seen then err contains_cycle else up

-- Each round but the last sees another key of the map.
unfoldable pub active_path : Session → Result Error (List Entry)
active_path s =
    if str_eq s.leaf_id ""
    then ok []
    else active_loop (indexed [] (entries s)) (suc (length (indexed [] (entries s)))) [] s.leaf_id
        []
