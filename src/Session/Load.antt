-- ===== src/Session/Load.antt =====
-- internal/agent/runtime/session/session.go: `Load`, which rebuilds a session from its entries.
use oops.Prelude.{
  String, none, some, List, [], ◌∷◌, ◌++◌, not, ◌&&◌, has, contains, str_eq, if◌then◌else◌, Result,
  ok, err, ◌>>=◌, ◌>>◌, fail_if,
}
use oops.Ai.Types.{Stdlib}
use oops.Session.Sequence.{Analysis, Status}
use oops.Session.Entry.{
  Entry, Error, validate_entry, is_leaf, duplicate_id, unknown_parent, unknown_leaf_target,
  invalid_history,
}
use oops.Session.Tree.{Session, blank, entries, validate_compaction_reference}
use oops.Session.Append.{store_entry}
use oops.Session.Context.{analyze_leaf, executable_leaf}

-- The candidate is a `Session` literal with no times: both are zero.
abbrev pub candidate : String → Session
candidate id = blank id 0

-- The entries that `validateLoadedHistoryLocked` looks at: those that a leaf entry points to, and
-- those that no entry has for its parent.
leaf_targets : List Entry → List String
leaf_targets [] = []
leaf_targets (entry ∷ rest) =
    let others = leaf_targets rest in
    if is_leaf entry.type && not (str_eq entry.leaf_id "") then entry.leaf_id ∷ others else others

-- The keys of `childCount`.
parents : List Entry → List String
parents [] = []
parents (entry ∷ rest) =
    let others = parents rest in
    if str_eq entry.parent_id "" then others else entry.parent_id ∷ others

childless : List String → List Entry → List String
childless with_child [] = []
childless with_child (entry ∷ rest) =
    let others = childless with_child rest in
    if contains entry.id with_child then others else entry.id ∷ others

targets : List Entry → List String
unfolding leaf_targets parents childless
targets all = leaf_targets all ++ childless (parents all) all

-- `publishLocked`: everything but the id comes from the candidate.
abbrev pub publish : Session → Session → Session
publish s c = record c { id = s.id }

module _ (std : Stdlib) where
  unfoldable pub load_entry : Session → Entry → Result Error Session
  load_entry s entry = do
    validate_entry std entry
    fail_if (has entry.id s.entries) (duplicate_id entry.id)
    fail_if (not (str_eq entry.parent_id "") && not (has entry.parent_id s.entries))
        (unknown_parent entry.parent_id)
    fail_if
        (is_leaf entry.type && not (str_eq entry.leaf_id "") && not (has entry.leaf_id s.entries))
        (unknown_leaf_target entry.leaf_id)
    validate_compaction_reference s entry
    ok (store_entry std s entry)

  unfoldable pub load_entries : Session → List Entry → Result Error Session
  load_entries s [] = ok s
  load_entries s (entry ∷ rest) = load_entry s entry >>= λ t. load_entries t rest

  abbrev history_error : Analysis → Result Error (Unit {0})
  history_error analysis = elim analysis.status [
    | Status.invalid ↦ elim analysis.error [ none ↦ ok tt | some e ↦ err (invalid_history e) ]
    | _ ↦ ok tt
  ]

  -- The map of targets is read in some order: which of several errors is returned is not fixed.
  check_targets : Session → List String → Result Error (Unit {0})
  check_targets s [] = ok tt
  check_targets s (target ∷ rest) = do
    history_error (analyze_leaf std s target).0
    check_targets s rest

  unfoldable pub validate_loaded_history : Session → Result Error (Unit {0})
  unfolding targets check_targets
  validate_loaded_history s = check_targets s (targets (entries s))

  unfoldable pub load : Session → List Entry → Result Error Session
  load s all = load_entries (candidate s.id) all >>= λ c. validate_loaded_history c >>= λ _.
      ok (publish s (record c { leaf_id = executable_leaf std c c.leaf_id }))
