-- ===== src/Session/Fork.antt =====
-- internal/agent/runtime/session/session.go: `Fork`, which copies the history of an entry into a
-- session of its own.
use oops.Prelude.{
  ℕ, String, Option, none, some, List, [], ◌∷◌, Bool, not, ◌&&◌, ◌||◌, lookup, str_eq,
  if◌then◌else◌, Result, ok, err, ◌>>=◌,
}
use oops.Ai.Types.{Stdlib, is_user_role}
use oops.Session.Entry.{
  Entry, EntryType, Error, zero_entry, is_leaf, is_message, ForkOptions, ForkPosition,
  fork_target_unknown, fork_target_not_user,
}
use oops.Session.Tree.{Session, new, path_to_leaf}
use oops.Session.Append.{Call, prepare_entry, store_entry}

-- The leaf of the history to copy, and the leaf entry that goes behind it.
pub record Source : Type 0 where
  pub leaf_id : String
  pub fork_at_leaf : Option Entry

-- A leaf entry is forked at the entry that it points to, and is copied under that entry.
pub fork_at : Entry → Source
fork_at target =
    if is_leaf target.type
    then record {
      leaf_id = target.leaf_id;
      fork_at_leaf = some (record target { parent_id = target.leaf_id });
    }
    else record { leaf_id = target.id; fork_at_leaf = none }

pub fork_source_of : Session → String → ForkPosition → Entry → Result Error Source
fork_source_of s entry_id ForkPosition.at target = ok (fork_at target)
fork_source_of s entry_id (ForkPosition.other position) target = err (Error.fork_position position)
fork_source_of s entry_id _ target =
    if is_message target.type && is_user_role target.message
    then ok (record { leaf_id = target.parent_id; fork_at_leaf = none })
    else err (fork_target_not_user entry_id)

unfoldable pub fork_source : Session → ForkOptions → Result Error Source
unfolding fork_at fork_source_of
fork_source s options =
    if str_eq options.entry_id ""
    then ok (record { leaf_id = s.leaf_id; fork_at_leaf = none })
    else elim (lookup options.entry_id s.entries) [
      | none ↦ err (fork_target_unknown options.entry_id)
      | some target ↦ fork_source_of s options.entry_id options.position target
    ]

-- `copy(order[1:], order[:len-1]); order[0] = id`: the last id goes to the front.
abbrev pub without_last : List String → List String
without_last [] = []
without_last (x ∷ []) = []
without_last (x ∷ y ∷ rest) = x ∷ without_last (y ∷ rest)

abbrev pub metadata_first : String → List String → List String
metadata_first id order = id ∷ without_last order

abbrev pub metadata_entry : Session → Entry
metadata_entry f = record zero_entry {
  type = EntryType.session_info;
  cwd = f.cwd;
  project_id = f.project_id;
  name = f.name;
  title = f.title;
}

abbrev pub has_metadata : Session → Bool
has_metadata f =
    not (str_eq f.cwd "")
    || not (str_eq f.project_id "")
    || not (str_eq f.name "")
    || not (str_eq f.title "")

module _ (std : Stdlib) where
  unfoldable pub store_all : Session → List Entry → Session
  store_all s [] = s
  store_all s (entry ∷ rest) = store_all (store_entry std s entry) rest

  unfoldable pub store_optional : Session → Option Entry → Session
  store_optional s none = s
  store_optional s (some entry) = store_entry std s entry

  -- `New` and `prepareEntryLocked` each read the clock: `made` is the first reading, `call` the rest.
  unfoldable pub copied : (made : ℕ) → (new_id : String) → Session → ForkOptions → Source → Session
  unfolding store_all store_optional
  copied made new_id s options source =
      let f = record (new options.id new_id made) {
        cwd = s.cwd;
        project_id = s.project_id;
        name = s.name;
        title = s.title;
      } in
      store_optional (store_all f (path_to_leaf s source.leaf_id)) source.fork_at_leaf

  unfoldable pub with_metadata : Call → Session → Result Error Session
  with_metadata call f =
      if has_metadata f
      then (prepare_entry std call f (metadata_entry f) >>= λ e.
          let g = store_entry std f e in ok (record g { order = metadata_first e.id g.order }))
      else ok f

  unfoldable pub fork :
      Call → (made : ℕ) → (new_id : String) → Session → ForkOptions → Result Error Session
  fork call made new_id s options =
      fork_source s options >>= λ source. with_metadata call (copied made new_id s options source)
