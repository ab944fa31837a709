-- ===== src/Session/Summary.antt =====
-- internal/agent/runtime/session/summary.go: the entries that a branch summary is about, and the entry
-- from which a compaction keeps the rest. `byte_length` is Go's `len` of a string.
pub mod Branches
pub mod Kept
use oops.Prelude.{
  ℕ, zero, suc, ◌+◌, String, Option, none, some, List, [], ◌∷◌, map, Bool, true, false, not, ◌&&◌,
  ◌||◌, lookup, has, length, drop, take, get_elem?, contains, str_eq, ltb, leb, ◌==◌, if◌then◌else◌,
  Result, ok, err,
}
use oops.Ai.Types.{AgentMessage, as_assistant_message, tool_calls_from_assistant, ToolCallContent}
use oops.Ai.Estimate.{estimate_message_tokens, estimate_text_tokens}
use oops.Session.Entry.{
  Entry, EntryType, zero_entry, is_message, is_custom_message, is_compaction, is_branch_summary,
}
use oops.Session.Tree.{Session, path_to_leaf, index_entry}
use oops.Session.Navigate.{tool_result_call_id}

pub data SummaryError : Type 0 where
  target_not_in_session first_kept_not_on_path : SummaryError

abbrev pub ids : List Entry → List String
ids = map (λ (entry : Entry). entry.id)

-- The last id of the path that is among the others.
unfoldable pub last_common : List Entry → List String → Option String
last_common [] others = none
last_common (entry ∷ rest) others = elim (last_common rest others) [
  | some id ↦ some id
  | none ↦ if contains entry.id others then some entry.id else none
]

abbrev pub common_id : Option String → String
common_id none = ""
common_id (some id) = id

abbrev pub after_index : Option ℕ → ℕ
after_index none = 0
after_index (some i) = suc i

abbrev pub start_of : List Entry → String → ℕ
start_of path common = if str_eq common "" then 0 else after_index (index_entry path common)

abbrev pub entries_below : List Entry → List Entry → Result SummaryError (List Entry × String)
entries_below [] target = ok ([], "")
entries_below (entry ∷ rest) target =
    let old = entry ∷ rest in
    let common = common_id (last_common old (ids target)) in
    ok (drop (start_of old common) old, common)

unfoldable pub entries_for_branch_summary :
    Session → String → Result SummaryError (List Entry × String)
entries_for_branch_summary s target =
    if not (str_eq target "") && not (has target s.entries)
    then err target_not_in_session
    else entries_below (path_to_leaf s s.leaf_id) (path_to_leaf s target)

abbrev pub has_call : List ToolCallContent → String → Bool
has_call [] id = false
has_call (call ∷ rest) id = str_eq call.id id || has_call rest id

unfoldable pub assistant_has_tool_call : Entry → String → Bool
assistant_has_tool_call entry id = elim (as_assistant_message entry.message) [
  | none ↦ false
  | some m ↦ has_call (tool_calls_from_assistant m) id
]

-- `path[index]`, at an index in range.
abbrev pub nth : List Entry → ℕ → Entry
nth path index = elim (get_elem? path index) [ none ↦ zero_entry | some entry ↦ entry ]

-- The last of the first `n` entries that has the call.
unfoldable pub caller_loop : List Entry → String → ℕ → Option String
caller_loop path call zero = none
caller_loop path call (suc n) =
    let rest = caller_loop path call n in
    if assistant_has_tool_call (nth path n) call then some (nth path n).id else rest

abbrev pub or_id : Option String → String → String
or_id none id = id
or_id (some other) id = other

abbrev pub caller_or : List Entry → String → ℕ → Option String → String
caller_or path id index none = id
caller_or path id index (some call) = or_id (caller_loop path call index) id

abbrev pub protected : List Entry → String → ℕ → String
protected path id index = caller_or path id index (tool_result_call_id (nth path index))

abbrev pub at_index : List Entry → String → Option ℕ → Result SummaryError String
at_index path id none = err first_kept_not_on_path
at_index path id (some index) = ok (protected path id index)

unfoldable pub protected_first_kept_entry_id : Session → String → Result SummaryError String
protected_first_kept_entry_id s id =
    at_index (path_to_leaf s s.leaf_id) id (index_entry (path_to_leaf s s.leaf_id) id)

abbrev pub is_spoken : EntryType → Bool
is_spoken type = is_message type || is_custom_message type

-- A path that is not empty, its last entry's id, and the lookup of an id on it.
abbrev pub last_id : List Entry → String
last_id [] = ""
last_id (entry ∷ []) = entry.id
last_id (entry ∷ next ∷ rest) = last_id (next ∷ rest)

abbrev pub protected_on : List Entry → String → Result SummaryError String
protected_on path id = at_index path id (index_entry path id)

module _ (byte_length : String → ℕ) where
  unfoldable pub estimate_entry_tokens : Entry → ℕ
  estimate_entry_tokens entry =
      if is_spoken entry.type
      then estimate_message_tokens byte_length entry.message
      else if is_compaction entry.type || is_branch_summary entry.type
      then estimate_text_tokens byte_length entry.summary
      else 0

  -- The loop over the first `n` entries, from the last one.
  unfoldable pub first_loop : List Entry → (keep : ℕ) → (first : String) → (total : ℕ) → ℕ → String
  first_loop path keep first total zero = first
  first_loop path keep first total (suc n) =
      let entry = nth path n in
      let tokens = estimate_entry_tokens entry in
      let silent = tokens == 0 in
      let now = if silent then first else entry.id in
      let rest = first_loop path keep now (total + tokens) n in
      if not silent && leb keep (total + tokens) then now else rest

  abbrev pub first_on : List Entry → ℕ → Result SummaryError String
  first_on [] keep = ok ""
  first_on (entry ∷ rest) keep =
      let path = entry ∷ rest in
      if keep == 0
      then protected_on path (last_id path)
      else protected_on path (first_loop path keep (last_id path) 0 (length path))

  unfoldable pub first_kept_entry_id : Session → ℕ → Result SummaryError String
  first_kept_entry_id s keep = first_on (path_to_leaf s s.leaf_id) keep
