-- ===== src/Session/Navigate.antt =====
-- internal/agent/runtime/session/navigation.go: the leaf that a user goes to. A Go set of call ids is a
-- list; `none` is the nil set.
pub mod Nearest
pub mod Target
use oops.Prelude.{
  ℕ, zero, suc, String, Option, none, some, List, [], ◌∷◌, ◌++◌, map, Bool, true, false, not, ◌&&◌,
  ◌||◌, lookup, length, contains, add, str_eq, ◌==◌, if◌then◌else◌, Result, ok, err,
}
use oops.Ai.Types.{
  Stdlib, Content, AgentMessage, AssistantMessage, UserMessage, ToolResultMessage, as_user_message,
  as_assistant_message, as_tool_result_message, as_tool_call, text_from_content,
}
use oops.Session.Entry.{Entry, EntryType, Error, unknown_leaf}
use oops.Session.Tree.{Session, path_to_leaf, children}
use oops.Session.Context.{safe_boundary}

pub record NavigationResult : Type 0 where
  pub leaf_id : String
  pub editor_text : String

abbrev pub leaf : String → NavigationResult
leaf id = record { leaf_id = id; editor_text = "" }

abbrev pub text_of : Option UserMessage → Option String
text_of none = none
text_of (some user) = some (text_from_content user.content)

abbrev pub user_message_text : AgentMessage → Option String
user_message_text m = text_of (as_user_message m)

abbrev pub editable_message_text : Entry → Option String
editable_message_text entry = elim entry.type [
  | EntryType.message ↦ user_message_text entry.message
  | EntryType.custom_message ↦ user_message_text entry.message
  | _ ↦ none
]

abbrev pub call_ids : List Content → List String → List String
call_ids [] ids = ids
call_ids (Content.tool_call call ∷ rest) ids = call_ids rest (add call.id ids)
call_ids (_ ∷ rest) ids = call_ids rest ids

abbrev pub unless_none : List String → Option (List String)
unless_none [] = none
unless_none (id ∷ ids) = some (id ∷ ids)

abbrev pub ids_of : Option AssistantMessage → Option (List String)
ids_of none = none
ids_of (some m) = unless_none (call_ids m.content [])

unfoldable pub assistant_tool_call_ids : Entry → Option (List String)
assistant_tool_call_ids entry = ids_of (as_assistant_message entry.message)

abbrev pub result_id : Option ToolResultMessage → Option String
result_id none = none
result_id (some m) = if str_eq m.tool_call_id "" then none else some m.tool_call_id

unfoldable pub tool_result_call_id : Entry → Option String
tool_result_call_id entry = result_id (as_tool_result_message entry.message)

abbrev pub is_set : {A : Type 0} → Option A → Bool
is_set none = false
is_set (some a) = true

-- The loop over the parents; every round but the last sees another entry.
unfoldable pub nearest_loop : Session → ℕ → List String → String → Option Entry
nearest_loop s zero seen id = none
nearest_loop s (suc fuel) seen id =
    let up : Option Entry = elim (lookup id s.entries) [
      | none ↦ none
      | some current ↦
          let rest = nearest_loop s fuel (id ∷ seen) current.parent_id in
          if is_set (assistant_tool_call_ids current)
          then some current
          else if is_set (tool_result_call_id current)
          then rest
          else none
    ] in
    if str_eq id "" || contains id seen then none else up

unfoldable pub nearest_assistant_tool_call : Session → Entry → Option Entry
nearest_assistant_tool_call s entry = nearest_loop s (suc (length s.entries)) [] entry.parent_id

-- The set `contains` of a candidate, as a list.
pub record ToolUnitCandidate : Type 0 where
  pub leaf_id : String
  pub entries : List String

abbrev pub joined : {A : Type 0} → List (List A) → List A
joined [] = []
joined (l ∷ rest) = l ++ joined rest

abbrev pub new_call : List String → List String → Option String → Option String
new_call expected seen none = none
new_call expected seen (some id) =
    if not (contains id expected) || contains id seen then none else some id

-- `walk`: a round adds a call id to `seen`, so there are as many rounds as there are ids.
unfoldable pub walk :
    Session → List String → ℕ → String → (seen entries : List String) → List ToolUnitCandidate
walk s expected zero parent seen entries =
    if length seen == length expected
    then record { leaf_id = parent; entries = entries } ∷ []
    else []
walk s expected (suc fuel) parent seen entries =
    let below : Entry → List ToolUnitCandidate = λ child.
      elim (new_call expected seen (tool_result_call_id child)) [
        | none ↦ []
        | some id ↦ walk s expected fuel child.id (id ∷ seen) (child.id ∷ entries)
      ] in
    let others : List ToolUnitCandidate = joined (map below (children s parent)) in
    if length seen == length expected
    then record { leaf_id = parent; entries = entries } ∷ []
    else others

abbrev pub tool_unit_candidates : Session → String → List String → List ToolUnitCandidate
tool_unit_candidates s parent expected = walk s expected (length expected) parent [] (parent ∷ [])

abbrev pub find_candidate : (ToolUnitCandidate → Bool) → List ToolUnitCandidate → Option String
find_candidate test [] = none
find_candidate test (candidate ∷ rest) =
    if test candidate then some candidate.leaf_id else find_candidate test rest

abbrev pub only : List ToolUnitCandidate → Option String
only (candidate ∷ []) = some candidate.leaf_id
only _ = none

abbrev pub or_only : List ToolUnitCandidate → Option String → Option String
or_only candidates (some id) = some id
or_only candidates none = only candidates

abbrev pub active_path_ids : Session → List String
active_path_ids s = map (λ (entry : Entry). entry.id) (path_to_leaf s s.leaf_id)

unfoldable pub chosen : Session → (required : String) → List ToolUnitCandidate → Option String
chosen s required candidates =
    if str_eq required ""
    then or_only candidates
        (find_candidate (λ c. contains c.leaf_id (active_path_ids s)) candidates)
    else find_candidate (λ c. contains required c.entries) candidates

abbrev pub chosen_for :
    Session → (assistant required : String) → Option (List String) → Option String
chosen_for s assistant required none = none
chosen_for s assistant required (some expected) =
    chosen s required (tool_unit_candidates s assistant expected)

abbrev pub unit_leaf : Session → (assistant required : String) → Option Entry → Option String
unit_leaf s assistant required none = none
unit_leaf s assistant required (some entry) =
    chosen_for s assistant required (assistant_tool_call_ids entry)

unfoldable pub complete_tool_unit_leaf : Session → (assistant required : String) → Option String
complete_tool_unit_leaf s assistant required =
    unit_leaf s assistant required (lookup assistant s.entries)

module _ (std : Stdlib) where
  abbrev pub unit_or_boundary : Session → Option String → String → NavigationResult
  unit_or_boundary s (some id) parent = leaf id
  unit_or_boundary s none parent = leaf (safe_boundary std s parent)

  abbrev pub of_result : Session → Entry → Option Entry → NavigationResult
  of_result s entry none = leaf (safe_boundary std s entry.parent_id)
  of_result s entry (some assistant) =
      unit_or_boundary s (complete_tool_unit_leaf s assistant.id entry.id) assistant.parent_id

  abbrev pub of_entry : Session → String → Entry → Option String → NavigationResult
  of_entry s target entry (some text) = record { leaf_id = entry.parent_id; editor_text = text }
  of_entry s target entry none =
      if is_set (assistant_tool_call_ids entry)
      then unit_or_boundary s (complete_tool_unit_leaf s entry.id "") entry.parent_id
      else if is_set (tool_result_call_id entry)
      then of_result s entry (nearest_assistant_tool_call s entry)
      else leaf target

  unfoldable pub resolve_navigation_target : Session → String → Result Error NavigationResult
  resolve_navigation_target s target =
      if str_eq target "" then ok (leaf "") else elim (lookup target s.entries) [
        | none ↦ err (unknown_leaf target)
        | some entry ↦ ok (of_entry s target entry (editable_message_text entry))
      ]
