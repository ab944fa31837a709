-- ===== src/Session/Details.antt =====
-- internal/agent/runtime/session/summary.go: the files that the entries of a path have read and changed.
-- A Go map used as a set is a list without doubles, in the order of the writes.
pub mod Parts
use oops.Prelude.{
  ℕ, ◌||◌, String, Option, none, some, List, [], ◌∷◌, Bool, true, false, not, take, contains, add,
  keep, str_eq, if◌then◌else◌, Result, ok, err,
}
use oops.Ai.Types.{
  Stdlib, Content, AgentMessage, AssistantMessage, ToolResultMessage, ToolCallContent,
}
use oops.Session.Entry.{Entry}
use oops.Session.Tree.{Session, path_to_leaf, index_entry}
use oops.Session.Summary.{SummaryError, first_kept_not_on_path, entries_for_branch_summary}

-- What the code calls of Go's encoding/json and sort.
pub record Json : Type 0 where
  -- json.Unmarshal into the fields `path` and `file_path`
  pub path_fields : String → Option (String × String)
  -- json.Marshal of the details of a tool result
  pub marshal : String → Option String
  -- json.Unmarshal into the fields `readFiles` and `modifiedFiles`
  pub summary_details : String → Option (List String × List String)
  -- sort.Strings
  pub sort : List String → List String

pub record SummaryDetails : Type 0 where
  pub read_files : List String
  pub modified_files : List String

pub record FileOps : Type 0 where
  pub read : List String
  pub modified : List String

abbrev pub no_ops : FileOps
no_ops = record { read = []; modified = [] }

module _ (std : Stdlib) (json : Json) where
  -- The set with the path, spaces around it cut off; the empty path is left out.
  unfoldable pub add_path : List String → String → List String
  add_path target path =
      if str_eq (std.trim_space path) "" then target else add (std.trim_space path) target

  unfoldable pub add_paths : List String → List String → List String
  add_paths target [] = target
  add_paths target (path ∷ rest) = add_paths (add_path target path) rest

  abbrev pub chosen_path : Option (String × String) → String
  chosen_path none = ""
  chosen_path (some (path, file_path)) = if str_eq path "" then file_path else path

  abbrev pub path_from_raw_arguments : String → String
  path_from_raw_arguments raw = chosen_path (json.path_fields raw)

  abbrev pub path_of_marshalled : Option String → String
  path_of_marshalled none = ""
  path_of_marshalled (some raw) = chosen_path (json.path_fields raw)

  abbrev pub path_from_details : Option String → String
  path_from_details none = ""
  path_from_details (some details) = path_of_marshalled (json.marshal details)

  -- The `switch` on the tool's name; a path that is empty adds nothing.
  unfoldable pub add_named : (name path : String) → FileOps → FileOps
  add_named name path ops =
      if str_eq path ""
      then ops
      else if str_eq name "read"
      then record ops { read = add_path ops.read path }
      else if str_eq name "write" || str_eq name "edit"
      then record ops { modified = add_path ops.modified path }
      else ops

  unfoldable pub extract_assistant : List Content → FileOps → FileOps
  extract_assistant [] ops = ops
  extract_assistant (Content.tool_call call ∷ rest) ops =
      extract_assistant rest (add_named call.name (path_from_raw_arguments call.arguments) ops)
  extract_assistant (_ ∷ rest) ops = extract_assistant rest ops

  unfoldable pub extract_entry : AgentMessage → FileOps → FileOps
  extract_entry (AgentMessage.assistant m) ops = extract_assistant m.content ops
  extract_entry (AgentMessage.tool_result m) ops =
      add_named m.tool_name (path_from_details m.details) ops
  extract_entry _ ops = ops

  abbrev pub merge_parsed : Option (List String × List String) → FileOps → FileOps
  merge_parsed none ops = ops
  merge_parsed (some (read_files, modified_files)) ops = record {
    read = add_paths ops.read read_files;
    modified = add_paths ops.modified modified_files;
  }

  abbrev pub merge_details : Option String → FileOps → FileOps
  merge_details none ops = ops
  merge_details (some details) ops =
      if str_eq details "" then ops else merge_parsed (json.summary_details details) ops

  unfoldable pub collect : List Entry → FileOps → FileOps
  collect [] ops = ops
  collect (entry ∷ rest) ops =
      collect rest (extract_entry entry.message (merge_details entry.details ops))

  abbrev pub details : FileOps → SummaryDetails
  details ops = record {
    read_files = json.sort (keep (λ path. not (contains path ops.modified)) ops.read);
    modified_files = json.sort ops.modified;
  }

  unfoldable pub collect_summary_details : List Entry → SummaryDetails
  collect_summary_details entries = details (collect entries no_ops)

  abbrev pub details_above : List Entry → Option ℕ → Result SummaryError SummaryDetails
  details_above path none = err first_kept_not_on_path
  details_above path (some index) = ok (collect_summary_details (take index path))

  unfoldable pub summary_details_before : Session → String → Result SummaryError SummaryDetails
  summary_details_before s first_kept =
      details_above (path_to_leaf s s.leaf_id) (index_entry (path_to_leaf s s.leaf_id) first_kept)

  abbrev pub details_of :
      Result SummaryError (List Entry × String) → Result SummaryError SummaryDetails
  details_of (ok (entries, common)) = ok (collect_summary_details entries)
  details_of (err e) = err e

  unfoldable pub branch_summary_details : Session → String → Result SummaryError SummaryDetails
  branch_summary_details s target = details_of (entries_for_branch_summary s target)
