-- ===== src/Compaction/Files.antt =====
-- internal/agent/runtime/compaction/utils.go: the files that a conversation has read and changed. A
-- Go map used as a set is a list without doubles, in the order of the writes.
pub mod Lists
use oops.Prelude.{
  String, Option, none, some, List, [], ◌∷◌, Bool, true, false, not, ◌≡◌, contains, add, keep,
  str_eq, if◌then◌else◌,
}
use oops.Ai.Types.{Stdlib, AgentMessage, ToolCallContent, tool_calls_from_assistant}
use oops.Session.Details.{Json}
use oops.Session.Entry.{Entry}

pub record FileOperations : Type 0 where
  pub read : List String
  pub written : List String
  pub edited : List String

abbrev pub new_file_operations : FileOperations
new_file_operations = record { read = []; written = []; edited = [] }

module _ (std : Stdlib) where
  -- The set with the path, spaces around it cut off; the empty path is left out.
  unfoldable pub add_path : List String → String → List String
  add_path target path =
      if str_eq (std.trim_space path) "" then target else add (std.trim_space path) target

  unfoldable pub add_paths : List String → List String → List String
  add_paths target [] = target
  add_paths target (path ∷ rest) = add_paths (add_path target path) rest

  unfoldable pub add_tool_path : FileOperations → (name path : String) → FileOperations
  add_tool_path ops name path =
      if str_eq name "read"
      then record ops { read = add_path ops.read path }
      else if str_eq name "write"
      then record ops { written = add_path ops.written path }
      else if str_eq name "edit"
      then record ops { edited = add_path ops.edited path }
      else ops

  module _ (json : Json) where
    abbrev pub chosen_path : Option (String × String) → String
    chosen_path none = ""
    chosen_path (some (path, file_path)) = if str_eq path "" then file_path else path

    abbrev pub path_from_json : String → String
    path_from_json raw = chosen_path (json.path_fields raw)

    abbrev pub path_from_details : Option String → String
    path_from_details none = ""
    path_from_details (some details) = elim (json.marshal details) [
      | none ↦ ""
      | some raw ↦ path_from_json raw
    ]

    abbrev pub add_calls : FileOperations → List ToolCallContent → FileOperations
    add_calls ops [] = ops
    add_calls ops (call ∷ rest) =
        add_calls (add_tool_path ops call.name (path_from_json call.arguments)) rest

    unfoldable pub extract_file_operations : AgentMessage → FileOperations → FileOperations
    extract_file_operations (AgentMessage.assistant m) ops =
        add_calls ops (tool_calls_from_assistant m)
    extract_file_operations (AgentMessage.tool_result m) ops =
        add_tool_path ops m.tool_name (path_from_details m.details)
    extract_file_operations _ ops = ops

    abbrev pub merge_summary_details :
        FileOperations → Option (List String × List String) → FileOperations
    merge_summary_details ops none = ops
    merge_summary_details ops (some (read_files, modified_files)) = record ops {
      read = add_paths ops.read read_files;
      edited = add_paths ops.edited modified_files;
    }

    -- No details, and those that are no JSON, change nothing.
    unfoldable pub merge_entry_details : FileOperations → Entry → FileOperations
    merge_entry_details ops entry = elim entry.details [
      | none ↦ ops
      | some details ↦
          if str_eq details ""
          then ops
          else merge_summary_details ops (json.summary_details details)
    ]

    abbrev pub union : List String → List String → List String
    union xs [] = xs
    union xs (y ∷ ys) = union (add y xs) ys

    unfoldable pub compute_file_lists : FileOperations → List String × List String
    compute_file_lists ops =
        let modified = union (union [] ops.written) ops.edited in
        (json.sort (keep (λ path. not (contains path modified)) ops.read), json.sort modified)
