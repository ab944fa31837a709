-- ===== src/Compaction/Examples.antt =====
-- A session with a question and an assistant message, and a path with a tool result.
use oops.Prelude.{
  ◌++◌, ℕ, String, Option, none, some, List, [], ◌∷◌, Bool, true, false, ◌≡◌, refl, arith, ok, err,
  Result, not, ◌&&◌, ◌||◌, contains, lookup, has, insert,
}
use oops.Ai.Types.{AgentMessage, MessageRole}
use oops.Ai.Validate.{validate_message}
use oops.Session.Entry.{Entry, EntryType, zero_entry, validate_entry}
use oops.Session.Tree.{
  path_to_leaf, new, entries, index_entry, last_compaction_index, validate_compaction_reference,
}
use oops.Session.Append.{append, prepare_entry, filled, store_entry, generate_entry_id}
use oops.Session.Examples.{
  std, hello, asking, answer, two, one, empty, first_append, second_append, two-IsValid,
}
use oops.Compaction.Usage.{Settings}
use oops.Compaction.Cut.{
  find_cut_point, valid_cut_points, cut_points_from, first_from, budget_loop, back_loop,
  protect_tool_unit, find_turn_start_index, turn_start_loop,
}
use oops.Session.Summary.{estimate_entry_tokens}
use oops.Ai.Estimate.{estimate_message_tokens, estimate_tokens_for_chars}
use oops.Compaction.Cut.Bounds.{IsCut, find_cut_point-IsCut}
use oops.Compaction.Files.{FileOperations, new_file_operations, add_tool_path, compute_file_lists}
use oops.Session.Details.{
  Json, collect_summary_details, collect, extract_entry, add_named, add_path,
}
use oops.Session.Details.Parts.{collect_summary_details-append}
use oops.Compaction.Files.Lists.{compute_file_lists-contains}
use oops.Compaction.Path.{Error, active_path, active_loop, indexed}
use oops.Compaction.Path.Agrees.{active_path-agrees}
use oops.Compaction.Prepare.{Preparation, prepare}
use oops.Compaction.Prepare.Keeps.{Kept, prepare-Kept, prepare-validate_compaction_reference}
use oops.Compaction.Branch.{prepare_branch_entries}
use oops.Compaction.Branch.Budget.{IsNewest, prepare_branch_entries-IsNewest}

abbrev json : Json
json = record {
  path_fields = λ s. some (s, "");
  marshal = λ s. some s;
  summary_details = λ _. none;
  sort = λ l. l;
}

abbrev four : String → ℕ
four text = 4

abbrev said : String → AgentMessage → Entry
said id m = record zero_entry { type = EntryType.message; id = id; message = m }

abbrev conversation : List Entry
conversation = said "a" hello ∷ said "b" asking ∷ said "c" (answer "a") ∷ said "d" (answer "b") ∷ []

-- The last result alone meets the budget and no cut point is behind it, so the first one is taken.
late_cut :
    find_cut_point four conversation 0 4 1
    ≡ record { first_kept_entry_index = 0; turn_start_index = none; split_turn = false }
unfolding find_cut_point valid_cut_points cut_points_from first_from budget_loop back_loop
    protect_tool_unit estimate_entry_tokens estimate_message_tokens estimate_tokens_for_chars
    find_turn_start_index turn_start_loop
late_cut = refl

find_cut_point-IsCut_example : IsCut conversation 0 4 (find_cut_point four conversation 0 4 1)
find_cut_point-IsCut_example = find_cut_point-IsCut four conversation 0 4 1 (omega arith)

active_path-agrees_example : active_path two ≡ ok (path_to_leaf two two.leaf_id)
active_path-agrees_example = active_path-agrees two two-IsValid

abbrev settings : Settings
settings = record { enabled = true; reserve_tokens = 0; keep_recent_tokens = 1 }

prepare-Kept_example :
    Kept std json (path_to_leaf two two.leaf_id) (prepare std json four two settings)
prepare-Kept_example = prepare-Kept std json four two settings two-IsValid

prepare_branch_entries-IsNewest_example :
    IsNewest std json four conversation 3 (prepare_branch_entries std json four conversation 3)
prepare_branch_entries-IsNewest_example =
    prepare_branch_entries-IsNewest std json four conversation 3

abbrev no_preparation : Preparation
no_preparation = record {
  first_kept_entry_id = "";
  messages = [];
  turn_prefix = [];
  split_turn = false;
  tokens_before = 0;
  previous_summary = "";
  file_operations = new_file_operations;
  settings = settings;
}

abbrev is_prepared : Result Error (Option Preparation) → Bool
is_prepared (ok (some p)) = true
is_prepared _ = false

abbrev preparation_or : Preparation → Result Error (Option Preparation) → Preparation
preparation_or d (ok (some p)) = p
preparation_or d _ = d

prepared_of :
    (d : Preparation) (r : Result Error (Option Preparation))
    → is_prepared r ≡ true
    → r ≡ ok (some (preparation_or d r))
prepared_of d (ok (some p)) h = refl
prepared_of d (ok none) h = cc
prepared_of d (err e) h = cc

preparing_two : is_prepared (prepare std json four two settings) ≡ true
unfolding prepare active_path active_loop indexed entries find_cut_point valid_cut_points
    cut_points_from first_from budget_loop back_loop protect_tool_unit last_compaction_index
    index_entry estimate_entry_tokens estimate_message_tokens estimate_tokens_for_chars
    find_turn_start_index turn_start_loop two second_append one first_append empty append
    generate_entry_id lookup has insert prepare_entry store_entry validate_entry filled
    validate_message validate_compaction_reference new
preparing_two = refl

abbrev compacted : Entry
compacted = record zero_entry {
  type = EntryType.compaction;
  parent_id = two.leaf_id;
  first_kept_entry_id =
      (preparation_or no_preparation (prepare std json four two settings)).first_kept_entry_id;
}

prepare-validate_compaction_reference_example : validate_compaction_reference two compacted ≡ ok tt
prepare-validate_compaction_reference_example =
    prepare-validate_compaction_reference std json four two settings
      (preparation_or no_preparation (prepare std json four two settings)) compacted two-IsValid
      (prepared_of no_preparation (prepare std json four two settings) preparing_two) refl refl

abbrev touched : FileOperations
touched = add_tool_path std (add_tool_path std new_file_operations "read" "a.go") "edit" "a.go"

compute_file_lists-contains_example :
    (contains "a.go" (compute_file_lists std json touched).1
      ≡ (contains "a.go" touched.written || contains "a.go" touched.edited))
    × (contains "a.go" (compute_file_lists std json touched).0 ≡ (
        contains "a.go" touched.read
        && not (contains "a.go" (compute_file_lists std json touched).1)))
compute_file_lists-contains_example =
    compute_file_lists-contains std json touched "a.go" (λ x l. refl)

abbrev touching : String → Entry
touching name = said "t" (
    AgentMessage.tool_result (record {
      role = MessageRole.tool_result;
      tool_call_id = "a";
      tool_name = name;
      content = [];
      details = some "a.go";
      is_error = false;
      timestamp = 1;
    }))

edit_seen :
    (collect_summary_details std json (touching "read" ∷ touching "edit" ∷ [])).modified_files
    ≡ "a.go" ∷ []
unfolding collect_summary_details collect extract_entry add_named add_path
edit_seen = refl

collect_summary_details-append_example :
    (contains "a.go"
        (collect_summary_details std json
          ((touching "read" ∷ []) ++ touching "edit" ∷ [])).modified_files
      ≡ (contains "a.go" (collect_summary_details std json (touching "read" ∷ [])).modified_files
          || contains "a.go"
              (collect_summary_details std json (touching "edit" ∷ [])).modified_files))
    × (contains "a.go"
          (collect_summary_details std json
            ((touching "read" ∷ []) ++ touching "edit" ∷ [])).read_files
        ≡ ((contains "a.go" (collect_summary_details std json (touching "read" ∷ [])).read_files
              || contains "a.go"
                  (collect_summary_details std json (touching "edit" ∷ [])).read_files)
            && not (
                contains "a.go"
                  (collect_summary_details std json
                    ((touching "read" ∷ []) ++ touching "edit" ∷ [])).modified_files)))
collect_summary_details-append_example =
    collect_summary_details-append std json "a.go" (touching "read" ∷ []) (touching "edit" ∷ [])
      (λ x l. refl)
