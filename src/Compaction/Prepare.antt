-- ===== src/Compaction/Prepare.antt =====
-- internal/agent/runtime/compaction/compaction.go: `Prepare`, the content of one compaction.
pub mod Keeps
pub mod Range
use oops.Prelude.{
  ℕ, zero, suc, ◌+◌, ◌-◌, String, Option, none, some, List, [], ◌∷◌, Bool, true, false, not, ◌&&◌,
  ◌||◌, length, leb, str_eq, if◌then◌else◌, Result, ok, err,
}
use oops.Ai.Types.{Stdlib, AgentMessage, MessageList, is_nil}
use oops.Session.Entry.{Entry, EntryType, is_compaction, is_branch_summary}
use oops.Session.Tree.{Session, last_compaction_index, index_entry}
use oops.Session.Context.{build_context, compaction_summary_message, branch_summary_message}
use oops.Compaction.Usage.{Settings, estimate_context_tokens}
use oops.Compaction.Cut.{CutPoint, is_tool_result, find_cut_point}
use oops.Session.Summary.{nth}
use oops.Compaction.Files.{
  FileOperations, new_file_operations, extract_file_operations, merge_entry_details,
}
use oops.Session.Details.{Json}
use oops.Compaction.Path.{Error, outside_path, requires_id, active_path}

pub record Preparation : Type 0 where
  pub first_kept_entry_id : String
  pub messages : MessageList
  pub turn_prefix : MessageList
  pub split_turn : Bool
  pub tokens_before : ℕ
  pub previous_summary : String
  pub file_operations : FileOperations
  pub settings : Settings

module _ (std : Stdlib) where
  abbrev pub spoken_message : Bool → AgentMessage → AgentMessage
  spoken_message skip_tool_result m =
      if skip_tool_result && is_tool_result m then AgentMessage.nil else m

  abbrev pub message_from_entry : Entry → Bool → AgentMessage
  message_from_entry entry skip_tool_result = elim entry.type [
    | EntryType.message ↦ spoken_message skip_tool_result entry.message
    | EntryType.custom_message ↦ spoken_message skip_tool_result entry.message
    | EntryType.branch_summary ↦ branch_summary_message std entry.summary entry.timestamp
    | EntryType.compaction ↦ compaction_summary_message std entry.summary entry.timestamp
    | _ ↦ AgentMessage.nil
  ]

  -- The messages of `n` entries from `index` on.
  unfoldable pub messages_loop : List Entry → Bool → (index n : ℕ) → MessageList
  messages_loop entries skip_compaction index zero = []
  messages_loop entries skip_compaction index (suc n) =
      let rest = messages_loop entries skip_compaction (suc index) n in
      let entry = nth entries index in
      let message = message_from_entry entry false in
      if (skip_compaction && is_compaction entry.type) || is_nil message
      then rest
      else message ∷ rest

  unfoldable pub messages_from_entries : List Entry → (start end : ℕ) → Bool → MessageList
  messages_from_entries entries start end skip_compaction =
      messages_loop entries skip_compaction start (end - start)

  module _ (json : Json) where
    unfoldable pub operations_loop : List Entry → (index n : ℕ) → FileOperations → FileOperations
    operations_loop entries index zero ops = ops
    operations_loop entries index (suc n) ops =
        let entry = nth entries index in
        let merged =
          if is_branch_summary entry.type then merge_entry_details std json ops entry else ops in
        operations_loop entries (suc index) n
          (extract_file_operations std json entry.message merged)

    abbrev pub previous_operations : List Entry → Option ℕ → FileOperations
    previous_operations entries none = new_file_operations
    previous_operations entries (some index) =
        merge_entry_details std json new_file_operations (nth entries index)

    unfoldable pub collect_preparation_file_operations :
        List Entry → (start end : ℕ) → Option ℕ → FileOperations
    collect_preparation_file_operations entries start end previous =
        operations_loop entries start (end - start) (previous_operations entries previous)

    abbrev pub or_after : Option ℕ → ℕ → ℕ
    or_after none previous = suc previous
    or_after (some index) previous = index

    abbrev pub boundary_start : List Entry → Option ℕ → ℕ
    boundary_start path none = 0
    boundary_start path (some index) =
        or_after (index_entry path (nth path index).first_kept_entry_id) index

    abbrev pub summary_before : List Entry → Option ℕ → String
    summary_before path none = ""
    summary_before path (some index) = (nth path index).summary

    abbrev pub history_end : CutPoint → ℕ
    history_end cut =
        if cut.split_turn then turn_start cut.turn_start_index else cut.first_kept_entry_index
      where
        turn_start : Option ℕ → ℕ
        turn_start none = 0
        turn_start (some i) = i

    module _ (byte_length : String → ℕ) where
      abbrev pub prepared : Session → Settings → List Entry → (start : ℕ) → CutPoint → Preparation
      prepared s settings path start cut = record {
        first_kept_entry_id = (nth path cut.first_kept_entry_index).id;
        messages = messages_from_entries path start (history_end cut) true;
        turn_prefix =
            if cut.split_turn
            then messages_from_entries path (history_end cut) cut.first_kept_entry_index true
            else [];
        split_turn = cut.split_turn;
        tokens_before = (estimate_context_tokens byte_length (build_context std s).messages).tokens;
        previous_summary = summary_before path (last_compaction_index path);
        file_operations =
            collect_preparation_file_operations path start cut.first_kept_entry_index
              (last_compaction_index path);
        settings = settings;
      }

      abbrev pub checked :
          Session
          → Settings
          → List Entry
          → (start : ℕ) → CutPoint
          → Result Error (Option Preparation)
      checked s settings path start cut =
          if leb (length path) cut.first_kept_entry_index
          then err outside_path
          else if str_eq (nth path cut.first_kept_entry_index).id ""
          then err requires_id
          else ok (some (prepared s settings path start cut))

      abbrev pub ends_compacted : List Entry → Bool
      ends_compacted path = is_compaction (nth path (length path - 1)).type

      abbrev pub prepare_path : Session → Settings → List Entry → Result Error (Option Preparation)
      prepare_path s settings [] = ok none
      prepare_path s settings (first ∷ rest) =
          let path = first ∷ rest in
          let start = boundary_start path (last_compaction_index path) in
          if ends_compacted path
          then ok none
          else checked s settings path start
              (find_cut_point byte_length path start (length path) settings.keep_recent_tokens)

      abbrev pub prepared_from :
          Session → Settings → Result Error (List Entry) → Result Error (Option Preparation)
      prepared_from s settings (ok path) = prepare_path s settings path
      prepared_from s settings (err e) = err e

      unfoldable pub prepare : Session → Settings → Result Error (Option Preparation)
      prepare s settings = prepared_from s settings (active_path s)
