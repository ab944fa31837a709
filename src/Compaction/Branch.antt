-- ===== src/Compaction/Branch.antt =====
-- internal/agent/runtime/compaction/branch_summarization.go: `PrepareBranchEntries`, the newest messages
-- of a branch that a token budget allows. A budget that is not positive, which means no limit, is 0.
pub mod Budget
use oops.Prelude.{
  ℕ, zero, suc, ◌+◌, ◌*◌, String, List, [], ◌∷◌, Bool, true, false, not, ◌&&◌, ◌||◌, length, ltb,
  if◌then◌else◌,
}
use oops.Ai.Types.{Stdlib, AgentMessage, MessageList, is_nil}
use oops.Session.Entry.{Entry, is_compaction, is_branch_summary}
use oops.Session.Summary.{nth, estimate_entry_tokens}
use oops.Compaction.Files.{
  FileOperations, new_file_operations, extract_file_operations, merge_entry_details,
}
use oops.Session.Details.{Json}
use oops.Compaction.Prepare.{message_from_entry}

pub record BranchPreparation : Type 0 where
  pub messages : MessageList
  pub file_operations : FileOperations
  pub total_tokens : ℕ

abbrev pub is_summary : Entry → Bool
is_summary entry = is_compaction entry.type || is_branch_summary entry.type

module _ (std : Stdlib) (json : Json) (byte_length : String → ℕ) where
  unfoldable pub merge_summaries : FileOperations → List Entry → FileOperations
  merge_summaries ops [] = ops
  merge_summaries ops (entry ∷ rest) =
      merge_summaries
        (if is_branch_summary entry.type then merge_entry_details std json ops entry else ops) rest

  abbrev pub with_entry : Entry → BranchPreparation → BranchPreparation
  with_entry entry p = record p {
    messages = message_from_entry std entry true ∷ p.messages;
    total_tokens = p.total_tokens + estimate_entry_tokens byte_length entry;
  }

  abbrev pub with_operations : Entry → BranchPreparation → BranchPreparation
  with_operations entry p = record p {
    file_operations = extract_file_operations std json entry.message p.file_operations;
  }

  -- A summary that is over the budget is still taken if less than nine tenths are used.
  abbrev pub last_taken : ℕ → Entry → BranchPreparation → BranchPreparation
  last_taken budget entry p =
      if is_summary entry && ltb (p.total_tokens * 10) (budget * 9) then with_entry entry p else p

  abbrev pub is_over : ℕ → Entry → BranchPreparation → Bool
  is_over budget entry p =
      ltb 0 budget && ltb budget (p.total_tokens + estimate_entry_tokens byte_length entry)

  -- The loop over the entries before index `n`, from the last one.
  unfoldable pub branch_loop : List Entry → ℕ → ℕ → BranchPreparation → BranchPreparation
  branch_loop entries budget zero p = p
  branch_loop entries budget (suc n) p =
      let entry = nth entries n in
      let silent = is_nil (message_from_entry std entry true) in
      let now = with_operations entry p in
      let rest = branch_loop entries budget n (if silent then now else with_entry entry now) in
      if not silent && is_over budget entry now then last_taken budget entry now else rest

  unfoldable pub prepare_branch_entries : List Entry → ℕ → BranchPreparation
  prepare_branch_entries entries budget = branch_loop entries budget (length entries) (record {
    messages = [];
    file_operations = merge_summaries new_file_operations entries;
    total_tokens = 0;
  })
