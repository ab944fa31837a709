-- ===== src/Session/Sequence.antt =====
-- internal/agent/runtime/session/message_sequence.go: do the tool results of a message list answer
-- the tool calls of the assistant messages before them?
-- The nested loop of `analyzeMessageSequence` is two functions: `scan` is the inner one, `step_item`
-- the body of the outer one. Setting `i = j` skips the items that the inner loop has read.
pub mod Grammar
pub mod Scanning
pub mod Exact
pub mod Complete
pub mod Decides
use oops.Prelude.{
  ℕ, zero, suc, ◌+◌, String, Option, none, some, List, [], ◌∷◌, Bool, true, false, not, ◌&&◌, ◌||◌,
  length, contains, add, ◌==◌, if◌then◌else◌, Result, ok, err,
}
use oops.Ai.Types.{
  Content, StopReason, AssistantMessage, AgentMessage, MessageList, as_assistant_message,
  as_tool_result_message,
}

pub data Status : Type 0 where
  complete incomplete invalid : Status

pub data SequenceError : Type 0 where
  no_preceding_call : String → SequenceError
  unmatched_result : String → SequenceError
  duplicate_result : String → SequenceError
  missing_results : ℕ → ℕ → SequenceError

-- The pending index -1 is `none`.
pub record Analysis : Type 0 where
  pub status : Status
  pub pending_assistant_index : Option ℕ
  pub error : Option SequenceError

pub record Item : Type 0 where
  pub index : ℕ
  pub message : AgentMessage

abbrev failed_reason : StopReason → Bool
failed_reason StopReason.error = true
failed_reason StopReason.aborted = true
failed_reason _ = false

abbrev include_assistant : Option AssistantMessage → Bool
include_assistant none = true
include_assistant (some assistant) = not (failed_reason assistant.stop_reason)

pub include_message_in_sequence : AgentMessage → Bool
include_message_in_sequence message = include_assistant (as_assistant_message message)

empty_content : List Content → Bool
empty_content [] = true
empty_content (Content.thinking c ∷ rest) = empty_content rest
empty_content (Content.nil ∷ rest) = empty_content rest
empty_content (_ ∷ _) = false

pub empty_assistant_message : AgentMessage → Bool
unfolding empty_content
empty_assistant_message (AgentMessage.assistant m) = empty_content m.content
empty_assistant_message _ = false

items_from : ℕ → MessageList → List Item
items_from index [] = []
items_from index (message ∷ rest) =
    let others = items_from (index + 1) rest in
    if not (include_message_in_sequence message) || empty_assistant_message message
    then others
    else record { index = index; message = message } ∷ others

unfoldable pub message_sequence_items : MessageList → List Item
unfolding items_from include_message_in_sequence empty_assistant_message
message_sequence_items messages = items_from 0 messages

unfoldable pub tool_call_id_set : List Content → List String
tool_call_id_set [] = []
tool_call_id_set (Content.tool_call call ∷ rest) = add call.id (tool_call_id_set rest)
tool_call_id_set (_ ∷ rest) = tool_call_id_set rest

abbrev pub invalid_message_sequence : SequenceError → Analysis
invalid_message_sequence e = record {
  status = Status.invalid;
  pending_assistant_index = none;
  error = some e;
}

abbrev pub complete_message_sequence : Analysis
complete_message_sequence = record {
  status = Status.complete;
  pending_assistant_index = none;
  error = none;
}

abbrev pub incomplete_message_sequence : ℕ → ℕ → ℕ → Analysis
incomplete_message_sequence index expected seen = record {
  status = Status.incomplete;
  pending_assistant_index = some index;
  error = some (missing_results expected seen);
}

-- How the inner loop ends: with an error, or at an item that is no tool result or at the end of the
-- list, having seen the ids and read that many items.
pub data Scan : Type 0 where
  failed : SequenceError → Scan
  stopped : (seen : List String) → (read : ℕ) → (at_end : Bool) → Scan

pub scan : List String → List String → ℕ → List Item → Scan
scan expected seen read [] = stopped seen read true
scan expected seen read (item ∷ rest) = elim (as_tool_result_message item.message) [
  | none ↦ stopped seen read false
  | some result ↦
      let next = scan expected (add result.tool_call_id seen) (read + 1) rest in
      if not (contains result.tool_call_id expected)
      then failed (unmatched_result result.tool_call_id)
      else if contains result.tool_call_id seen
      then failed (duplicate_result result.tool_call_id)
      else next
]

-- The body of the outer loop returns, or goes on after skipping the items that it has read.
pub data Outcome : Type 0 where
  go_on : ℕ → Outcome
  return : Analysis → Outcome

abbrev pub after_scan : ℕ → List String → Scan → Outcome
after_scan index expected (failed e) = return (invalid_message_sequence e)
after_scan index expected (stopped seen read at_end) =
    if length seen == length expected
    then go_on read
    else if at_end
    then return (incomplete_message_sequence index (length expected) (length seen))
    else return (invalid_message_sequence (missing_results (length expected) (length seen)))

abbrev pub after_calls : ℕ → List String → List Item → Outcome
after_calls index [] rest = go_on 0
after_calls index (id ∷ ids) rest = after_scan index (id ∷ ids) (scan (id ∷ ids) [] 0 rest)

pub step_item : Item → List Item → Outcome
step_item item rest = elim item.message [
  | AgentMessage.tool_result result ↦
      return (invalid_message_sequence (no_preceding_call result.tool_call_id))
  | AgentMessage.assistant assistant ↦
      after_calls item.index (tool_call_id_set assistant.content) rest
  | _ ↦ go_on 0
]

pub analyze_items : ℕ → List Item → Analysis
analyze_items skip [] = complete_message_sequence
analyze_items (suc skip) (item ∷ rest) = analyze_items skip rest
analyze_items zero (item ∷ rest) = elim (step_item item rest) [
  | go_on read ↦ analyze_items read rest
  | return analysis ↦ analysis
]

unfoldable pub analyze_message_sequence : MessageList → Analysis
unfolding analyze_items step_item scan tool_call_id_set message_sequence_items
analyze_message_sequence messages = analyze_items 0 (message_sequence_items messages)

abbrev pub verdict : Analysis → Result SequenceError (Unit {0})
verdict analysis = elim analysis.status [
  | Status.complete ↦ ok tt
  | _ ↦ elim analysis.error [ none ↦ ok tt | some e ↦ err e ]
]

unfoldable pub validate_message_sequence : MessageList → Result SequenceError (Unit {0})
unfolding analyze_message_sequence
validate_message_sequence messages = verdict (analyze_message_sequence messages)
