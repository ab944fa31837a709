-- ===== src/Session/Entry.antt =====
-- internal/agent/runtime/session/types.go: the entries of a session and their validation.
-- Raw JSON is a text, absent where the code has nil; an instant is the number of nanoseconds since
-- Go's zero time, so `IsZero` is `== 0`; a version or token count below zero is left out.
use oops.Prelude.{
  ℕ, String, Option, none, List, [], Bool, true, false, ◌≡◌, arith, ◌&&◌, Result, ok, err, ◌>>◌,
  fail_if, str_eq, ◌==◌, not,
}
use oops.Ai.Types.{Stdlib, AgentMessage, MessageList, is_nil}
use oops.Ai.Validate.{validate_message}
use oops.Ai.Validate
use oops.Session.Sequence.{SequenceError}

abbrev pub format_version : ℕ
format_version = 1

-- `unset` is the empty string, `other` any string that is no constant.
pub data EntryType : Type 0 where
  unset session_info message model_change thinking_level_change active_tools_change : EntryType
  compaction branch_summary custom custom_message label leaf : EntryType
  other : String → EntryType

pub record Entry : Type 0 where
  pub type : EntryType
  pub version : ℕ
  pub id : String
  pub parent_id : String
  pub timestamp : ℕ
  pub cwd : String
  pub project_id : String
  pub message : AgentMessage
  pub model : String
  pub provider : String
  pub reasoning : String
  pub tool_names : List String
  pub summary : String
  pub first_kept_entry_id : String
  pub tokens_before : ℕ
  pub details : Option String
  pub custom_type : String
  pub payload : Option String
  pub target_id : String
  pub label : String
  pub name : String
  pub title : String
  pub leaf_id : String

-- `Entry{}`
abbrev pub zero_entry : Entry
zero_entry = record {
  type = EntryType.unset;
  version = 0;
  id = "";
  parent_id = "";
  timestamp = 0;
  cwd = "";
  project_id = "";
  message = AgentMessage.nil;
  model = "";
  provider = "";
  reasoning = "";
  tool_names = [];
  summary = "";
  first_kept_entry_id = "";
  tokens_before = 0;
  details = none;
  custom_type = "";
  payload = none;
  target_id = "";
  label = "";
  name = "";
  title = "";
  leaf_id = "";
}

-- The errors of the session package, by the place that makes them.
pub data Error : Type 0 where
  requires_type unknown_type version requires_id requires_timestamp : Error
  message : Validate.Error → Error
  message_entry_requires_message custom_message_requires_message : Error
  compaction_requires_summary compaction_requires_first_kept : Error
  branch_summary_requires_summary label_requires_target : Error
  label_target_unknown : String → Error
  first_kept_unknown first_kept_not_on_path : String → Error
  unknown_leaf : String → Error
  duplicate_id : String → Error
  unknown_parent : String → Error
  unknown_leaf_target : String → Error
  invalid_history : SequenceError → Error
  fork_target_unknown fork_target_not_user : String → Error
  fork_position : String → Error

abbrev pub is_session_info : EntryType → Bool
is_session_info EntryType.session_info = true
is_session_info _ = false

abbrev pub is_message : EntryType → Bool
is_message EntryType.message = true
is_message _ = false

abbrev pub is_custom_message : EntryType → Bool
is_custom_message EntryType.custom_message = true
is_custom_message _ = false

abbrev pub is_compaction : EntryType → Bool
is_compaction EntryType.compaction = true
is_compaction _ = false

abbrev pub is_branch_summary : EntryType → Bool
is_branch_summary EntryType.branch_summary = true
is_branch_summary _ = false

abbrev pub is_label : EntryType → Bool
is_label EntryType.label = true
is_label _ = false

abbrev pub is_leaf : EntryType → Bool
is_leaf EntryType.leaf = true
is_leaf _ = false

pub validate_entry_type : EntryType → Result Error (Unit {0})
validate_entry_type EntryType.unset = err requires_type
validate_entry_type (EntryType.other s) = err unknown_type
validate_entry_type _ = ok tt

abbrev lift_message : Result Validate.Error (Unit {0}) → Result Error (Unit {0})
lift_message (ok a) = ok a
lift_message (err e) = err (Error.message e)

module _ (std : Stdlib) where
  pub validate_present : AgentMessage → Result Error (Unit {0})
  validate_present AgentMessage.nil = ok tt
  validate_present m = lift_message (validate_message std m)

  unfoldable pub validate_entry : Entry → Result Error (Unit {0})
  unfolding validate_entry_type validate_present
  validate_entry e = do
    validate_entry_type e.type
    fail_if (not (e.version == format_version)) version
    fail_if (str_eq e.id "") requires_id
    fail_if (e.timestamp == 0) requires_timestamp
    validate_present e.message
    fail_if (is_message e.type && is_nil e.message) message_entry_requires_message
    fail_if (is_custom_message e.type && is_nil e.message) custom_message_requires_message
    fail_if (is_compaction e.type && str_eq e.summary "") compaction_requires_summary
    fail_if (is_compaction e.type && str_eq e.first_kept_entry_id "") compaction_requires_first_kept
    fail_if (is_branch_summary e.type && str_eq e.summary "") branch_summary_requires_summary
    fail_if (is_label e.type && str_eq e.target_id "") label_requires_target

  pub validate_named : (e : Entry) → validate_entry e ≡ ok tt → str_eq e.id "" ≡ false
  unfolding validate_entry
  validate_named e h = ground arith

pub record Context : Type 0 where
  pub messages : MessageList
  pub model : String
  pub provider : String
  pub reasoning : String
  pub tool_names : List String
  pub tool_names_set : Bool
  pub leaf_id : String

-- A `ForkPosition`; `unset` is the empty string, `other` any string that is no constant.
pub data ForkPosition : Type 0 where
  unset before at : ForkPosition
  other : String → ForkPosition

pub record ForkOptions : Type 0 where
  pub id : String
  pub entry_id : String
  pub position : ForkPosition
