-- ===== src/Session/Context.antt =====
-- internal/agent/runtime/session/session.go and messages.go: the messages that a leaf gives the
-- model, and the leaf from which a run may go on.
use Prim.Native.String.{◌++◌ as str_append}
use oops.Prelude.{
  ℕ, zero, suc, String, Option, none, some, List, [], ◌∷◌, ◌++◌, Bool, true, false, not, ◌||◌,
  lookup, length, drop, get_elem?, str_eq, if◌then◌else◌, Result, ok, err, map,
}
use oops.Ai.Types.{
  Stdlib, Content, MessageRole, AssistantMessage, AgentMessage, MessageList, is_nil,
  as_assistant_message, new_text_content,
}
use oops.Session.Sequence.{Analysis, Status, analyze_message_sequence, validate_message_sequence}
use oops.Session.Entry.{Entry, EntryType, Context}
use oops.Session.Tree.{Session, path_to_leaf, last_compaction_index}

abbrev compaction_summary_prefix : String
compaction_summary_prefix =
    "The conversation history before this point was compacted into the following summary:\n\n<summary>\n"

abbrev compaction_summary_suffix : String
compaction_summary_suffix = "\n</summary>"

abbrev branch_summary_prefix : String
branch_summary_prefix =
    "The following is a summary of a branch that this conversation came back from:\n\n<summary>\n"

abbrev branch_summary_suffix : String
branch_summary_suffix = "</summary>"

module _ (std : Stdlib) where
  abbrev summary_message : String → ℕ → AgentMessage
  summary_message text timestamp = AgentMessage.user (record {
    role = MessageRole.unset;
    content = Content.text (new_text_content text) ∷ [];
    timestamp = std.unix_milli timestamp;
  })

  pub compaction_summary_message : String → ℕ → AgentMessage
  compaction_summary_message summary timestamp =
      summary_message
        (str_append (str_append compaction_summary_prefix summary) compaction_summary_suffix)
        timestamp

  pub branch_summary_message : String → ℕ → AgentMessage
  branch_summary_message summary timestamp =
      summary_message (str_append (str_append branch_summary_prefix summary) branch_summary_suffix)
        timestamp

-- The loop of `entriesAfterCompaction` over the entries before the compaction.
kept_before : ℕ → Bool → String → List Entry → List Entry
kept_before zero found first_kept path = []
kept_before (suc n) found first_kept [] = []
kept_before (suc n) found first_kept (entry ∷ path) =
    let found' = found || str_eq entry.id first_kept in
    let rest = kept_before n found' first_kept path in if found' then entry ∷ rest else rest

unfoldable pub entries_after_compaction : List Entry → ℕ → String → List Entry
unfolding kept_before
entries_after_compaction path index first_kept =
    kept_before index (str_eq first_kept "") first_kept path ++ drop (suc index) path

abbrev set_unless_empty : String → String → String
set_unless_empty value old = if str_eq value "" then old else value

abbrev applied_assistant : Context → Option AssistantMessage → Context
applied_assistant ctx none = ctx
applied_assistant ctx (some message) = record ctx {
  model = set_unless_empty message.model ctx.model;
  provider = set_unless_empty message.provider ctx.provider;
}

pub apply_state_entry : Context → Entry → Context
apply_state_entry ctx entry = elim entry.type [
  | EntryType.message ↦ applied_assistant ctx (as_assistant_message entry.message)
  | EntryType.model_change ↦ record ctx { model = entry.model; provider = entry.provider }
  | EntryType.thinking_level_change ↦ record ctx { reasoning = entry.reasoning }
  | EntryType.active_tools_change ↦ record ctx {
    tool_names = entry.tool_names;
    tool_names_set = true;
  }
  | _ ↦ ctx
]

pub apply_state : Context → List Entry → Context
unfolding apply_state_entry
apply_state ctx [] = ctx
apply_state ctx (entry ∷ rest) = apply_state (apply_state_entry ctx entry) rest

abbrev empty_context : String → Context
empty_context leaf_id = record {
  messages = [];
  model = "";
  provider = "";
  reasoning = "";
  tool_names = [];
  tool_names_set = false;
  leaf_id = leaf_id;
}

module _ (std : Stdlib) where
  -- The message that an entry adds to a context, in `appendContextMessage` and in
  -- `appendContextEntryMessage`, which both leave a nil message out.
  abbrev pub entry_message : Entry → AgentMessage
  entry_message entry = elim entry.type [
    | EntryType.message ↦ entry.message
    | EntryType.custom_message ↦ entry.message
    | EntryType.branch_summary ↦ branch_summary_message std entry.summary entry.timestamp
    | _ ↦ AgentMessage.nil
  ]

  -- `for … { appendContextMessage(&ctx, entry) }`
  context_messages : List Entry → MessageList
  context_messages [] = []
  context_messages (entry ∷ rest) =
      let others = context_messages rest in
      if is_nil (entry_message entry) then others else entry_message entry ∷ others

  -- `for … { appendContextEntryMessage(entry, appendEntry) }`: each message with its entry's id
  context_entries : List Entry → List (String × AgentMessage)
  context_entries [] = []
  context_entries (entry ∷ rest) =
      let others = context_entries rest in
      if is_nil (entry_message entry) then others else (entry.id, entry_message entry) ∷ others

  context_path_messages : List Entry → MessageList
  unfolding context_messages
  context_path_messages path = elim (last_compaction_index path) [
    | none ↦ context_messages path
    | some index ↦ elim (get_elem? path index) [
      | none ↦ context_messages path
      | some compaction ↦
          compaction_summary_message std compaction.summary compaction.timestamp
          ∷ context_messages (entries_after_compaction path index compaction.first_kept_entry_id)
    ]
  ]

  unfoldable pub build_context_for_leaf : Session → String → Context
  unfolding context_path_messages apply_state
  build_context_for_leaf s leaf_id =
      let path = path_to_leaf s leaf_id in
      record (apply_state (empty_context leaf_id) path) { messages = context_path_messages path }

  -- `contextMessagesForLeafLocked`, its two results paired item by item
  unfoldable pub context_messages_for_leaf : Session → String → List (String × AgentMessage)
  unfolding context_entries
  context_messages_for_leaf s leaf_id =
      let path = path_to_leaf s leaf_id in
      elim (last_compaction_index path) [
        | none ↦ context_entries path
        | some index ↦ elim (get_elem? path index) [
          | none ↦ context_entries path
          | some compaction ↦
              (
                compaction.id,
                compaction_summary_message std compaction.summary compaction.timestamp,
              )
              ∷ context_entries (entries_after_compaction path index compaction.first_kept_entry_id)
        ]
      ]

  unfoldable pub analyze_leaf : Session → String → Analysis × List String
  analyze_leaf s leaf_id =
      let found = context_messages_for_leaf s leaf_id in
      (analyze_message_sequence (map (λ x. x.1) found), map (λ x. x.0) found)

  abbrev pub is_ok {ℓ} : {E A : Type ℓ} → Result E A → Bool
  is_ok (ok a) = true
  is_ok (err e) = false

  -- The loop of `safeBoundaryLocked`, which goes up one parent a round.
  unfoldable pub boundary_loop : ℕ → Session → String → String
  boundary_loop zero s leaf_id = ""
  boundary_loop (suc fuel) s leaf_id =
      let up : String = elim (lookup leaf_id s.entries) [
        | none ↦ ""
        | some entry ↦ boundary_loop fuel s entry.parent_id
      ] in
      if is_ok (validate_message_sequence (build_context_for_leaf s leaf_id).messages)
      then leaf_id
      else if str_eq leaf_id ""
      then ""
      else up

  unfoldable pub safe_boundary : Session → String → String
  unfolding boundary_loop
  safe_boundary s leaf_id = boundary_loop (suc (suc (length (path_to_leaf s leaf_id)))) s leaf_id

  -- The entry of the pending assistant message, if its index is in range and it is in the session.
  unfoldable pub pending_entry : Session → List String → Option ℕ → Option Entry
  pending_entry s ids none = none
  pending_entry s ids (some index) = elim (get_elem? ids index) [
    | none ↦ none
    | some id ↦ lookup id s.entries
  ]

  abbrev pub is_incomplete : Status → Bool
  is_incomplete Status.incomplete = true
  is_incomplete _ = false

  unfoldable pub executable_leaf : Session → String → String
  unfolding pending_entry
  executable_leaf s leaf_id =
      let (analysis, ids) = analyze_leaf s leaf_id in
      if not (is_incomplete analysis.status)
      then leaf_id
      else elim (pending_entry s ids analysis.pending_assistant_index) [
        | none ↦ safe_boundary s leaf_id
        | some assistant ↦ assistant.parent_id
      ]

  unfoldable pub build_context : Session → Context
  unfolding executable_leaf build_context_for_leaf
  build_context s = build_context_for_leaf s (executable_leaf s s.leaf_id)
