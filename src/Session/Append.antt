-- ===== src/Session/Append.antt =====
-- internal/agent/runtime/session/session.go: the writes of a session, one entry at a time.
-- `time.Now` and the UUIDs that `newUUIDv7` draws come with each call; the lock makes a call one step.
pub mod Ids
use Prim.Native.String.{slice}
use oops.Prelude.{
  ℕ, zero, suc, ◌+◌, String, Option, none, some, List, [], ◌∷◌, ◌++◌, Bool, true, false, not, ◌&&◌,
  ◌||◌, Dict, lookup, insert, remove, has, str_eq, ltb, ◌==◌, if◌then◌else◌, Result, ok, err, ◌>>=◌,
  ◌>>◌, fail_if,
}
use oops.Ai.Types.{Stdlib, AgentMessage}
use oops.Session.Entry.{
  Entry, EntryType, Error, zero_entry, format_version, validate_entry, is_session_info, is_label,
  is_leaf, requires_type, label_target_unknown, unknown_leaf,
}
use oops.Session.Tree.{Session, validate_compaction_reference}

-- What one call reads from outside: the clock, and the UUIDs in the order of their drawing.
pub record Call : Type 0 where
  pub now : ℕ
  pub uuid : ℕ → String

-- The loop of `generateEntryID`, `rounds` of its 100 tries left; the first 8 bytes of a UUID are
-- tried, and behind the loop the next UUID is taken whole.
pub generate_from : Dict Entry → (ℕ → String) → ℕ → ℕ → String
generate_from entries uuid zero draw = uuid draw
generate_from entries uuid (suc rounds) draw =
    let id = slice (uuid draw) 0 8 in
    let rest = generate_from entries uuid rounds (draw + 1) in if has id entries then rest else id

unfoldable pub generate_entry_id : Dict Entry → (ℕ → String) → String
unfolding generate_from
generate_entry_id entries uuid = generate_from entries uuid 100 0

-- The defaults that `prepareEntryLocked` fills in, in its order.
unfoldable pub filled : Call → Session → Entry → Entry
filled call s entry =
    let id = if str_eq entry.id "" then generate_entry_id s.entries call.uuid else entry.id in
    record entry {
      id = id;
      version = if entry.version == 0 then format_version else entry.version;
      timestamp = if entry.timestamp == 0 then call.now else entry.timestamp;
      parent_id =
          if not (is_session_info entry.type)
            && not (is_leaf entry.type)
            && str_eq entry.parent_id ""
          then s.leaf_id
          else entry.parent_id;
    }

abbrev is_unset : EntryType → Bool
is_unset EntryType.unset = true
is_unset _ = false

unfoldable pub stored_order : Session → Entry → List String
stored_order s entry = if has entry.id s.entries then s.order else s.order ++ entry.id ∷ []

-- `if value != "" { s.field = value }` for a session_info entry
abbrev metadata : Entry → String → String → String
metadata entry value old =
    if is_session_info entry.type && not (str_eq value "") then value else old

abbrev stored_leaf : Session → Entry → String
stored_leaf s entry =
    if is_session_info entry.type
    then s.leaf_id
    else if is_leaf entry.type
    then entry.leaf_id
    else entry.id

module _ (std : Stdlib) where
  unfoldable pub prepare_entry : Call → Session → Entry → Result Error Entry
  prepare_entry call s entry =
      let e = filled call s entry in
      fail_if (is_unset entry.type) requires_type >>= λ _. validate_entry std e >>= λ _.
      fail_if (is_label e.type && not (has e.target_id s.entries))
        (label_target_unknown e.target_id)
      >>= λ _. validate_compaction_reference s e >>= λ _. ok e

  stored_labels : Session → Entry → Dict String
  stored_labels s entry =
      let label = std.trim_space entry.label in
      if not (is_label entry.type)
      then s.labels_by_id
      else if str_eq label ""
      then remove entry.target_id s.labels_by_id
      else insert entry.target_id label s.labels_by_id

  unfoldable pub store_entry : Session → Entry → Session
  unfolding stored_order stored_labels
  store_entry s entry = record s {
    order = stored_order s entry;
    entries = insert entry.id entry s.entries;
    labels_by_id = stored_labels s entry;
    cwd = metadata entry entry.cwd s.cwd;
    project_id = metadata entry entry.project_id s.project_id;
    name = metadata entry entry.name s.name;
    title = metadata entry entry.title s.title;
    leaf_id = stored_leaf s entry;
    created_at =
        if s.created_at == 0 || ltb entry.timestamp s.created_at
        then entry.timestamp
        else s.created_at;
    updated_at =
        if s.updated_at == 0 || ltb s.updated_at entry.timestamp
        then entry.timestamp
        else s.updated_at;
  }

  -- `append`: the session after the call, and the entry that the call returns.
  unfoldable pub append : Call → Session → Entry → Result Error (Session × Entry)
  append call s entry = prepare_entry call s entry >>= λ e. ok (store_entry s e, e)

  unfoldable pub append_leaf : Call → Session → String → Result Error (Session × Entry)
  append_leaf call s leaf_id =
      fail_if (not (str_eq leaf_id "") && not (has leaf_id s.entries)) (unknown_leaf leaf_id)
      >>= λ _. append call s (record zero_entry { type = EntryType.leaf; leaf_id = leaf_id })

-- `MoveTo`
unfoldable pub move_to : ℕ → Session → String → Result Error Session
move_to now s leaf_id =
    if not (str_eq leaf_id "") && not (has leaf_id s.entries)
    then err (unknown_leaf leaf_id)
    else ok (record s { leaf_id = leaf_id; updated_at = now })

-- The entries that the methods `AppendSessionInfoWithProject`, `AppendMessage`, … hand to `append`.
-- `details` are marshalled by the caller.
abbrev pub session_info_entry : (cwd name project_id : String) → Entry
session_info_entry cwd name project_id = record zero_entry {
  type = EntryType.session_info;
  cwd = cwd;
  name = name;
  project_id = project_id;
}

abbrev pub message_entry : AgentMessage → Entry
message_entry message = record zero_entry { type = EntryType.message; message = message }

abbrev pub model_change_entry : (provider model : String) → Entry
model_change_entry provider model = record zero_entry {
  type = EntryType.model_change;
  provider = provider;
  model = model;
}

abbrev pub thinking_level_change_entry : String → Entry
thinking_level_change_entry reasoning = record zero_entry {
  type = EntryType.thinking_level_change;
  reasoning = reasoning;
}

abbrev pub active_tools_change_entry : List String → Entry
active_tools_change_entry tool_names = record zero_entry {
  type = EntryType.active_tools_change;
  tool_names = tool_names;
}

abbrev pub compaction_entry :
    (summary first_kept_entry_id : String) → (tokens_before : ℕ) → Option String → Entry
compaction_entry summary first_kept_entry_id tokens_before details = record zero_entry {
  type = EntryType.compaction;
  summary = summary;
  first_kept_entry_id = first_kept_entry_id;
  tokens_before = tokens_before;
  details = details;
}

abbrev pub branch_summary_entry : String → Option String → Entry
branch_summary_entry summary details = record zero_entry {
  type = EntryType.branch_summary;
  summary = summary;
  details = details;
}

abbrev pub custom_entry : String → Option String → Entry
custom_entry custom_type payload = record zero_entry {
  type = EntryType.custom;
  custom_type = custom_type;
  payload = payload;
}

abbrev pub label_entry : (target_id label : String) → Entry
label_entry target_id label = record zero_entry {
  type = EntryType.label;
  target_id = target_id;
  label = label;
}

abbrev pub session_name_entry : String → Entry
session_name_entry name = record zero_entry { type = EntryType.session_info; name = name }

abbrev pub session_title_entry : String → Entry
session_title_entry title = record zero_entry { type = EntryType.session_info; title = title }
