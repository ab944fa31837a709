-- ===== src/Compaction/Cut.antt =====
-- internal/agent/runtime/compaction/compaction.go: where a path is cut. An index is a natural number,
-- `-1` is `none`; a loop down to `start` has as its count the indices that are left.
pub mod Bounds
pub mod Loops
use oops.Prelude.{
  ℕ, zero, suc, ◌+◌, ◌-◌, String, Option, none, some, List, [], ◌∷◌, map, Bool, true, false, not,
  ◌&&◌, ◌||◌, length, get_elem?, ltb, leb, ◌==◌, str_eq, if◌then◌else◌,
}
use oops.Ai.Types.{
  AgentMessage, AssistantMessage, ToolResultMessage, ToolCallContent, is_nil, is_user_role,
  as_assistant_message, as_tool_result_message, tool_calls_from_assistant,
}
use oops.Ai.Estimate.{estimate_message_tokens, estimate_text_tokens}
use oops.Session.Summary.{nth, is_spoken, estimate_entry_tokens}
use oops.Session.Entry.{
  Entry, EntryType, zero_entry, is_message, is_custom_message, is_branch_summary, is_compaction,
}

pub record CutPoint : Type 0 where
  pub first_kept_entry_index : ℕ
  pub turn_start_index : Option ℕ
  pub split_turn : Bool

abbrev pub is_tool_result : AgentMessage → Bool
is_tool_result (AgentMessage.tool_result m) = true
is_tool_result _ = false

abbrev pub is_user_entry : Entry → Bool
is_user_entry entry = is_message entry.type && is_user_role entry.message

abbrev pub starts_turn : Entry → Bool
starts_turn entry =
    is_branch_summary entry.type || is_custom_message entry.type || is_user_entry entry

abbrev pub is_cut_point : Entry → Bool
is_cut_point entry =
    is_branch_summary entry.type
    || is_custom_message entry.type
    || (is_message entry.type && not (is_nil entry.message || is_tool_result entry.message))

unfoldable pub turn_start_loop : List Entry → ℕ → ℕ → Option ℕ
turn_start_loop entries start zero = none
turn_start_loop entries start (suc n) =
    let rest = turn_start_loop entries start n in
    if starts_turn (nth entries (start + n)) then some (start + n) else rest

unfoldable pub find_turn_start_index : List Entry → ℕ → ℕ → Option ℕ
find_turn_start_index entries index start = turn_start_loop entries start (suc index - start)

-- The valid cut points among `n` entries from `index` on.
unfoldable pub cut_points_from : List Entry → ℕ → ℕ → List ℕ
cut_points_from entries index zero = []
cut_points_from entries index (suc n) =
    let rest = cut_points_from entries (suc index) n in
    if is_cut_point (nth entries index) then index ∷ rest else rest

unfoldable pub valid_cut_points : List Entry → ℕ → ℕ → List ℕ
valid_cut_points entries start end = cut_points_from entries start (end - start)

-- The first cut point from `index` on.
unfoldable pub first_from : List ℕ → ℕ → ℕ → ℕ
first_from [] index default = default
first_from (candidate ∷ rest) index default =
    let others = first_from rest index default in if leb index candidate then candidate else others

abbrev pub is_fixed : EntryType → Bool
is_fixed type = is_compaction type || is_spoken type

-- Entries before the cut that are no messages are kept with it.
unfoldable pub back_loop : List Entry → ℕ → ℕ → ℕ
back_loop entries start zero = start
back_loop entries start (suc n) =
    let rest = back_loop entries start n in
    if is_fixed (nth entries (start + n)).type then start + suc n else rest

abbrev pub has_call : List ToolCallContent → String → Bool
has_call [] id = false
has_call (call ∷ rest) id = str_eq call.id id || has_call rest id

abbrev pub asks_for : String → Entry → Bool
asks_for id entry = elim (as_assistant_message entry.message) [
  | none ↦ false
  | some m ↦ has_call (tool_calls_from_assistant m) id
]

unfoldable pub call_loop : List Entry → String → (start default : ℕ) → ℕ → ℕ
call_loop entries id start default zero = default
call_loop entries id start default (suc n) =
    let rest = call_loop entries id start default n in
    if asks_for id (nth entries (start + n)) then start + n else rest

unfoldable pub protect_tool_unit : List Entry → ℕ → ℕ → ℕ
protect_tool_unit entries cut start =
    if leb (length entries) cut
    then cut
    else elim (as_tool_result_message (nth entries cut).message) [
      | none ↦ cut
      | some result ↦ call_loop entries result.tool_call_id start cut (cut - start)
    ]

abbrev pub whole : ℕ → CutPoint
whole start = record { first_kept_entry_index = start; turn_start_index = none; split_turn = false }

abbrev pub is_some : Option ℕ → Bool
is_some none = false
is_some (some i) = true

abbrev pub cut_at : List Entry → ℕ → ℕ → CutPoint
cut_at entries start cut =
    let user = is_user_entry (nth entries cut) in
    let turn_start = if user then none else find_turn_start_index entries cut start in
    record {
      first_kept_entry_index = cut;
      turn_start_index = turn_start;
      split_turn = not user && is_some turn_start;
    }

abbrev pub clamp : ℕ → List Entry → ℕ
clamp end entries = if ltb (length entries) end then length entries else end

module _ (byte_length : String → ℕ) where
  unfoldable pub budget_loop : List Entry → ℕ → List ℕ → (keep default accumulated : ℕ) → ℕ → ℕ
  budget_loop entries start cut_points keep default accumulated zero = default
  budget_loop entries start cut_points keep default accumulated (suc n) =
      let entry = nth entries (start + n) in
      let spoken = is_spoken entry.type in
      let total =
        if spoken then accumulated + estimate_entry_tokens byte_length entry else accumulated in
      let rest = budget_loop entries start cut_points keep default total n in
      if not spoken || ltb total keep then rest else first_from cut_points (start + n) default

  abbrev pub retained : List Entry → (start end keep : ℕ) → List ℕ → ℕ → ℕ
  retained entries start end keep cut_points default =
      let cut = budget_loop entries start cut_points keep default 0 (end - start) in
      protect_tool_unit entries (back_loop entries start (cut - start)) start

  abbrev pub cut_among : List Entry → (start end keep : ℕ) → List ℕ → CutPoint
  cut_among entries start end keep [] = whole start
  cut_among entries start end keep (first ∷ rest) =
      cut_at entries start (retained entries start end keep (first ∷ rest) first)

  unfoldable pub find_cut_point : List Entry → (start end keep : ℕ) → CutPoint
  find_cut_point entries start end keep =
      let last = clamp end entries in
      if leb last start
      then whole start
      else cut_among entries start last keep (valid_cut_points entries start last)
