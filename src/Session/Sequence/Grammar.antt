-- ===== src/Session/Sequence/Grammar.antt =====
-- What a well-formed message sequence is, with no loop: messages without tool calls, and units of
-- an assistant message with tool calls and one tool result for each of its call ids, in any order.
use oops.Prelude.{
  ℕ, ◌<◌, String, Option, none, some, List, [], ◌∷◌, ◌++◌, true, ◌≡◌, ◌≢◌, length, all_in, distinct,
}
use oops.Ai.Types.{AgentMessage}
use oops.Session.Sequence.{Item, tool_call_id_set}

-- The id that a tool result answers.
abbrev pub result_id : AgentMessage → Option String
result_id (AgentMessage.tool_result r) = some r.tool_call_id
result_id _ = none

-- The ids that a message calls for; none unless it is an assistant message.
abbrev pub called : AgentMessage → List String
called (AgentMessage.assistant m) = tool_call_id_set m.content
called _ = []

-- All messages are tool results, and these are the ids that they answer.
abbrev pub AreResults : List Item → List String → Type 0
AreResults [] [] = Unit
AreResults (item ∷ items) (id ∷ ids) = (result_id item.message ≡ some id) × AreResults items ids
AreResults _ _ = ⊥

-- The results `rs` answer different ids, all of them called for.
pub record Answers (expected : List String) (rs : List Item) (ids : List String) : Type 0 where
  pub results : AreResults rs ids
  pub called_for : all_in expected ids ≡ true
  pub once : distinct ids ≡ true

-- `Parses items none`: a well-formed sequence. `Parses items (some i)`: a well-formed sequence that
-- stops short, where the assistant message of index i still waits for results.
pub data Parses : List Item → Option ℕ → Type 0 where
  done : Parses [] none
  plain :
      (item : Item) {rest : List Item} {o : Option ℕ}
      → result_id item.message ≡ none
      → called item.message ≡ []
      → Parses rest o
      → Parses (item ∷ rest) o
  unit :
      (item : Item) (rs : List Item) (ids : List String) {rest : List Item} {o : Option ℕ}
      → called item.message ≢ []
      → Answers (called item.message) rs ids
      → length ids ≡ length (called item.message)
      → Parses rest o
      → Parses (item ∷ (rs ++ rest)) o
  pending :
      (item : Item) (rs : List Item) (ids : List String)
      → Answers (called item.message) rs ids
      → length ids < length (called item.message)
      → Parses (item ∷ rs) (some item.index)
