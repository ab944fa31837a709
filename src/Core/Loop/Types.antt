-- ===== src/Core/Loop/Types.antt =====
-- internal/agent/core/agent_loop.go, agent_assistant.go and agent_tools.go: the data of the loop. Of
-- an event the model has the type, the message and the tool call id; callbacks are parameters.
use oops.Prelude.{ℕ, String, Option, List, [], map, Bool, true, false, ◌==◌, if◌then◌else◌, Result}
use oops.Ai.Types.{
  AgentMessage, AssistantMessage, ToolResultMessage, ToolCallContent, MessageList, MessageRole,
  StopReason, Usage,
}
use oops.Core.Agent.{AgentEvent, AgentEventType}
use oops.Core.Loop.Effects.{Outside}

-- What `stream.Events()` gives, one item for each round of the `select`.
pub data StreamItem : Type 0 where
  interrupted : String → StreamItem
  invalid : String → StreamItem
  started : AssistantMessage → StreamItem
  done : AssistantMessage → StreamItem
  failure : AssistantMessage → StopReason → StreamItem
  update : Option AssistantMessage → StreamItem

-- What `stream.Result` returns behind the last item.
pub data StreamResult : Type 0 where
  result_error : String → StopReason → StreamResult
  no_message : StreamResult
  final : AssistantMessage → StreamResult

pub data Streaming : Type 0 where
  refused : String → Streaming
  nil_stream : Streaming
  items : List StreamItem → StreamResult → Streaming

pub record Names : Type 0 where
  pub model : String
  pub provider : String
  pub reasoning : String

pub record ToolRunResult : Type 0 where
  pub messages : List ToolResultMessage
  pub terminate : Bool

-- `ExecuteTools` may return messages with an error.
abbrev pub ToolRunner : Type 0 → Type 0
ToolRunner W =
    MessageList → List ToolCallContent → Outside W → (ToolRunResult × Option String) × Outside W

pub record TurnContext : Type 0 where
  pub message : AssistantMessage
  pub tool_results : List ToolResultMessage
  pub context : MessageList
  pub new_messages : MessageList
  pub turn : ℕ

pub record TurnUpdate (W : Type 0) : Type 0 where
  pub context : Option MessageList
  pub names : Names
  pub tool_runner : Option (ToolRunner W)

-- The part of `AgentLoopConfig` that a run does not change, with the event sink.
pub record LoopConfig (W : Type 0) : Type 0 where
  pub max_turns : ℕ
  pub cancelled : W → Option String
  pub transform_context : Option (MessageList → W → Result String MessageList × W)
  pub convert_to_llm : Option (MessageList → W → Result String MessageList × W)
  pub stream : Option (Names → MessageList → W → Streaming × W)
  pub prepare_next_turn : Option (TurnContext → W → Result String (TurnUpdate W) × W)
  pub should_stop_after_turn : Option (TurnContext → W → Result String Bool × W)
  pub get_steering_messages : Option (W → Result String MessageList × W)
  pub get_follow_up_messages : Option (W → Result String MessageList × W)
  pub sink : AgentEvent → W → Option String × W

pub record LoopState (W : Type 0) : Type 0 where
  pub context : MessageList
  pub names : Names
  pub tools : Option (ToolRunner W)
  pub new_messages : MessageList
  pub pending : MessageList
  pub turn : ℕ
  pub first_turn : Bool

-- How a turn ends: the loop returns the messages, or goes on.
pub data Turn (W : Type 0) : Type 0 where
  stop : MessageList → Turn W
  go_on : (has_more_tool_calls : Bool) → LoopState W → Turn W

abbrev pub default_max_turns : ℕ
default_max_turns = 15

abbrev pub limit_of : ℕ → ℕ
limit_of max_turns = if max_turns == 0 then default_max_turns else max_turns

abbrev pub event_of : AgentEventType → AgentMessage → AgentEvent
event_of type message = record { type = type; message = message; tool_call_id = "" }

abbrev pub call_event : AgentEventType → String → AgentEvent
call_event type id = record { type = type; message = AgentMessage.nil; tool_call_id = id }

abbrev no_usage : Usage
no_usage = record { input = 0; output = 0; cache_read = 0; cache_write = 0; total_tokens = 0 }

-- `newAssistantError`
abbrev pub new_assistant_error : Names → StopReason → String → AssistantMessage
new_assistant_error names reason text = record {
  role = MessageRole.unset;
  content = [];
  provider = names.provider;
  model = names.model;
  response_model = "";
  response_id = "";
  usage = no_usage;
  stop_reason = reason;
  error_message = text;
  timestamp = 0;
}

abbrev pub is_failure : StopReason → Bool
is_failure StopReason.error = true
is_failure StopReason.aborted = true
is_failure _ = false

abbrev pub as_messages : List ToolResultMessage → MessageList
as_messages = map AgentMessage.tool_result
