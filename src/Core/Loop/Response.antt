-- ===== src/Core/Loop/Response.antt =====
-- internal/agent/core/agent_assistant.go: `streamAssistantResponse`.
use oops.Prelude.{
  String, Option, none, some, List, [], ◌∷◌, ◌++◌, Bool, true, false, if◌then◌else◌, Result, ok,
  err,
}
use oops.Ai.Types.{AgentMessage, AssistantMessage, MessageList, StopReason}
use oops.Core.Agent.{AgentEvent, AgentEventType}
use oops.Core.Loop.Effects.{
  LoopError, missing_stream, failed, Outside, Action, pure, raise, ◌>>=◌, ◌>>◌,
}
use oops.Core.Loop.Types.{
  LoopConfig, StreamItem, interrupted, invalid, started, done, failure, update, StreamResult,
  result_error, no_message, final, Streaming, refused, nil_stream, items, Names, event_of,
  new_assistant_error,
}

module _ {W : Type 0} (c : LoopConfig W) where
  -- The answer of the sink.
  abbrev pub answered :
      Option String × W → List AgentEvent → Result LoopError (Unit {0}) × Outside W
  answered (none, w) log = (ok tt, record { log = log; world = w })
  answered (some e, w) log = (err (failed e), record { log = log; world = w })

  unfoldable pub emit : AgentEvent → Action W (Unit {0})
  emit e s = answered (c.sink e s.world) (s.log ++ e ∷ [])

  abbrev pub emit_message : AgentEventType → AgentMessage → Action W (Unit {0})
  emit_message type message = emit (event_of type message)

  abbrev pub emit_plain : AgentEventType → Action W (Unit {0})
  emit_plain type = emit (event_of type AgentMessage.nil)

  abbrev pub emit_both : AgentMessage → Action W (Unit {0})
  emit_both message =
      emit_message AgentEventType.message_start message
      >> emit_message AgentEventType.message_end message

  abbrev pub emit_start_unless : Bool → AgentMessage → Action W (Unit {0})
  emit_start_unless was_started message =
      if was_started then pure tt else emit_message AgentEventType.message_start message

  -- The end of a message, its start first if there was none.
  unfoldable pub finish_message : Bool → AssistantMessage → Action W AssistantMessage
  finish_message was_started m = do
    emit_start_unless was_started (AgentMessage.assistant m)
    emit_message AgentEventType.message_end (AgentMessage.assistant m)
    pure m

  abbrev pub emit_assistant_error_terminal :
      Names → String → StopReason → Bool → Action W AssistantMessage
  emit_assistant_error_terminal names text reason was_started =
      finish_message was_started (new_assistant_error names reason text)

  abbrev pub emit_update : Option AssistantMessage → Action W (Unit {0})
  emit_update none = pure tt
  emit_update (some partial) =
      emit_message AgentEventType.message_update (AgentMessage.assistant partial)

  -- The `for` loop of `streamAssistantResponse`.
  unfoldable pub receive : Names → StreamResult → Bool → List StreamItem → Action W AssistantMessage
  receive names (result_error text reason) was_started [] =
      emit_assistant_error_terminal names text reason was_started
  receive names no_message was_started [] =
      emit_assistant_error_terminal names "stream ended without message" StopReason.error
        was_started
  receive names (final m) was_started [] = pure m
  receive names r was_started (interrupted text ∷ rest) =
      emit_assistant_error_terminal names text StopReason.aborted was_started
  receive names r was_started (invalid text ∷ rest) =
      emit_assistant_error_terminal names text StopReason.error was_started
  receive names r was_started (started m ∷ rest) =
      emit_message AgentEventType.message_start (AgentMessage.assistant m)
      >> receive names r true rest
  receive names r was_started (done m ∷ rest) = finish_message was_started m
  receive names r was_started (failure m reason ∷ rest) =
      finish_message was_started (record m { stop_reason = reason })
  receive names r was_started (update partial ∷ rest) =
      emit_update partial >> receive names r was_started rest

  -- A callback that may be nil; its error is a value.
  abbrev pub lifted : {A : Type 0} → (W → A × W) → Action W A
  lifted f s = let (a, w) = f s.world in (ok a, record s { world = w })

  abbrev pub optional :
      {A : Type 0} → A → Option (W → Result String A × W) → Action W (Result String A)
  optional a none = pure (ok a)
  optional a (some f) = lifted f

  abbrev pub with_input : {A B : Type 0} → A → Option (A → W → B × W) → Option (W → B × W)
  with_input a none = none
  with_input a (some f) = some (λ w. f a w)

  -- A callback's error ends the call with an assistant message, its value goes to the continuation.
  abbrev pub or_error :
      {A : Type 0}
      → Names
      → Result String A
      → (A → Action W AssistantMessage)
      → Action W AssistantMessage
  or_error names (ok a) k = k a
  or_error names (err e) k = emit_assistant_error_terminal names e StopReason.error false

  abbrev pub receive_all : Names → Streaming → Action W AssistantMessage
  receive_all names (refused e) = emit_assistant_error_terminal names e StopReason.error false
  receive_all names nil_stream =
      emit_assistant_error_terminal names "stream returned nil" StopReason.error false
  receive_all names (items l r) = receive names r false l

  abbrev pub open_with :
      Option (Names → MessageList → W → Streaming × W)
      → Names
      → MessageList
      → Action W AssistantMessage
  open_with none names messages = raise missing_stream
  open_with (some f) names messages = lifted (f names messages) >>= receive_all names

  abbrev pub open_stream : Names → MessageList → Action W AssistantMessage
  open_stream = open_with c.stream

  abbrev pub cancelled_now : Action W (Option String)
  cancelled_now s = (ok (c.cancelled s.world), s)

  abbrev pub request : Names → MessageList → Action W AssistantMessage
  request names messages = optional messages (with_input messages c.transform_context) >>= λ r.
      or_error names r λ transformed.
        optional transformed (with_input transformed c.convert_to_llm) >>= λ q.
        or_error names q λ converted. open_stream names converted

  unfoldable pub stream_assistant_response : Names → MessageList → Action W AssistantMessage
  stream_assistant_response names messages = cancelled_now >>= λ o. elim o [
    | some e ↦ emit_assistant_error_terminal names e StopReason.aborted false
    | none ↦ request names messages
  ]
