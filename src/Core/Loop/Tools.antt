-- ===== src/Core/Loop/Tools.antt =====
-- internal/agent/core/agent_errors.go, agent_tools.go and tool_missing.go: the ends of a run, and the
-- tool calls of a turn.
use oops.Prelude.{
  String, Option, none, some, List, [], ◌∷◌, ◌++◌, Bool, true, false, not, if◌then◌else◌, Result,
  ok, err,
}
use oops.Ai.Types.{
  AgentMessage, AssistantMessage, ToolResultMessage, ToolCallContent, MessageList, MessageRole,
  StopReason, Content, tool_calls_from_assistant, new_text_content,
}
use oops.Core.Agent.{AgentEventType}
use oops.Core.Loop.Effects.{LoopError, failed, Outside, Action, pure, raise, ◌>>=◌, ◌>>◌}
use oops.Core.Loop.Types.{
  LoopConfig, Names, ToolRunResult, ToolRunner, LoopState, Turn, stop, call_event, is_failure,
  as_messages,
}
use oops.Core.Loop.Response.{
  emit, emit_message, emit_plain, emit_both, emit_assistant_error_terminal, cancelled_now,
}

module _ {W : Type 0} (c : LoopConfig W) where
  abbrev pub with_message : AgentMessage → LoopState W → LoopState W
  with_message m st = record st {
    context = st.context ++ m ∷ [];
    new_messages = st.new_messages ++ m ∷ [];
  }

  -- `AgentEventAgentEnd`, and the messages are returned.
  abbrev pub end_agent : MessageList → Action W (Turn W)
  end_agent new_messages = emit_plain c AgentEventType.agent_end >> pure (stop new_messages)

  unfoldable pub emit_active_terminal_error :
      Names → MessageList → String → StopReason → Action W (Turn W)
  emit_active_terminal_error names new_messages text reason =
      emit_assistant_error_terminal c names text reason false >>= λ m.
      emit_message c AgentEventType.turn_end (AgentMessage.assistant m)
      >> end_agent (new_messages ++ AgentMessage.assistant m ∷ [])

  abbrev pub emit_post_turn_hook_error : Names → MessageList → String → Action W (Turn W)
  emit_post_turn_hook_error names new_messages text =
      emit_plain c AgentEventType.turn_start
      >> emit_active_terminal_error names new_messages text StopReason.error

  abbrev pub or_hook_error :
      {A : Type 0} → LoopState W → Result String A → (A → Action W (Turn W)) → Action W (Turn W)
  or_hook_error st (ok a) k = k a
  or_hook_error st (err e) k = emit_post_turn_hook_error st.names st.new_messages e

  -- `MissingRunner`
  abbrev pub missing_result : ToolCallContent → ToolResultMessage
  missing_result call = record {
    role = MessageRole.unset;
    tool_call_id = call.id;
    tool_name = call.name;
    content = Content.text (new_text_content "tool runner is not configured") ∷ [];
    details = none;
    is_error = true;
    timestamp = 0;
  }

  unfoldable pub missing_messages : List ToolCallContent → Action W (List ToolResultMessage)
  missing_messages [] = pure []
  missing_messages (call ∷ rest) = do
    emit c (call_event AgentEventType.tool_execution_start call.id)
    emit c (call_event AgentEventType.tool_execution_end call.id)
    emit_both c (AgentMessage.tool_result (missing_result call))
    others ← missing_messages rest
    pure (missing_result call ∷ others)

  abbrev pub error_text : LoopError → String
  error_text (failed e) = e
  error_text _ = ""

  abbrev pub ran :
      Result LoopError (List ToolResultMessage) × Outside W
      → (ToolRunResult × Option String) × Outside W
  ran (ok messages, s) = ((record { messages = messages; terminate = false }, none), s)
  ran (err e, s) = ((record { messages = []; terminate = false }, some (error_text e)), s)

  unfoldable pub missing_runner : ToolRunner W
  missing_runner context calls s = ran (missing_messages calls s)

  abbrev pub runner_of : Option (ToolRunner W) → ToolRunner W
  runner_of none = missing_runner
  runner_of (some run) = run

  abbrev pub execute_tool_calls :
      LoopState W → List ToolCallContent → Action W (ToolRunResult × Option String)
  execute_tool_calls st calls s = let (r, t) = runner_of st.tools st.context calls s in (ok r, t)

  abbrev pub with_results : List ToolResultMessage → LoopState W → LoopState W
  with_results results st = record st {
    context = st.context ++ as_messages results;
    new_messages = st.new_messages ++ as_messages results;
  }

  -- The results of a turn, or the end of the loop.
  pub data Batch : Type 0 where
    stopped : Turn W → Batch
    results : LoopState W → List ToolResultMessage → (has_more : Bool) → Batch

  abbrev pub after_tools : LoopState W → ToolRunResult × Option String → Action W Batch
  after_tools st (batch, none) =
      pure (results (with_results batch.messages st) batch.messages (not batch.terminate))
  after_tools st (batch, some e) = cancelled_now c >>= λ o. elim o [
    | none ↦ raise (failed e)
    | some text ↦
        emit_active_terminal_error st.names (st.new_messages ++ as_messages batch.messages) text
          StopReason.aborted
        >>= λ t. pure (stopped t)
  ]

  abbrev pub with_calls : LoopState W → List ToolCallContent → Action W Batch
  with_calls st [] = pure (results st [] false)
  with_calls st (call ∷ calls) = cancelled_now c >>= λ o. elim o [
    | some e ↦ emit_active_terminal_error st.names st.new_messages e StopReason.aborted >>= λ t.
        pure (stopped t)
    | none ↦ execute_tool_calls st (call ∷ calls) >>= after_tools st
  ]

  unfoldable pub run_tools : LoopState W → AssistantMessage → Action W Batch
  run_tools st m =
      if is_failure m.stop_reason
      then pure (results st [] false)
      else with_calls st (tool_calls_from_assistant m)
