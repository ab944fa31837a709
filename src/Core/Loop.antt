-- ===== src/Core/Loop.antt =====
-- internal/agent/core/agent_loop.go: the loop of an agent. The two nested loops of `runLoop` are one
-- function that runs a turn each time: a turn follows where the inner loop goes on, or the outer loop
-- has follow-up messages.
pub mod Effects
pub mod Examples
pub mod Types
pub mod Response
pub mod Tools
pub mod Journal
pub mod Runs
pub mod Answers
pub mod Hooks
pub mod Laws
pub mod Missing
pub mod Turns
pub mod Whole
use oops.Prelude.{
  ℕ, zero, suc, ◌+◌, String, Option, none, some, List, [], ◌∷◌, ◌++◌, map, Bool, true, false, not,
  ◌&&◌, ◌||◌, length, ltb, ◌==◌, str_eq, if◌then◌else◌, Result, ok, err,
}
use oops.Ai.Types.{
  AgentMessage, AssistantMessage, ToolResultMessage, ToolCallContent, MessageList, MessageRole,
  StopReason, Usage, Content, TextContent, is_nil, tool_calls_from_assistant, new_text_content,
}
use oops.Core.Agent.{AgentEvent, AgentEventType, last_message, is_assistant}
use oops.Core.Loop.Effects.{
  LoopError, missing_stream, continue_empty_context, continue_from_assistant, failed, out_of_fuel,
  Outside, Action, pure, raise, after, ◌>>=◌, ◌>>◌,
}
use oops.Core.Loop.Types.{
  LoopConfig, Streaming, Names, ToolRunner, TurnContext, TurnUpdate, LoopState, Turn, stop, go_on,
  limit_of, is_failure,
}
use oops.Core.Loop.Response.{
  emit_message, emit_plain, emit_both, lifted, optional, with_input, stream_assistant_response,
}
use oops.Core.Loop.Tools.{
  with_message, end_agent, emit_active_terminal_error, emit_post_turn_hook_error, or_hook_error,
  Batch, stopped, results, run_tools,
}

module _ {W : Type 0} (c : LoopConfig W) where
  abbrev pub unless_empty : String → String → String
  unless_empty new old = if str_eq new "" then old else new

  abbrev pub or_old : {A : Type 0} → Option A → A → A
  or_old none old = old
  or_old (some new) old = new

  abbrev pub or_runner : Option (ToolRunner W) → Option (ToolRunner W) → Option (ToolRunner W)
  or_runner none old = old
  or_runner (some run) old = some run

  -- `applyTurnUpdate`
  abbrev pub apply_turn_update : TurnUpdate W → LoopState W → LoopState W
  apply_turn_update u st = record st {
    context = or_old u.context st.context;
    names = record {
      model = unless_empty u.names.model st.names.model;
      provider = unless_empty u.names.provider st.names.provider;
      reasoning = unless_empty u.names.reasoning st.names.reasoning;
    };
    tools = or_runner u.tool_runner st.tools;
  }

  abbrev pub turn_context : LoopState W → AssistantMessage → List ToolResultMessage → TurnContext
  turn_context st m tool_results = record {
    message = m;
    tool_results = tool_results;
    context = st.context;
    new_messages = st.new_messages;
    turn = st.turn;
  }

  abbrev pub updated : LoopState W → Result String (TurnUpdate W) → Result String (LoopState W)
  updated st (ok u) = ok (apply_turn_update u st)
  updated st (err e) = err e

  abbrev pub prepare_with :
      Option (TurnContext → W → Result String (TurnUpdate W) × W)
      → LoopState W
      → TurnContext
      → Action W (Result String (LoopState W))
  prepare_with none st t = pure (ok st)
  prepare_with (some f) st t = lifted c (f t) >>= λ r. pure (updated st r)

  abbrev pub prepare : LoopState W → TurnContext → Action W (Result String (LoopState W))
  prepare = prepare_with c.prepare_next_turn

  abbrev pub queued :
      Option (W → Result String MessageList × W) → Action W (Result String MessageList)
  queued get = optional c [] get

  abbrev pub poll_steering : LoopState W → Bool → Action W (Turn W)
  poll_steering st has_more = queued c.get_steering_messages >>= λ p.
      or_hook_error c st p λ messages. pure (go_on has_more (record st { pending = messages }))

  abbrev pub stop_or_poll : LoopState W → Bool → Bool → Action W (Turn W)
  stop_or_poll st has_more stops =
      if stops then end_agent c st.new_messages else poll_steering st has_more

  abbrev pub should_stop : TurnContext → Action W (Result String Bool)
  should_stop t = optional c false (with_input c t c.should_stop_after_turn)

  abbrev pub ask_stop : TurnContext → Bool → LoopState W → Action W (Turn W)
  ask_stop t has_more next = should_stop (record t { context = next.context }) >>= λ q.
      or_hook_error c next q (stop_or_poll next has_more)

  -- The hooks behind a turn, and the steering messages for the next.
  unfoldable pub finish_turn :
      LoopState W → AssistantMessage → List ToolResultMessage → Bool → Action W (Turn W)
  finish_turn st m tool_results has_more = prepare st (turn_context st m tool_results) >>= λ r.
      or_hook_error c st r (ask_stop (turn_context st m tool_results) has_more)

  unfoldable pub end_turn : AssistantMessage → Batch c → Action W (Turn W)
  end_turn m (stopped t) = pure t
  end_turn m (results st tool_results has_more) =
      emit_message c AgentEventType.turn_end (AgentMessage.assistant m)
      >> (if is_failure m.stop_reason
          then end_agent c st.new_messages
          else finish_turn st m tool_results has_more)

  -- `turn++` and `AgentEventTurnStart`, but not for the first turn.
  unfoldable pub begin_turn : LoopState W → Action W (LoopState W)
  begin_turn st =
      if st.first_turn
      then pure (record st { first_turn = false })
      else (emit_plain c AgentEventType.turn_start >> pure (record st { turn = st.turn + 1 }))

  unfoldable pub add_pending : MessageList → LoopState W → Action W (LoopState W)
  add_pending [] st = pure (record st { pending = [] })
  add_pending (m ∷ rest) st = emit_both c m >> add_pending rest (with_message c m st)

  unfoldable pub respond : LoopState W → Action W (Turn W)
  respond st = stream_assistant_response c st.names st.context >>= λ m.
      run_tools c (with_message c (AgentMessage.assistant m) st) m >>= end_turn m

  -- The body of the inner loop.
  unfoldable pub run_turn : LoopState W → Action W (Turn W)
  run_turn st = begin_turn st >>= λ now.
      if ltb (limit_of c.max_turns) now.turn
      then emit_active_terminal_error c now.names now.new_messages "max_turns_exceeded"
          StopReason.error
      else (add_pending now.pending now >>= respond)

  abbrev pub goes_on : Bool → MessageList → Bool
  goes_on has_more pending = has_more || not (length pending == 0)

  abbrev pub stop_messages : Turn W → Action W MessageList
  stop_messages (stop messages) = pure messages
  stop_messages (go_on has_more st) = pure st.new_messages

  abbrev pub followed :
      (LoopState W → Action W MessageList)
      → LoopState W
      → Result String MessageList
      → Action W MessageList
  followed again st (err e) =
      emit_post_turn_hook_error c st.names st.new_messages e >>= stop_messages
  followed again st (ok []) = end_agent c st.new_messages >>= stop_messages
  followed again st (ok (m ∷ rest)) = again (record st { pending = m ∷ rest })

  -- The end of the inner loop: the follow-up messages, or the end of the run.
  abbrev pub follow : (LoopState W → Action W MessageList) → LoopState W → Action W MessageList
  follow again st = queued c.get_follow_up_messages >>= followed again st

  abbrev pub next_turn : (LoopState W → Action W MessageList) → Turn W → Action W MessageList
  next_turn again (stop messages) = pure messages
  next_turn again (go_on has_more st) =
      if goes_on has_more st.pending then again st else follow again st

  unfoldable pub loop : ℕ → LoopState W → Action W MessageList
  loop zero st = raise out_of_fuel
  loop (suc fuel) st = run_turn st >>= next_turn (loop fuel)

  -- One turn more than the limit: the turn that is over it ends the loop.
  abbrev pub fuel_of : LoopState W → ℕ
  fuel_of st = suc (limit_of c.max_turns)

  abbrev pub polled : LoopState W → Result String MessageList → Action W MessageList
  polled st (err e) = raise (failed e)
  polled st (ok messages) = loop (fuel_of st) (record st { pending = messages })

  abbrev pub run_loop : LoopState W → Action W MessageList
  run_loop st = queued c.get_steering_messages >>= polled st

  abbrev pub loop_state : Names → Option (ToolRunner W) → MessageList → MessageList → LoopState W
  loop_state names tools context new_messages = record {
    context = context;
    names = names;
    tools = tools;
    new_messages = new_messages;
    pending = [];
    turn = 1;
    first_turn = true;
  }

  unfoldable pub emit_prompts : MessageList → Action W (Unit {0})
  emit_prompts [] = pure tt
  emit_prompts (m ∷ rest) = emit_both c m >> emit_prompts rest

  abbrev pub no_stream : Option (Names → MessageList → W → Streaming × W) → Bool
  no_stream none = true
  no_stream (some f) = false

  abbrev pub begin_agent : Action W (Unit {0})
  begin_agent = emit_plain c AgentEventType.agent_start >> emit_plain c AgentEventType.turn_start

  unfoldable pub run_agent_loop :
      Names → Option (ToolRunner W) → MessageList → MessageList → Action W MessageList
  run_agent_loop names tools prompts context =
      if no_stream c.stream
      then raise missing_stream
      else (begin_agent
          >> emit_prompts prompts
          >> run_loop (loop_state names tools (context ++ prompts) prompts))

  unfoldable pub run_agent_loop_continue :
      Names → Option (ToolRunner W) → MessageList → Action W MessageList
  run_agent_loop_continue names tools context =
      if is_nil (last_message context)
      then raise continue_empty_context
      else if is_assistant (last_message context)
      then raise continue_from_assistant
      else if no_stream c.stream
      then raise missing_stream
      else (begin_agent >> run_loop (loop_state names tools context []))
