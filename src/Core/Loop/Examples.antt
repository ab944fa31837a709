-- ===== src/Core/Loop/Examples.antt =====
-- A run of two turns, where no tool runner is set: a tool call and its error result, then an answer. And a registry of two tools.
use oops.Prelude.{
  true, Option, List, map, distinct, contains, has, lookup, insert, String, ℕ, zero, suc, ◌+◌, [],
  ◌∷◌, ◌++◌, none, some, ◌≡◌, refl, ok,
}
use oops.Ai.Types.{
  ContentType, MessageRole, StopReason, Content, ToolCallContent, AgentMessage, AssistantMessage,
  tool_calls_from_assistant,
}
use oops.Core.Agent.{new_agent}
use oops.Core.Queue.{QueueMode}
use oops.Core.Registry.{
  ToolDefinition, Registry, empty, with_tool, register, register_all, new_registry, definitions,
}
use oops.Core.Registry.Names.{new_registry-definitions}
use oops.Core.Loop.Effects.{Outside, Ends}
use oops.Core.Loop.Types.{
  LoopConfig, Names, Streaming, items, started, done, final, new_assistant_error,
}
use oops.Core.Loop.Journal.{ended, has_end, StreamCloses}
use oops.Core.Loop.Laws.{IsLawful, Quiet}
use oops.Core.Loop.Response.{emit, finish_message, receive, stream_assistant_response}
use oops.Core.Loop.Tools.{missing_result, missing_messages, missing_runner, run_tools}
use oops.Core.Loop.{
  begin_turn, add_pending, finish_turn, end_turn, respond, run_turn, loop, emit_prompts,
  run_agent_loop, run_agent_loop_continue,
}
use oops.Core.Loop.Runs.{
  reduce_all, run_agent_loop-Ended, run_agent_loop_continue-Ended, run_agent_loop-replayed,
}

abbrev names : Names
names = record { model = "m"; provider = "p"; reasoning = "" }

abbrev answer : AssistantMessage
answer = new_assistant_error names StopReason.stop ""

abbrev call : ToolCallContent
call = record {
  type = ContentType.tool_call;
  id = "a";
  name = "read";
  arguments = "{}";
  thought_signature = "";
}

abbrev calling : AssistantMessage
calling = record answer { content = Content.tool_call call ∷ []; stop_reason = StopReason.tool_use }

abbrev question : AgentMessage
question = AgentMessage.user (record { role = MessageRole.user; content = []; timestamp = 1 })

-- The world counts the requests.
abbrev stream_once : ℕ → Streaming
stream_once zero = items (started calling ∷ done calling ∷ []) (final calling)
stream_once (suc n) = items (done answer ∷ []) (final answer)

abbrev two_turns : LoopConfig ℕ
two_turns = record {
  max_turns = 0;
  cancelled = λ _. none;
  transform_context = none;
  convert_to_llm = none;
  stream = some (λ _ _ n. (stream_once n, n + 1));
  prepare_next_turn = none;
  should_stop_after_turn = none;
  get_steering_messages = none;
  get_follow_up_messages = none;
  sink = λ _ n. (none, n);
}

stream_once-Closes : (n : ℕ) → StreamCloses (stream_once n)
unfolding has_end
stream_once-Closes zero = refl
stream_once-Closes (suc n) = refl

two_turns-IsLawful : IsLawful two_turns
two_turns-IsLawful = record {
  streams = λ _ _ n. stream_once-Closes n;
  steering = tt;
  follow_up = tt;
  updates = tt;
}

abbrev outside : Outside ℕ
outside = record { log = []; world = 0 }

two_turns_run :
    (run_agent_loop two_turns names none (question ∷ []) [] outside).0
    ≡ ok (
        question
        ∷ AgentMessage.assistant calling
        ∷ AgentMessage.tool_result (missing_result two_turns call)
        ∷ AgentMessage.assistant answer
        ∷ [])
unfolding run_agent_loop loop run_turn respond end_turn finish_turn add_pending begin_turn
    emit_prompts run_tools missing_runner missing_messages stream_assistant_response receive
    finish_message emit tool_calls_from_assistant
two_turns_run = refl

two_turns-Quiet : Quiet two_turns
two_turns-Quiet e w = refl

run_agent_loop-Ended_example :
    Ends
      (λ messages t. ended t.log ≡ ended [] ++ messages)
      (run_agent_loop two_turns names none (question ∷ []) [] outside)
run_agent_loop-Ended_example =
    run_agent_loop-Ended two_turns two_turns-IsLawful names none (question ∷ []) [] outside refl
      two_turns-Quiet

run_agent_loop_continue-Ended_example :
    Ends
      (λ messages t. ended t.log ≡ ended [] ++ messages)
      (run_agent_loop_continue two_turns names none (question ∷ []) outside)
run_agent_loop_continue-Ended_example =
    run_agent_loop_continue-Ended two_turns two_turns-IsLawful names none (question ∷ []) outside
      two_turns-Quiet

run_agent_loop-replayed_example :
    Ends
      (λ messages t.
        (reduce_all t.log (new_agent [] QueueMode.all QueueMode.all)).state.messages
        ≡ (new_agent [] QueueMode.all QueueMode.all).state.messages ++ messages)
      (run_agent_loop two_turns names none (question ∷ []) [] outside)
run_agent_loop-replayed_example =
    run_agent_loop-replayed two_turns two_turns-IsLawful names none (question ∷ []) [] 0
      (new_agent [] QueueMode.all QueueMode.all) refl two_turns-Quiet

abbrev tool_of : String → ToolDefinition
tool_of name = record { name = name; description = ""; parameters = "" }

abbrev no_schema : String → Option (Unit {0})
no_schema text = none

abbrev two_tools : Registry ToolDefinition (Unit {0})
two_tools =
    with_tool (λ t. t) no_schema
      (with_tool (λ t. t) no_schema (empty (λ t. t) no_schema) (tool_of "read") none)
      (tool_of "edit") none

registered_two :
    new_registry (λ t. t) no_schema (some (tool_of "read") ∷ some (tool_of "edit") ∷ [])
    ≡ ok two_tools
unfolding new_registry register_all register has lookup insert
registered_two = refl

new_registry-definitions_example :
    (tools : List ToolDefinition) × (some (tool_of "read") ∷ some (tool_of "edit") ∷ []
      ≡ map (λ t. some t) tools)
    × (definitions (λ t. t) no_schema two_tools ≡ map (λ t. t) tools)
    × (distinct two_tools.order ≡ true)
    × ((k : String) → contains k two_tools.order ≡ has k two_tools.tools)
new_registry-definitions_example =
    new_registry-definitions (λ t. t) no_schema (some (tool_of "read") ∷ some (tool_of "edit") ∷ [])
      two_tools registered_two
