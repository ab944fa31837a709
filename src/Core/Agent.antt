-- ===== src/Core/Agent.antt =====
-- internal/agent/core/agent.go and agent_state.go: the agent's state, the events that change it, and
-- the calls that start, stop and reset a run. The loop itself (agent_loop.go) is what sends the events;
-- listeners, contexts and the fields of the state that no call changes (prompt, model, tools) are
-- left out.
pub mod Running
pub mod Safety
use oops.Prelude.{
  ℕ, String, Option, none, some, List, [], ◌∷◌, ◌++◌, Bool, true, false, not, ◌&&◌, ◌||◌, length,
  ◌==◌, keep, contains, str_eq, if◌then◌else◌, Result, ok, err, ◌>>=◌, ◌>>◌, fail_if,
}
use oops.Ai.Types.{Stdlib, AgentMessage, MessageList, is_nil, as_assistant_message}
use oops.Core.Queue.{
  MessageQueue, Error, QueueMode, new_message_queue, clone_validated_messages, enqueue, drain,
  clear, busy, continue_empty_context, continue_from_assistant,
}

pub data AgentPhase : Type 0 where
  idle streaming executing_tools aborted : AgentPhase

pub data AgentEventType : Type 0 where
  agent_start agent_end turn_start turn_end : AgentEventType
  message_start message_update message_end : AgentEventType
  tool_execution_start tool_execution_update tool_execution_end : AgentEventType
  other : String → AgentEventType

pub record AgentEvent : Type 0 where
  pub type : AgentEventType
  pub message : AgentMessage
  pub tool_call_id : String

pub record AgentState : Type 0 where
  pub messages : MessageList
  pub is_streaming : Bool
  pub phase : AgentPhase
  pub streaming_message : AgentMessage
  pub pending_tool_calls : List String
  pub error_message : String

-- `skip_steering` is the variable that the run's `GetSteeringMessages` closes over.
pub record ActiveRun : Type 0 where
  pub observed_agent_end : Bool
  pub skip_steering : Bool

pub record Agent : Type 0 where
  pub state : AgentState
  pub steering_queue : MessageQueue
  pub follow_up_queue : MessageQueue
  pub active : Option ActiveRun

abbrev pub new_agent_state : MessageList → AgentState
new_agent_state messages = record {
  messages = messages;
  is_streaming = false;
  phase = AgentPhase.idle;
  streaming_message = AgentMessage.nil;
  pending_tool_calls = [];
  error_message = "";
}

abbrev pub new_agent : MessageList → (steering follow_up : QueueMode) → Agent
new_agent messages steering follow_up = record {
  state = new_agent_state messages;
  steering_queue = new_message_queue steering;
  follow_up_queue = new_message_queue follow_up;
  active = none;
}

abbrev pub is_active : Agent → Bool
is_active a = elim a.active [ none ↦ false | some run ↦ true ]

-- `if a.state.Phase != AgentPhaseAborted { a.state.Phase = ... }`
abbrev pub unless_aborted : AgentPhase → AgentPhase → AgentPhase
unless_aborted AgentPhase.aborted phase = AgentPhase.aborted
unless_aborted _ phase = phase

unfoldable pub add_pending_tool_call : String → List String → List String
add_pending_tool_call id pending =
    if str_eq id "" || contains id pending then pending else pending ++ id ∷ []

unfoldable pub remove_pending_tool_call : String → List String → List String
remove_pending_tool_call id pending =
    if str_eq id "" || length pending == 0
    then pending
    else keep (λ existing. not (str_eq existing id)) pending

-- The error that a turn ends with replaces the one before.
abbrev pub turn_error : AgentMessage → String → String
turn_error message old = elim (as_assistant_message message) [
  | none ↦ old
  | some m ↦ if str_eq m.error_message "" then old else m.error_message
]

abbrev pub observe_agent_end : Option ActiveRun → Option ActiveRun
observe_agent_end none = none
observe_agent_end (some run) = some (record run { observed_agent_end = true })

abbrev pub after_tools : List String → AgentPhase
after_tools [] = AgentPhase.streaming
after_tools (id ∷ rest) = AgentPhase.executing_tools

-- The part of `reduceAgentEventLocked` that changes the state.
unfoldable pub reduce_state : AgentEventType → AgentEvent → AgentState → AgentState
reduce_state AgentEventType.agent_start event s = record s {
  is_streaming = true;
  phase = unless_aborted s.phase AgentPhase.streaming;
  error_message = "";
}
reduce_state AgentEventType.message_start event s = record s {
  streaming_message = event.message;
  is_streaming = true;
  phase = unless_aborted s.phase AgentPhase.streaming;
}
reduce_state AgentEventType.message_update event s = record s {
  streaming_message = event.message;
  is_streaming = true;
  phase = unless_aborted s.phase AgentPhase.streaming;
}
reduce_state AgentEventType.message_end event s = record s {
  messages = if is_nil event.message then s.messages else s.messages ++ event.message ∷ [];
  streaming_message = AgentMessage.nil;
}
reduce_state AgentEventType.tool_execution_start event s = record s {
  pending_tool_calls = add_pending_tool_call event.tool_call_id s.pending_tool_calls;
  is_streaming = true;
  phase = unless_aborted s.phase AgentPhase.executing_tools;
}
reduce_state AgentEventType.tool_execution_end event s =
    let pending = remove_pending_tool_call event.tool_call_id s.pending_tool_calls in
    record s { pending_tool_calls = pending; phase = unless_aborted s.phase (after_tools pending) }
reduce_state AgentEventType.turn_end event s = record s {
  error_message = turn_error event.message s.error_message;
}
reduce_state AgentEventType.agent_end event s = record s {
  streaming_message = AgentMessage.nil;
  pending_tool_calls = [];
}
reduce_state _ event s = s

abbrev pub observed : AgentEventType → Option ActiveRun → Option ActiveRun
observed AgentEventType.agent_end active = observe_agent_end active
observed _ active = active

unfoldable pub reduce_agent_event : AgentEvent → Agent → Agent
reduce_agent_event event a = record a {
  state = reduce_state event.type event a.state;
  active = observed event.type a.active;
}

-- What `runPromptLocked` and `runContinueLocked` hand to the loop.
pub data Start : Type 0 where
  prompt_with : MessageList → Start
  resume : Start

unfoldable pub begin_run : Bool → Agent → Agent
begin_run skip_initial_steering_poll a = record a {
  active = some (record { observed_agent_end = false; skip_steering = skip_initial_steering_poll });
  state = record (a.state) {
    is_streaming = true;
    phase = AgentPhase.streaming;
    streaming_message = AgentMessage.nil;
    pending_tool_calls = [];
    error_message = "";
  };
}

-- `finishRun` of the run that is active.
unfoldable pub finish_run : Agent → Agent
finish_run a = record a {
  active = none;
  state = record (a.state) {
    is_streaming = false;
    phase = AgentPhase.idle;
    streaming_message = AgentMessage.nil;
    pending_tool_calls = [];
  };
}

-- `Prompt` with `runPrompt`, up to the start of the loop.
unfoldable pub prompt : Stdlib → MessageList → Agent → Result Error (Agent × Start)
prompt std messages a = do
  prompts ← clone_validated_messages std messages
  fail_if (is_active a) busy
  ok (begin_run false a, prompt_with prompts)

abbrev pub last_message : MessageList → AgentMessage
last_message [] = AgentMessage.nil
last_message (x ∷ []) = x
last_message (x ∷ y ∷ rest) = last_message (y ∷ rest)

abbrev pub is_assistant : AgentMessage → Bool
is_assistant (AgentMessage.assistant m) = true
is_assistant _ = false

-- `Continue` behind an answer of the assistant needs a message that waits.
unfoldable pub continue_from_queues : Agent → Result Error (Agent × Start)
continue_from_queues a =
    let (steering, steering_rest) = drain a.steering_queue in
    let (follow_up, follow_up_rest) = drain a.follow_up_queue in
    if not (length steering == 0)
    then ok (begin_run true (record a { steering_queue = steering_rest }), prompt_with steering)
    else if not (length follow_up == 0)
    then ok (
      begin_run false
          (record a { steering_queue = steering_rest; follow_up_queue = follow_up_rest }),
      prompt_with follow_up,
    )
    else err continue_from_assistant

unfoldable pub continue_from : Agent → Result Error (Agent × Start)
continue_from a =
    if is_assistant (last_message a.state.messages)
    then continue_from_queues a
    else ok (begin_run false a, resume)

unfoldable pub continue_run : Agent → Result Error (Agent × Start)
continue_run a = do
  fail_if (is_active a) busy
  fail_if (is_nil (last_message a.state.messages)) continue_empty_context
  continue_from a

unfoldable pub steer : Stdlib → MessageList → Agent → Result Error Agent
steer std messages a =
    enqueue std a.steering_queue messages >>= λ q. ok (record a { steering_queue = q })

unfoldable pub follow_up : Stdlib → MessageList → Agent → Result Error Agent
follow_up std messages a =
    enqueue std a.follow_up_queue messages >>= λ q. ok (record a { follow_up_queue = q })

unfoldable pub clear_all_queues : Agent → Agent
clear_all_queues a = record a {
  steering_queue = clear a.steering_queue;
  follow_up_queue = clear a.follow_up_queue;
}

-- `Abort`: whether there was a run to cancel.
unfoldable pub abort : Agent → Bool × Agent
abort a =
    if is_active a
    then (true, record a { state = record (a.state) { phase = AgentPhase.aborted } })
    else (false, a)

unfoldable pub reset : Agent → Result Error Agent
reset a = do
  fail_if (is_active a) busy
  ok (record a {
    state = new_agent_state [];
    steering_queue = clear a.steering_queue;
    follow_up_queue = clear a.follow_up_queue;
  })

-- `GetSteeringMessages` and `GetFollowUpMessages` of a run; the configured callback is asked where
-- nothing waits.
abbrev pub or_fallback : MessageList → Option MessageList → MessageList
or_fallback [] none = []
or_fallback [] (some answer) = answer
or_fallback (x ∷ rest) fallback = x ∷ rest

abbrev pub skips : Option ActiveRun → Bool
skips none = false
skips (some run) = run.skip_steering

abbrev pub without_skip : Option ActiveRun → Option ActiveRun
without_skip none = none
without_skip (some run) = some (record run { skip_steering = false })

unfoldable pub get_steering_messages : Option MessageList → Agent → MessageList × Agent
get_steering_messages fallback a =
    let (messages, rest) = drain a.steering_queue in
    if skips a.active
    then ([], record a { active = without_skip a.active })
    else (or_fallback messages fallback, record a { steering_queue = rest })

unfoldable pub get_follow_up_messages : Option MessageList → Agent → MessageList × Agent
get_follow_up_messages fallback a =
    let (messages, rest) = drain a.follow_up_queue in
    (or_fallback messages fallback, record a { follow_up_queue = rest })
