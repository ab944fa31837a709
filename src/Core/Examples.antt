-- ===== src/Core/Examples.antt =====
-- A queue and an agent with a message.
use oops.Prelude.{[], ◌∷◌, ◌++◌, true, false, ◌≡◌, refl, ok, arith}
use oops.Ai.Types.{Stdlib, ContentType, MessageRole, Content, AgentMessage}
use oops.Ai.Validate.{validate_message}
use oops.Core.Queue.{
  MessageQueue, QueueMode, new_message_queue, enqueue, drain, clone_validated_messages,
}
use oops.Core.Queue.Fifo.{start, enqueued, drained, Trace-in_order, drains, drains_all}
use oops.Core.Agent.{
  Agent, AgentEvent, AgentEventType, prompt_with, new_agent, is_active, begin_run, prompt, abort,
  reduce_agent_event,
}
use oops.Core.Agent.Safety
use oops.Core.Agent.Running.{
  During, IsSameRun, here, then_step, active_is_not_finished, During-IsSameRun,
}

abbrev std : Stdlib
std = record {
  json_valid = λ _. true;
  is_json_object = λ _. true;
  trim_space = λ s. s;
  unix_milli = λ n. n;
}

abbrev hello : AgentMessage
hello = AgentMessage.user (record {
  role = MessageRole.user;
  content =
      Content.text (record { type = ContentType.text; text = "hello"; text_signature = "" }) ∷ [];
  timestamp = 1;
})

abbrev one_queue : MessageQueue
one_queue = new_message_queue QueueMode.unset

abbrev two_queue : MessageQueue
two_queue = record one_queue { messages = hello ∷ hello ∷ [] }

enqueued_two : enqueue std one_queue (hello ∷ hello ∷ []) ≡ ok two_queue
unfolding enqueue clone_validated_messages validate_message
enqueued_two = refl

Trace-in_order_example :
    one_queue.messages ++ ([] ++ hello ∷ hello ∷ [])
    ≡ ([] ++ (drain two_queue).0) ++ (drain two_queue).1.messages
Trace-in_order_example =
    Trace-in_order std one_queue (drained (enqueued (hello ∷ hello ∷ []) start enqueued_two))

drains_all_example : drains 2 two_queue ≡ two_queue.messages
drains_all_example = drains_all 2 two_queue (omega arith)

abbrev idle : Agent
idle = new_agent [] QueueMode.all QueueMode.unset

running : Agent
running = begin_run false idle

prompted_is : prompt std (hello ∷ []) idle ≡ ok (running, prompt_with (hello ∷ []))
unfolding prompt running clone_validated_messages validate_message
prompted_is = refl

running_reached : Safety.Reach std [] QueueMode.all QueueMode.unset running
running_reached = Safety.then_step Safety.start (Safety.prompted (hello ∷ []) prompted_is)

Reach-IsSafe_example : Safety.IsSafe running
Reach-IsSafe_example = Safety.Reach-IsSafe std running_reached

running_active : is_active running ≡ true
unfolding running begin_run
running_active = refl

stopped : Agent
stopped = (abort running).1

abbrev tool_started : AgentEvent
tool_started = record {
  type = AgentEventType.tool_execution_start;
  message = AgentMessage.nil;
  tool_call_id = "a";
}

stopped_active : is_active stopped ≡ true
unfolding stopped running abort begin_run
stopped_active = refl

calling : Agent
calling = reduce_agent_event tool_started stopped

calling_active : is_active calling ≡ true
unfolding calling stopped running reduce_agent_event abort begin_run
calling_active = refl

-- The run is stopped, and the loop still starts a tool call.
calling_within : During std running calling
unfolding calling stopped
calling_within =
    then_step
      (then_step here (Safety.aborted running)
        (active_is_not_finished running stopped stopped_active))
      (Safety.event tool_started stopped_active)
      (active_is_not_finished stopped calling calling_active)

During-IsSameRun_example : IsSameRun running calling
During-IsSameRun_example = During-IsSameRun std running_active calling_within
