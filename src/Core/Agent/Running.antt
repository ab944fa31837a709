-- ===== src/Core/Agent/Running.antt =====
-- internal/agent/core/agent.go and agent_state.go: what the calls and events leave alone while a
-- run is active.
use oops.Prelude.{[], ◌∷◌, ◌++◌, true, ◌≡◌, ◌≢◌, inl, inr, refl, sym, ap, ◌∙◌, arith, Bool-cases}
use mathlib.Core.List.{append-nil, append_assoc}
use oops.Ai.Types.{Stdlib, MessageList, is_nil}
use oops.Core.Agent.{
  Agent, AgentState, AgentPhase, AgentEvent, AgentEventType, is_active, reduce_state,
  reduce_agent_event, finish_run, prompt, continue_run, steer, follow_up, clear_all_queues, abort,
  reset, get_steering_messages, get_follow_up_messages,
}
use oops.Core.Agent.Safety.{
  Step, prompted, continued, steered, followed, cleared, aborted, was_reset, event, polled_steering,
  polled_follow_up, finished, reduce_agent_event-active, aborted_stays,
}

-- `b` is in the run that `a` is in.
pub record IsSameRun (a b : Agent) : Type 0 where
  pub active : is_active b ≡ true
  pub grown : (more : MessageList) × (b.state.messages ≡ a.state.messages ++ more)
  pub stays : a.state.phase ≡ AgentPhase.aborted → b.state.phase ≡ AgentPhase.aborted

-- Any calls and events but the end of the run.
pub data During (std : Stdlib) (a : Agent) : Agent → Type 0 where
  here : During std a a
  then_step : {b c : Agent} → During std a b → Step std b c → c ≢ finish_run b → During std a c

reduce_state-grown :
    (type : AgentEventType) (e : AgentEvent) (s : AgentState)
    → (more : MessageList) × ((reduce_state type e s).messages ≡ s.messages ++ more)
unfolding reduce_state
reduce_state-grown AgentEventType.message_end e s = elim (Bool-cases (is_nil e.message)) [
  | inl nil ↦ rw nil ([], sym (append-nil s.messages))
  | inr some_message ↦ rw some_message (e.message ∷ [], refl)
]
reduce_state-grown _ e s = ([], sym (append-nil s.messages))

-- What the calls leave that do not touch the state.
same_state-IsSameRun : (a b : Agent) → b.state ≡ a.state → is_active b ≡ true → IsSameRun a b
same_state-IsSameRun a b e h = record {
  active = h;
  grown = ([], ap (λ x. x.messages) e ∙ sym (append-nil a.state.messages));
  stays = λ q. rw e q;
}

-- A call made within a run, or an event of the run.
Step-IsSameRun :
    (std : Stdlib) {a b : Agent}
    → Step std a b
    → is_active a ≡ true
    → b ≢ finish_run a
    → IsSameRun a b
Step-IsSameRun std (prompted messages {a} h) on n = absurd (unfold prompt in ground arith)
Step-IsSameRun std (continued {a} h) on n = absurd (unfold continue_run in ground arith)
Step-IsSameRun std (was_reset {a} h) on n = absurd (unfold reset in ground arith)
Step-IsSameRun std (steered messages {a} {b} h) on n =
    let e : (b.state ≡ a.state) × (is_active b ≡ is_active a) = unfold steer in ground arith in
    same_state-IsSameRun a b e.0 (e.1 ∙ on)
Step-IsSameRun std (followed messages {a} {b} h) on n =
    let e : (b.state ≡ a.state) × (is_active b ≡ is_active a) = unfold follow_up in ground arith in
    same_state-IsSameRun a b e.0 (e.1 ∙ on)
Step-IsSameRun std (cleared a) on n =
    unfold clear_all_queues in same_state-IsSameRun a (clear_all_queues a) refl on
Step-IsSameRun std (aborted a) on n =
    unfold abort in
    rw on
      (record { active = on; grown = ([], sym (append-nil a.state.messages)); stays = λ q. refl })
Step-IsSameRun std (event e {a} h) on n = record {
  active = reduce_agent_event-active e a ∙ on;
  grown = unfold reduce_agent_event in reduce_state-grown e.type e a.state;
  stays = aborted_stays e a;
}
Step-IsSameRun std (polled_steering fallback a) on n =
    let b : Agent = (get_steering_messages fallback a).1 in
    let e : (b.state ≡ a.state) × (is_active b ≡ is_active a) =
      unfold get_steering_messages in ground arith in
    same_state-IsSameRun a b e.0 (e.1 ∙ on)
Step-IsSameRun std (polled_follow_up fallback a) on n =
    unfold get_follow_up_messages in
    same_state-IsSameRun a (get_follow_up_messages fallback a).1 refl on
Step-IsSameRun std (finished a) on n = absurd (n refl)

IsSameRun-trans : {a b c : Agent} → IsSameRun a b → IsSameRun b c → IsSameRun a c
IsSameRun-trans {a} {b} {c} r t =
    let (xs, e) = r.grown in
    let (ys, f) = t.grown in
    record {
      active = t.active;
      grown = (xs ++ ys, f ∙ ap (λ l. l ++ ys) e ∙ append_assoc a.state.messages xs ys);
      stays = λ q. t.stays (r.stays q);
    }

pub active_is_not_finished : (a b : Agent) → is_active b ≡ true → b ≢ finish_run a
unfolding finish_run
active_is_not_finished a b h e = ground (arith, ap is_active e)

-- From an agent with an active run, through any calls on the agent, polls of its queues and
-- events of the run, none of which leaves the agent as `finishRun` would: the agent still has
-- an active run, its messages are those that it had, in the same order, with none or more
-- others behind them, and if its phase was Aborted it still is.
pub During-IsSameRun :
    (std : Stdlib) {a b : Agent} → is_active a ≡ true → During std a b → IsSameRun a b
During-IsSameRun std {a} on here = same_state-IsSameRun a a refl on
During-IsSameRun std on (then_step d s n) =
    let r = During-IsSameRun std on d in IsSameRun-trans r (Step-IsSameRun std s r.active n)
