-- ===== src/Core/Agent/Safety.antt =====
-- internal/agent/core/agent.go and agent_state.go: the calls on an agent as steps, and proofs
-- on every agent that they reach.
use oops.Prelude.{
  String, Option, List, [], ◌∷◌, Bool, true, false, not, ◌≡◌, inl, inr, refl, ok, arith, contains,
  distinct, distinct-snoc, contains-append, keep, str_eq, Bool-cases, ◌||◌, ◌==◌, length, subst,
  sym, ◌∙◌,
}
use oops.Ai.Types.{Stdlib, AgentMessage, MessageList}
use oops.Core.Queue.{QueueMode, drain}
use oops.Core.Agent.{
  Agent, AgentState, AgentPhase, AgentEvent, AgentEventType, Start, new_agent, new_agent_state,
  last_message, is_assistant, is_active, add_pending_tool_call, remove_pending_tool_call,
  reduce_state, reduce_agent_event, begin_run, finish_run, prompt, continue_run, continue_from,
  continue_from_queues, steer, follow_up, clear_all_queues, abort, reset, get_steering_messages,
  get_follow_up_messages,
}

-- The ids of the pending calls are distinct, and none is empty.
pub record IsPending (pending : List String) : Type 0 where
  pub once : distinct pending ≡ true
  pub named : contains "" pending ≡ false

-- What holds where no run is active.
pub record IsResting (s : AgentState) : Type 0 where
  pub phase : s.phase ≡ AgentPhase.idle
  pub quiet : s.is_streaming ≡ false
  pub no_message : s.streaming_message ≡ AgentMessage.nil
  pub no_calls : s.pending_tool_calls ≡ []

pub record IsSafe (a : Agent) : Type 0 where
  pub pending : IsPending a.state.pending_tool_calls
  pub resting : is_active a ≡ false → IsResting a.state

-- The calls on an agent. Events come from the loop, which runs between `begin_run` and `finish_run`.
pub data Step (std : Stdlib) : Agent → Agent → Type 0 where
  prompted :
      (messages : MessageList) {a : Agent} {r : Agent × Start}
      → prompt std messages a ≡ ok r
      → Step std a r.0
  continued : {a : Agent} {r : Agent × Start} → continue_run a ≡ ok r → Step std a r.0
  steered : (messages : MessageList) {a b : Agent} → steer std messages a ≡ ok b → Step std a b
  followed : (messages : MessageList) {a b : Agent} → follow_up std messages a ≡ ok b → Step std a b
  cleared : (a : Agent) → Step std a (clear_all_queues a)
  aborted : (a : Agent) → Step std a (abort a).1
  was_reset : {a b : Agent} → reset a ≡ ok b → Step std a b
  event : (e : AgentEvent) {a : Agent} → is_active a ≡ true → Step std a (reduce_agent_event e a)
  polled_steering :
      (fallback : Option MessageList) (a : Agent) → Step std a (get_steering_messages fallback a).1
  polled_follow_up :
      (fallback : Option MessageList) (a : Agent) → Step std a (get_follow_up_messages fallback a).1
  finished : (a : Agent) → Step std a (finish_run a)

pub data Reach (std : Stdlib) (messages : MessageList) (steering follow_up : QueueMode)
    : Agent → Type 0 where
  start : Reach std messages steering follow_up (new_agent messages steering follow_up)
  then_step :
      {a b : Agent}
      → Reach std messages steering follow_up a
      → Step std a b
      → Reach std messages steering follow_up b

add_pending-IsPending :
    (id : String) (pending : List String)
    → IsPending pending
    → IsPending (add_pending_tool_call id pending)
unfolding add_pending_tool_call
add_pending-IsPending id pending v = elim (Bool-cases (str_eq id "")) [
  | inl e ↦ rw e v
  | inr n ↦ elim (Bool-cases (contains id pending)) [
    | inl e ↦ rw (n, e) v
    | inr m ↦
        rw (n, m)
          (record {
            once = distinct-snoc pending id v.once m;
            named = rw (contains-append "" pending (id ∷ [])) (ground (arith, v.named, n));
          })
  ]
]

contains-keep :
    (p : String → Bool) (k : String) (xs : List String)
    → contains k xs ≡ false
    → contains k (keep p xs) ≡ false
contains-keep p k [] h = refl
contains-keep p k (x ∷ xs) h = ground (arith, contains-keep p k xs)

distinct-keep :
    (p : String → Bool) (xs : List String) → distinct xs ≡ true → distinct (keep p xs) ≡ true
distinct-keep p [] h = refl
distinct-keep p (x ∷ xs) h = ground (arith, distinct-keep p xs, contains-keep p x xs)

remove_pending-IsPending :
    (id : String) (pending : List String)
    → IsPending pending
    → IsPending (remove_pending_tool_call id pending)
unfolding remove_pending_tool_call
remove_pending-IsPending id pending v = elim (Bool-cases (str_eq id "" || length pending == 0)) [
  | inl e ↦ rw e v
  | inr n ↦ rw n (record {
    once = distinct-keep (λ x. not (str_eq x id)) pending v.once;
    named = contains-keep (λ x. not (str_eq x id)) "" pending v.named;
  })
]

none-IsPending : IsPending []
none-IsPending = record { once = refl; named = refl }

reduce_state-IsPending :
    (type : AgentEventType) (e : AgentEvent) (s : AgentState)
    → IsPending s.pending_tool_calls
    → IsPending (reduce_state type e s).pending_tool_calls
unfolding reduce_state
reduce_state-IsPending AgentEventType.agent_start e s v = v
reduce_state-IsPending AgentEventType.agent_end e s v = none-IsPending
reduce_state-IsPending AgentEventType.turn_start e s v = v
reduce_state-IsPending AgentEventType.turn_end e s v = v
reduce_state-IsPending AgentEventType.message_start e s v = v
reduce_state-IsPending AgentEventType.message_update e s v = v
reduce_state-IsPending AgentEventType.message_end e s v = v
reduce_state-IsPending AgentEventType.tool_execution_start e s v =
    add_pending-IsPending e.tool_call_id s.pending_tool_calls v
reduce_state-IsPending AgentEventType.tool_execution_update e s v = v
reduce_state-IsPending AgentEventType.tool_execution_end e s v =
    remove_pending-IsPending e.tool_call_id s.pending_tool_calls v
reduce_state-IsPending (AgentEventType.other type) e s v = v

-- No event ends a run.
pub reduce_agent_event-active :
    (e : AgentEvent) (a : Agent) → is_active (reduce_agent_event e a) ≡ is_active a
unfolding reduce_agent_event
reduce_agent_event-active e a = ground arith

begin_run-IsSafe : (skip : Bool) (a : Agent) → IsSafe (begin_run skip a)
unfolding begin_run
begin_run-IsSafe skip a = record { pending = none-IsPending; resting = λ h. cc }

finish_run-IsSafe : (a : Agent) → IsSafe (finish_run a)
unfolding finish_run
finish_run-IsSafe a = record {
  pending = none-IsPending;
  resting = λ h. record { phase = refl; quiet = refl; no_message = refl; no_calls = refl };
}

-- The queues are no part of the invariant.
same_state-IsSafe :
    (a b : Agent) → b.state ≡ a.state → is_active b ≡ is_active a → IsSafe a → IsSafe b
same_state-IsSafe a b s h v = record {
  pending = subst (λ x. IsPending x.pending_tool_calls) (sym s) v.pending;
  resting = λ q. subst IsResting (sym s) (v.resting (sym h ∙ q));
}

from_queues_begins :
    (a : Agent) {r : Agent × Start}
    → continue_from_queues a ≡ ok r
    → (skip : Bool) × (b : Agent) × (r.0 ≡ begin_run skip b)
unfolding continue_from_queues
from_queues_begins a {r} h =
    let s = drain a.steering_queue in
    let f = drain a.follow_up_queue in
    elim (Bool-cases (length s.0 == 0)) [
      | inr some_steering ↦
          let b = record a { steering_queue = s.1 } in
          let e : r.0 ≡ begin_run true b = ground arith in (true, b, e)
      | inl no_steering ↦
          let b = record a { steering_queue = s.1; follow_up_queue = f.1 } in
          let e : r.0 ≡ begin_run false b = ground arith in (false, b, e)
    ]

continue_run_begins :
    (a : Agent) {r : Agent × Start}
    → continue_run a ≡ ok r
    → (skip : Bool) × (b : Agent) × (r.0 ≡ begin_run skip b)
unfolding continue_run continue_from
continue_run_begins a {r} h = elim (Bool-cases (is_assistant (last_message a.state.messages))) [
  | inl assistant ↦ let e : continue_from_queues a ≡ ok r = ground arith in from_queues_begins a e
  | inr other ↦ let e : r.0 ≡ begin_run false a = ground arith in (false, a, e)
]

Step-IsSafe : (std : Stdlib) {a b : Agent} → Step std a b → IsSafe a → IsSafe b
Step-IsSafe std (prompted messages {a} {r} h) v =
    let e : r.0 ≡ begin_run false a = unfold prompt in ground arith in
    rw e (begin_run-IsSafe false a)
Step-IsSafe std (continued {a} {r} h) v =
    let (skip, b, e) = continue_run_begins a h in rw e (begin_run-IsSafe skip b)
Step-IsSafe std (steered messages {a} {b} h) v =
    let e : (b.state ≡ a.state) × (is_active b ≡ is_active a) = unfold steer in ground arith in
    same_state-IsSafe a b e.0 e.1 v
Step-IsSafe std (followed messages {a} {b} h) v =
    let e : (b.state ≡ a.state) × (is_active b ≡ is_active a) = unfold follow_up in ground arith in
    same_state-IsSafe a b e.0 e.1 v
Step-IsSafe std (cleared a) v =
    unfold clear_all_queues in same_state-IsSafe a (clear_all_queues a) refl refl v
Step-IsSafe std (aborted a) v = elim (Bool-cases (is_active a)) [
  | inl on ↦ unfold abort in rw on (record { pending = v.pending; resting = λ q. cc })
  | inr off ↦ unfold abort in rw off v
]
Step-IsSafe std (was_reset {a} {b} h) v =
    let e : (b.state ≡ new_agent_state []) × (is_active b ≡ is_active a) =
      unfold reset in ground arith in
    record {
      pending = subst (λ x. IsPending x.pending_tool_calls) (sym e.0) none-IsPending;
      resting = λ q.
          subst IsResting (sym e.0)
            (record { phase = refl; quiet = refl; no_message = refl; no_calls = refl });
    }
Step-IsSafe std (event e {a} h) v = record {
  pending = unfold reduce_agent_event in reduce_state-IsPending e.type e a.state v.pending;
  resting = λ q. let n = reduce_agent_event-active e a in cc;
}
Step-IsSafe std (polled_steering fallback a) v =
    let b : Agent = (get_steering_messages fallback a).1 in
    let e : (b.state ≡ a.state) × (is_active b ≡ is_active a) =
      unfold get_steering_messages in ground arith in
    same_state-IsSafe a b e.0 e.1 v
Step-IsSafe std (polled_follow_up fallback a) v =
    unfold get_follow_up_messages in
    same_state-IsSafe a (get_follow_up_messages fallback a).1 refl refl v
Step-IsSafe std (finished a) v = finish_run-IsSafe a

-- In every state that the calls on an agent and the events of its runs reach, the pending tool
-- calls are distinct and not empty ids, and while no run is active the agent is idle: its phase
-- is Idle, it does not stream, it has no streaming message and no pending calls.
pub Reach-IsSafe :
    (std : Stdlib) {messages : MessageList} {steering follow_up : QueueMode} {a : Agent}
    → Reach std messages steering follow_up a
    → IsSafe a
Reach-IsSafe std start = record {
  pending = none-IsPending;
  resting = λ h. record { phase = refl; quiet = refl; no_message = refl; no_calls = refl };
}
Reach-IsSafe std (then_step r s) = Step-IsSafe std s (Reach-IsSafe std r)

pub aborted_stays :
    (e : AgentEvent) (a : Agent)
    → a.state.phase ≡ AgentPhase.aborted
    → (reduce_agent_event e a).state.phase ≡ AgentPhase.aborted
unfolding reduce_agent_event reduce_state
aborted_stays e a h = ground arith
