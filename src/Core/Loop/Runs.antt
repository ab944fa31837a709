-- ===== src/Core/Loop/Runs.antt =====
-- internal/agent/core/agent_loop.go: proofs on RunAgentLoop and RunAgentLoopContinue, and on the
-- agent that takes in their events.
use oops.Prelude.{
  Option, List, [], ◌∷◌, ◌++◌, true, ◌≡◌, inl, inr, refl, sym, ap, ◌∙◌, Bool-cases, Result, ok, err,
}
use mathlib.Core.List.{append_assoc, append-nil}
use oops.Ai.Types.{MessageList, is_nil}
use oops.Core.Agent.{
  Agent, AgentState, reduce_agent_event, reduce_state, last_message, is_assistant, AgentEvent,
  AgentEventType,
}
use oops.Core.Loop.Effects.{LoopError, Outside, Ends, after-Ends, ◌>>◌}
use oops.Core.Loop.Types.{Names, ToolRunner, LoopConfig}
use oops.Core.Loop.{
  run_loop, emit_prompts, run_agent_loop, run_agent_loop_continue, loop_state, begin_agent,
  no_stream,
}
use oops.Core.Loop.Journal.{ended, Ended, ended-append}
use oops.Core.Loop.Laws.{present, ToolsSend, IsLawful}
use oops.Core.Loop.Whole.{
  Whole, begin_agent-Ended, emit_prompts-Ended, run_loop-Whole, start-Waiting,
}

-- `Ends` of a weaker condition.
Ends-map :
    {W A : Type 0} (P Q : A → Outside W → Type 0) (r : Result LoopError A × Outside W)
    → Ends P r
    → ((a : A) (s : Outside W) → P a s → Q a s)
    → Ends Q r
Ends-map P Q (ok a, s) h k = k a s h
Ends-map P Q (err e, s) h k = h

-- The agent behind its events, each one reduced when it is sent.
unfoldable pub reduce_all : List AgentEvent → Agent → Agent
reduce_all [] a = a
reduce_all (e ∷ rest) a = reduce_all rest (reduce_agent_event e a)

reduce_state-messages :
    (type : AgentEventType) (e : AgentEvent) (s : AgentState)
    → (reduce_state type e s).messages ≡ s.messages ++ ended (record e { type = type } ∷ [])
unfolding reduce_state ended
reduce_state-messages AgentEventType.message_end e s = elim (Bool-cases (is_nil e.message)) [
  | inl q ↦ simp q (sym (append-nil s.messages))
  | inr q ↦ simp q refl
]
reduce_state-messages AgentEventType.agent_start e s = sym (append-nil s.messages)
reduce_state-messages AgentEventType.agent_end e s = sym (append-nil s.messages)
reduce_state-messages AgentEventType.turn_start e s = sym (append-nil s.messages)
reduce_state-messages AgentEventType.turn_end e s = sym (append-nil s.messages)
reduce_state-messages AgentEventType.message_start e s = sym (append-nil s.messages)
reduce_state-messages AgentEventType.message_update e s = sym (append-nil s.messages)
reduce_state-messages AgentEventType.tool_execution_start e s = sym (append-nil s.messages)
reduce_state-messages AgentEventType.tool_execution_update e s = sym (append-nil s.messages)
reduce_state-messages AgentEventType.tool_execution_end e s = sym (append-nil s.messages)
reduce_state-messages (AgentEventType.other x) e s = sym (append-nil s.messages)

reduce-messages :
    (e : AgentEvent) (a : Agent)
    → (reduce_agent_event e a).state.messages ≡ a.state.messages ++ ended (e ∷ [])
unfolding reduce_agent_event
reduce-messages e a = reduce_state-messages e.type e a.state

reduce_all-messages :
    (log : List AgentEvent) (a : Agent)
    → (reduce_all log a).state.messages ≡ a.state.messages ++ ended log
unfolding reduce_all ended
reduce_all-messages [] a = sym (append-nil a.state.messages)
reduce_all-messages (e ∷ rest) a =
    reduce_all-messages rest (reduce_agent_event e a)
    ∙ ap (λ x. x ++ ended rest) (reduce-messages e a)
    ∙ append_assoc a.state.messages (ended (e ∷ [])) (ended rest)
    ∙ ap (λ x. a.state.messages ++ x) (sym (ended-append (e ∷ []) rest))

module _ {W : Type 0} (c : LoopConfig W) (lawful : IsLawful c) where
  -- `RunAgentLoop` never needs more turns than `MaxTurns` and one: with that fuel it returns
  -- messages or an error of the code, and the messages returned are exactly, and in order, the
  -- messages whose end it has sent to the sink in this call. This is so if every stream that
  -- gives a message behind its last item has given an item that ends it, the prompts and the
  -- queues give no nil message, a tool runner returns the messages that it has sent, and the
  -- sink does not fail where no runner is set.
  pub run_agent_loop-Ended :
      (names : Names) (tools : Option (ToolRunner W)) (prompts context : MessageList)
      (s : Outside W)
      → present prompts ≡ true
      → ToolsSend c tools
      → Ends
          (λ messages t. ended t.log ≡ ended s.log ++ messages)
          (run_agent_loop c names tools prompts context s)
  unfolding run_agent_loop
  run_agent_loop-Ended names tools prompts context s p t =
      elim (Bool-cases (no_stream c c.stream)) [
        | inl q ↦ simp q (λ r. cc)
        | inr q ↦ simp q (
            after-Ends (λ _ u. Ended (ended s.log ++ prompts) u) (Whole c lawful (ended s.log))
              (λ _. run_loop c (loop_state c names tools (context ++ prompts) prompts))
              ((begin_agent c >> emit_prompts c prompts) s)
              (after-Ends (λ _ u. Ended (ended s.log) u) (λ _ u. Ended (ended s.log ++ prompts) u)
                (λ _. emit_prompts c prompts) (begin_agent c s)
                (begin_agent-Ended c lawful (ended s.log) s refl)
                (λ _ u k. emit_prompts-Ended c lawful (ended s.log) prompts u p k))
              (λ _ u k.
                run_loop-Whole c lawful (ended s.log)
                  (loop_state c names tools (context ++ prompts) prompts) u
                  (start-Waiting c lawful names tools (ended s.log) (context ++ prompts) prompts u t
                    k)
                  refl))
      ]

  -- `RunAgentLoopContinue` never needs more turns than `MaxTurns` and one, and the messages
  -- that it returns are exactly, and in order, those whose end it has sent, under the same
  -- conditions on the streams, queues, tool runners and sink.
  pub run_agent_loop_continue-Ended :
      (names : Names) (tools : Option (ToolRunner W)) (context : MessageList) (s : Outside W)
      → ToolsSend c tools
      → Ends
          (λ messages t. ended t.log ≡ ended s.log ++ messages)
          (run_agent_loop_continue c names tools context s)
  unfolding run_agent_loop_continue
  run_agent_loop_continue-Ended names tools context s t =
      elim (Bool-cases (is_nil (last_message context))) [
        | inl q ↦ simp q (λ r. cc)
        | inr q ↦ elim (Bool-cases (is_assistant (last_message context))) [
          | inl p ↦ simp (q, p) (λ r. cc)
          | inr p ↦ elim (Bool-cases (no_stream c c.stream)) [
            | inl n ↦ simp (q, p, n) (λ r. cc)
            | inr n ↦
                simp (q, p, n)
                  (after-Ends (λ _ u. Ended (ended s.log) u) (Whole c lawful (ended s.log))
                    (λ _. run_loop c (loop_state c names tools context [])) (begin_agent c s)
                    (begin_agent-Ended c lawful (ended s.log) s refl)
                    (λ _ u k.
                      run_loop-Whole c lawful (ended s.log) (loop_state c names tools context []) u
                        (start-Waiting c lawful names tools (ended s.log) context [] u t
                          (k ∙ sym (append-nil (ended s.log))))
                        refl))
          ]
        ]
      ]

  -- An agent that takes in the events of a run of `RunAgentLoop`, one by one, has afterwards
  -- the messages that it had before and behind them those that the run returned, if the run
  -- returns messages and under the conditions on the streams, queues, tool runners and sink.
  pub run_agent_loop-replayed :
      (names : Names) (tools : Option (ToolRunner W)) (prompts context : MessageList) (w : W)
      (a : Agent)
      → present prompts ≡ true
      → ToolsSend c tools
      → Ends
          (λ messages t. (reduce_all t.log a).state.messages ≡ a.state.messages ++ messages)
          (run_agent_loop c names tools prompts context (record { log = []; world = w }))
  unfolding ended
  run_agent_loop-replayed names tools prompts context w a p t =
      Ends-map (λ messages u. ended u.log ≡ messages)
        (λ messages u. (reduce_all u.log a).state.messages ≡ a.state.messages ++ messages)
        (run_agent_loop c names tools prompts context (record { log = []; world = w }))
        (run_agent_loop-Ended names tools prompts context (record { log = []; world = w }) p t)
        (λ messages u h. reduce_all-messages u.log a ∙ ap (λ x. a.state.messages ++ x) h)
