-- ===== src/Core/Loop/Turns.antt =====
-- internal/agent/core/agent_loop.go: proofs on one turn of the loop.
use oops.Prelude.{
  ℕ, ◌+◌, String, Option, none, some, List, [], ◌∷◌, ◌++◌, true, false, ◌≡◌, inl, inr, refl, sym,
  ap, ◌∙◌, subst, arith, ltb, Bool-cases, Option-cases, Result, if◌then◌else◌,
}
use mathlib.Core.List.{append_assoc}
use oops.Ai.Types.{
  AgentMessage, AssistantMessage, MessageList, StopReason, ToolCallContent,
  tool_calls_from_assistant,
}
use oops.Core.Agent.{AgentEventType}
use oops.Core.Loop.Effects.{LoopError, Outside, pure, after, Ends, after-Ends}
use oops.Core.Loop.Types.{
  ToolRunResult, LoopConfig, LoopState, Turn, limit_of, is_failure, event_of, as_messages,
}
use oops.Core.Loop.Response.{emit_message, emit_plain, emit_both, stream_assistant_response}
use oops.Core.Loop.Tools.{
  Batch, stopped, results, end_agent, emit_active_terminal_error, runner_of, after_tools,
  with_calls, run_tools, with_message, with_results,
}
use oops.Core.Loop.{begin_turn, add_pending, finish_turn, end_turn, respond, run_turn}
use oops.Core.Loop.Journal.{ended, Ended, emit-silent, emit_both-Ended, Sent}
use oops.Core.Loop.Laws.{present, ToolsSend, IsLawful}
use oops.Core.Loop.Answers.{stream_assistant_response-Sent}
use oops.Core.Loop.Hooks.{end_agent-Goes, terminal-Goes, Goes, Going, finish_turn-Goes}
use oops.Core.Loop.Missing.{runner_of-Sends}

module _ {W : Type 0} (c : LoopConfig W) (lawful : IsLawful c) where
  abbrev BatchGoes : MessageList → ℕ → Batch c → Outside W → Type 0
  BatchGoes b turn (stopped t) s = Goes c lawful b turn t s
  BatchGoes b turn (results st tool_results has_more) s = Going c lawful b turn st s

  after_stop-Goes :
      (b : MessageList) (turn : ℕ) (r : Result LoopError (Turn W) × Outside W)
      → Ends (Goes c lawful b turn) r
      → Ends (BatchGoes b turn) (after (λ t. pure (stopped t)) r)
  after_stop-Goes b turn r h =
      after-Ends (Goes c lawful b turn) (BatchGoes b turn) (λ t. pure (stopped t)) r h (λ t s k. k)

  with_messages-Going :
      (b messages : MessageList) (turn : ℕ) (st next : LoopState W) (s t : Outside W)
      → Going c lawful b turn st s
      → Ended ((b ++ st.new_messages) ++ messages) t
      → next.new_messages ≡ st.new_messages ++ messages
      → next.tools ≡ st.tools
      → next.pending ≡ st.pending
      → next.turn ≡ st.turn
      → next.first_turn ≡ st.first_turn
      → Going c lawful b turn next t
  with_messages-Going b messages turn st next s t g h n o p q f = record {
    sent = h ∙ append_assoc b st.new_messages messages ∙ ap (λ x. b ++ x) (sym n);
    tools = subst (ToolsSend c) (sym o) g.tools;
    waiting = ap present p ∙ g.waiting;
    turn_is = q ∙ g.turn_is;
    later = f ∙ g.later;
    within = g.within;
  }

  after_tools-Goes :
      (b : MessageList) (turn : ℕ) (st : LoopState W) (x : ToolRunResult × Option String)
      (s t : Outside W)
      → Going c lawful b turn st s
      → Ended ((b ++ st.new_messages) ++ as_messages x.0.messages) t
      → Ends (BatchGoes b turn) (after_tools c st x t)
  after_tools-Goes b turn st (batch, none) s t g h =
      with_messages-Going b (as_messages batch.messages) turn st (with_results c batch.messages st)
        s t g h refl refl refl refl refl
  after_tools-Goes b turn st (batch, some e) s t g h = elim (Option-cases (c.cancelled t.world)) [
    | inl q ↦ simp q (λ p. cc)
    | inr (text, q) ↦ simp q (
        after_stop-Goes b turn
          (emit_active_terminal_error c st.names (st.new_messages ++ as_messages batch.messages)
            text StopReason.aborted t)
          (terminal-Goes c lawful st.names b (st.new_messages ++ as_messages batch.messages) text
            StopReason.aborted turn t
            (h ∙ append_assoc b st.new_messages (as_messages batch.messages))))
  ]

  with_calls-Goes :
      (b : MessageList) (turn : ℕ) (st : LoopState W) (calls : List ToolCallContent) (s : Outside W)
      → Going c lawful b turn st s
      → Ends (BatchGoes b turn) (with_calls c st calls s)
  with_calls-Goes b turn st [] s g = g
  with_calls-Goes b turn st (call ∷ calls) s g = elim (Option-cases (c.cancelled s.world)) [
    | inl q ↦ simp q (
        after_tools-Goes b turn st (runner_of c st.tools st.context (call ∷ calls) s).0 s
          (runner_of c st.tools st.context (call ∷ calls) s).1 g
          (runner_of-Sends c st.tools g.tools st.context (call ∷ calls) s
            ∙ ap
                (λ x.
                  x ++ as_messages (runner_of c st.tools st.context (call ∷ calls) s).0.0.messages)
                g.sent))
    | inr (text, q) ↦ simp q (
        after_stop-Goes b turn
          (emit_active_terminal_error c st.names st.new_messages text StopReason.aborted s)
          (terminal-Goes c lawful st.names b st.new_messages text StopReason.aborted turn s g.sent))
  ]

  run_tools-Goes :
      (b : MessageList) (turn : ℕ) (st : LoopState W) (m : AssistantMessage) (s : Outside W)
      → Going c lawful b turn st s
      → Ends (BatchGoes b turn) (run_tools c st m s)
  unfolding run_tools
  run_tools-Goes b turn st m s g = elim (Bool-cases (is_failure m.stop_reason)) [
    | inl q ↦ simp q g
    | inr q ↦ simp q (with_calls-Goes b turn st (tool_calls_from_assistant m) s g)
  ]

  again :
      (b : MessageList) (turn : ℕ) (st : LoopState W) (s t : Outside W)
      → Going c lawful b turn st s
      → Ended (b ++ st.new_messages) t
      → Going c lawful b turn st t
  again b turn st s t g h = record {
    sent = h;
    tools = g.tools;
    waiting = g.waiting;
    turn_is = g.turn_is;
    later = g.later;
    within = g.within;
  }

  end_turn-Goes :
      (b : MessageList) (turn : ℕ) (m : AssistantMessage) (x : Batch c) (s : Outside W)
      → BatchGoes b turn x s
      → Ends (Goes c lawful b turn) (end_turn c m x s)
  unfolding end_turn ended
  end_turn-Goes b turn m (stopped t) s g = g
  end_turn-Goes b turn m (results st tool_results has_more) s g =
      after-Ends (λ _ t. Ended (b ++ st.new_messages) t) (Goes c lawful b turn)
        (λ _.
          if is_failure m.stop_reason
          then end_agent c st.new_messages
          else finish_turn c st m tool_results has_more)
        (emit_message c AgentEventType.turn_end (AgentMessage.assistant m) s)
        (emit-silent c (event_of AgentEventType.turn_end (AgentMessage.assistant m)) s refl g.sent)
        λ _ t k.
          let now : Going c lawful b turn st t = again b turn st s t g k in
          elim (Bool-cases (is_failure m.stop_reason)) [
            | inl q ↦ simp q (end_agent-Goes c lawful b st.new_messages turn t k)
            | inr q ↦ simp q (finish_turn-Goes c lawful b turn st m tool_results has_more t now)
          ]

  respond-Goes :
      (b : MessageList) (turn : ℕ) (st : LoopState W) (s : Outside W)
      → Going c lawful b turn st s
      → Ends (Goes c lawful b turn) (respond c st s)
  unfolding respond
  respond-Goes b turn st s g =
      after-Ends (Sent c (b ++ st.new_messages)) (Goes c lawful b turn) _
        (stream_assistant_response c st.names st.context s)
        (stream_assistant_response-Sent c lawful st.names st.context s g.sent)
        λ m t k.
          after-Ends (BatchGoes b turn) (Goes c lawful b turn) (end_turn c m)
            (run_tools c (with_message c (AgentMessage.assistant m) st) m t)
            (run_tools-Goes b turn (with_message c (AgentMessage.assistant m) st) m t (
              with_messages-Going b (AgentMessage.assistant m ∷ []) turn st
                (with_message c (AgentMessage.assistant m) st) s t g k refl refl refl refl refl))
            (λ x u q. end_turn-Goes b turn m x u q)

  add_pending-Going :
      (b : MessageList) (turn : ℕ) (pending : MessageList) (st : LoopState W) (s : Outside W)
      → present pending ≡ true
      → Going c lawful b turn st s
      → Ends (Going c lawful b turn) (add_pending c pending st s)
  unfolding add_pending
  add_pending-Going b turn [] st s p g = record {
    sent = g.sent;
    tools = g.tools;
    waiting = refl;
    turn_is = g.turn_is;
    later = g.later;
    within = g.within;
  }
  add_pending-Going b turn (m ∷ rest) st s p g =
      after-Ends (λ _ t. Ended ((b ++ st.new_messages) ++ m ∷ []) t) (Going c lawful b turn) _
        (emit_both c m s) (emit_both-Ended c m s (ground (arith, p)) g.sent)
        λ _ t k. add_pending-Going b turn rest (with_message c m st) t (ground (arith, p)) (
          with_messages-Going b (m ∷ []) turn st (with_message c m st) s t g k refl refl refl refl
            refl)

  -- The number of the turn that runs next.
  abbrev pub upcoming : LoopState W → ℕ
  upcoming st = if st.first_turn then st.turn else st.turn + 1

  -- What holds of a state between two turns.
  pub record Waiting (b : MessageList) (st : LoopState W) (s : Outside W) : Type 0 where
    pub sent : Ended (b ++ st.new_messages) s
    pub tools : ToolsSend c st.tools
    pub waiting : present st.pending ≡ true

  record Begun (b : MessageList) (turn : ℕ) (st : LoopState W) (s : Outside W) : Type 0 where
    state : Waiting b st s
    turn_is : st.turn ≡ turn
    later : st.first_turn ≡ false

  begin_turn-Begun :
      (b : MessageList) (st : LoopState W) (s : Outside W)
      → Waiting b st s
      → Ends (Begun b (upcoming st)) (begin_turn c st s)
  unfolding begin_turn ended
  begin_turn-Begun b st s g = elim (Bool-cases st.first_turn) [
    | inl q ↦ simp q (record {
      state = record { sent = g.sent; tools = g.tools; waiting = g.waiting };
      turn_is = refl;
      later = refl;
    })
    | inr q ↦ simp q (
        after-Ends (λ _ t. Ended (b ++ st.new_messages) t) (Begun b (st.turn + 1))
          (λ _. pure (record st { turn = st.turn + 1; first_turn = false }))
          (emit_plain c AgentEventType.turn_start s)
          (emit-silent c (event_of AgentEventType.turn_start AgentMessage.nil) s refl g.sent)
          λ _ t k. record {
            state = record { sent = k; tools = g.tools; waiting = g.waiting };
            turn_is = refl;
            later = refl;
          })
  ]

  pub run_turn-Goes :
      (b : MessageList) (st : LoopState W) (s : Outside W)
      → Waiting b st s
      → Ends (Goes c lawful b (upcoming st)) (run_turn c st s)
  unfolding run_turn
  run_turn-Goes b st s g =
      after-Ends (Begun b (upcoming st)) (Goes c lawful b (upcoming st)) _ (begin_turn c st s)
        (begin_turn-Begun b st s g)
        λ now t k. elim (Bool-cases (ltb (limit_of c.max_turns) now.turn)) [
          | inl q ↦ simp q (
              terminal-Goes c lawful now.names b now.new_messages "max_turns_exceeded"
                StopReason.error (upcoming st) t k.state.sent)
          | inr q ↦ simp q (
              after-Ends (Going c lawful b (upcoming st)) (Goes c lawful b (upcoming st))
                (respond c) (add_pending c now.pending now t)
                (add_pending-Going b (upcoming st) now.pending now t k.state.waiting (record {
                  sent = k.state.sent;
                  tools = k.state.tools;
                  waiting = k.state.waiting;
                  turn_is = k.turn_is;
                  later = k.later;
                  within = subst (λ x. ltb (limit_of c.max_turns) x ≡ false) k.turn_is q;
                }))
                (λ x u z. respond-Goes b (upcoming st) x u z))
        ]
