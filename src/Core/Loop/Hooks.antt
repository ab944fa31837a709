-- ===== src/Core/Loop/Hooks.antt =====
-- internal/agent/core/agent_loop.go: proofs on the callbacks and the hooks of a turn, on the messages that it sends
-- and returns.
use oops.Prelude.{
  ℕ, String, Option, none, some, List, [], ◌∷◌, ◌++◌, Bool, true, false, ◌≡◌, refl, ◌∙◌, subst, ltb,
  Result, ok, err,
}
use mathlib.Core.List.{append_assoc}
use oops.Ai.Types.{AgentMessage, AssistantMessage, MessageList, StopReason, ToolResultMessage}
use oops.Core.Agent.{AgentEventType}
use oops.Core.Loop.Effects.{Outside, Action, pure, Ends, after-Ends}
use oops.Core.Loop.Types.{
  Names, ToolRunner, TurnUpdate, TurnContext, LoopConfig, LoopState, Turn, stop, go_on, limit_of,
  new_assistant_error, event_of,
}
use oops.Core.Loop.Response.{with_input, emit_assistant_error_terminal, emit_message, emit_plain}
use oops.Core.Loop.Tools.{
  end_agent, emit_post_turn_hook_error, or_hook_error, emit_active_terminal_error,
}
use oops.Core.Loop.{
  prepare_with, updated, prepare, poll_steering, finish_turn, turn_context, ask_stop, stop_or_poll,
  or_runner,
}
use oops.Core.Loop.Journal.{ended, Ended, emit-silent, finish_message-Sent, Sent}
use oops.Core.Loop.Laws.{
  present, Sends, ToolsSend, Gives, QueueGives, UpdatesSend, IsLawful, optional-Ends,
}

module _ {W : Type 0} (c : LoopConfig W) (lawful : IsLawful c) where
  abbrev pub Goes : MessageList → ℕ → Turn W → Outside W → Type 0
  Goes b turn (stop messages) s = Ended (b ++ messages) s
  Goes b turn (go_on has_more st) s =
      Ended (b ++ st.new_messages) s
      × ToolsSend c st.tools
      × (present st.pending ≡ true)
      × (st.turn ≡ turn)
      × (st.first_turn ≡ false)
      × (ltb (limit_of c.max_turns) turn ≡ false)

  pub end_agent-Goes :
      (b messages : MessageList) (turn : ℕ) (s : Outside W)
      → Ended (b ++ messages) s
      → Ends (Goes b turn) (end_agent c messages s)
  unfolding ended
  end_agent-Goes b messages turn s h =
      after-Ends (λ _ t. Ended (b ++ messages) t) (Goes b turn) (λ _. pure (stop messages))
        (emit_plain c AgentEventType.agent_end s)
        (emit-silent c (event_of AgentEventType.agent_end AgentMessage.nil) s refl h) (λ _ t q. q)

  pub terminal-Goes :
      (names : Names) (b messages : MessageList) (text : String) (reason : StopReason) (turn : ℕ)
      (s : Outside W)
      → Ended (b ++ messages) s
      → Ends (Goes b turn) (emit_active_terminal_error c names messages text reason s)
  unfolding emit_active_terminal_error ended
  terminal-Goes names b messages text reason turn s h =
      after-Ends (Sent c (b ++ messages)) (Goes b turn) _
        (emit_assistant_error_terminal c names text reason false s)
        (finish_message-Sent c false (new_assistant_error names reason text) s h)
        (λ x t q.
          let both : Ended (b ++ (messages ++ AgentMessage.assistant x ∷ [])) t =
            q ∙ append_assoc b messages (AgentMessage.assistant x ∷ []) in
          after-Ends (λ _ u. Ended (b ++ (messages ++ AgentMessage.assistant x ∷ [])) u)
            (Goes b turn) (λ _. end_agent c (messages ++ AgentMessage.assistant x ∷ []))
            (emit_message c AgentEventType.turn_end (AgentMessage.assistant x) t)
            (emit-silent c (event_of AgentEventType.turn_end (AgentMessage.assistant x)) t refl
              both)
            (λ _ u k. end_agent-Goes b (messages ++ AgentMessage.assistant x ∷ []) turn u k))

  pub hook_error-Goes :
      (names : Names) (b messages : MessageList) (text : String) (turn : ℕ) (s : Outside W)
      → Ended (b ++ messages) s
      → Ends (Goes b turn) (emit_post_turn_hook_error c names messages text s)
  unfolding ended
  hook_error-Goes names b messages text turn s h =
      after-Ends (λ _ t. Ended (b ++ messages) t) (Goes b turn)
        (λ _. emit_active_terminal_error c names messages text StopReason.error)
        (emit_plain c AgentEventType.turn_start s)
        (emit-silent c (event_of AgentEventType.turn_start AgentMessage.nil) s refl h)
        (λ _ t k. terminal-Goes names b messages text StopReason.error turn t k)

  pub or_hook_error-Goes :
      {A : Type 0} (b : MessageList) (turn : ℕ) (st : LoopState W) (r : Result String A)
      (k : A → Action W (Turn W)) (s : Outside W)
      → Ended (b ++ st.new_messages) s
      → ((a : A) → r ≡ ok a → Ends (Goes b turn) (k a s))
      → Ends (Goes b turn) (or_hook_error c st r k s)
  or_hook_error-Goes b turn st (ok a) k s h q = q a refl
  or_hook_error-Goes b turn st (err e) k s h q =
      hook_error-Goes st.names b st.new_messages e turn s h

  -- What holds of a state between the parts of a turn.
  pub record Going (b : MessageList) (turn : ℕ) (st : LoopState W) (s : Outside W) : Type 0 where
    pub sent : Ended (b ++ st.new_messages) s
    pub tools : ToolsSend c st.tools
    pub waiting : present st.pending ≡ true
    pub turn_is : st.turn ≡ turn
    pub later : st.first_turn ≡ false
    pub within : ltb (limit_of c.max_turns) turn ≡ false

  poll_steering-Goes :
      (b : MessageList) (turn : ℕ) (st : LoopState W) (has_more : Bool) (s : Outside W)
      → Going b turn st s
      → Ends (Goes b turn) (poll_steering c st has_more s)
  poll_steering-Goes b turn st has_more s g =
      optional-Ends c Gives (Goes b turn) [] c.get_steering_messages _ s refl
        (λ f e w. subst QueueGives e lawful.steering w)
        (λ r w k.
          or_hook_error-Goes b turn st r _ (record s { world = w }) g.sent
            (λ messages q. (g.sent, g.tools, subst Gives q k, g.turn_is, g.later, g.within)))

  -- `PrepareNextTurn` leaves the new messages and the turn alone.
  abbrev pub Prepared :
      MessageList → ℕ → MessageList → Result String (LoopState W) → Outside W → Type 0
  Prepared b turn messages (ok next) s = Going b turn next s × (next.new_messages ≡ messages)
  Prepared b turn messages (err e) s = Ended (b ++ messages) s

  tools_of_update :
      (o old : Option (ToolRunner W))
      → ToolsSend c old
      → ((run : ToolRunner W) → o ≡ some run → Sends run)
      → ToolsSend c (or_runner c o old)
  tools_of_update none old h k = h
  tools_of_update (some run) old h k = k run refl

  updated-Prepared :
      (b : MessageList) (turn : ℕ) (st : LoopState W) (r : Result String (TurnUpdate W))
      (s : Outside W)
      → Going b turn st s
      → ((u : TurnUpdate W) (run : ToolRunner W) → r ≡ ok u → u.tool_runner ≡ some run → Sends run)
      → Prepared b turn st.new_messages (updated c st r) s
  updated-Prepared b turn st (err e) s g h = g.sent
  updated-Prepared b turn st (ok u) s g h = (
    record {
      sent = g.sent;
      tools = tools_of_update u.tool_runner st.tools g.tools (λ run q. h u run refl q);
      waiting = g.waiting;
      turn_is = g.turn_is;
      later = g.later;
      within = g.within;
    },
    refl,
  )

  moved_world :
      (b : MessageList) (turn : ℕ) (st : LoopState W) (s : Outside W) (w : W)
      → Going b turn st s
      → Going b turn st (record s { world = w })
  moved_world b turn st s w g = record {
    sent = g.sent;
    tools = g.tools;
    waiting = g.waiting;
    turn_is = g.turn_is;
    later = g.later;
    within = g.within;
  }

  prepare_with-Prepared :
      (o : Option (TurnContext → W → Result String (TurnUpdate W) × W)) (b : MessageList) (turn : ℕ)
      (st : LoopState W) (t : TurnContext) (s : Outside W)
      → c.prepare_next_turn ≡ o
      → Going b turn st s
      → Ends (Prepared b turn st.new_messages) (prepare_with c o st t s)
  prepare_with-Prepared none b turn st t s e g = (g, refl)
  prepare_with-Prepared (some f) b turn st t s e g =
      updated-Prepared b turn st (f t s.world).0 (record s { world = (f t s.world).1 })
        (moved_world b turn st s _ g)
        (λ u run p q. subst UpdatesSend e lawful.updates t s.world u run p q)

  or_hook_error-Prepared :
      (b : MessageList) (turn : ℕ) (st : LoopState W) (r : Result String (LoopState W))
      (k : LoopState W → Action W (Turn W)) (s : Outside W)
      → Prepared b turn st.new_messages r s
      → ((next : LoopState W) → Going b turn next s → Ends (Goes b turn) (k next s))
      → Ends (Goes b turn) (or_hook_error c st r k s)
  or_hook_error-Prepared b turn st (ok next) k s p h = h next p.0
  or_hook_error-Prepared b turn st (err e) k s p h =
      hook_error-Goes st.names b st.new_messages e turn s p

  stop_or_poll-Goes :
      (b : MessageList) (turn : ℕ) (next : LoopState W) (has_more stops : Bool) (s : Outside W)
      → Going b turn next s
      → Ends (Goes b turn) (stop_or_poll c next has_more stops s)
  stop_or_poll-Goes b turn next has_more true s g = end_agent-Goes b next.new_messages turn s g.sent
  stop_or_poll-Goes b turn next has_more false s g = poll_steering-Goes b turn next has_more s g

  ask_stop-Goes :
      (b : MessageList) (turn : ℕ) (next : LoopState W) (t : TurnContext) (has_more : Bool)
      (s : Outside W)
      → Going b turn next s
      → Ends (Goes b turn) (ask_stop c t has_more next s)
  ask_stop-Goes b turn next t has_more s g =
      optional-Ends c (λ _. Unit) (Goes b turn) false
        (with_input c (record t { context = next.context }) c.should_stop_after_turn)
        (λ q. or_hook_error c next q (stop_or_poll c next has_more)) s tt (λ _ _ _. tt)
        λ q w _.
          or_hook_error-Goes b turn next q (stop_or_poll c next has_more) (record s { world = w })
            g.sent
            λ stops _.
              stop_or_poll-Goes b turn next has_more stops (record s { world = w })
                (moved_world b turn next s w g)

  pub finish_turn-Goes :
      (b : MessageList) (turn : ℕ) (st : LoopState W) (m : AssistantMessage)
      (tool_results : List ToolResultMessage) (has_more : Bool) (s : Outside W)
      → Going b turn st s
      → Ends (Goes b turn) (finish_turn c st m tool_results has_more s)
  unfolding finish_turn
  finish_turn-Goes b turn st m tool_results has_more s g =
      after-Ends (Prepared b turn st.new_messages) (Goes b turn)
        (λ r. or_hook_error c st r (ask_stop c (turn_context c st m tool_results) has_more))
        (prepare c st (turn_context c st m tool_results) s)
        (prepare_with-Prepared c.prepare_next_turn b turn st (turn_context c st m tool_results) s
          refl g)
        λ r t p.
          or_hook_error-Prepared b turn st r
            (ask_stop c (turn_context c st m tool_results) has_more) t p
            λ next n. ask_stop-Goes b turn next (turn_context c st m tool_results) has_more t n
