-- ===== src/Core/Loop/Whole.antt =====
-- internal/agent/core/agent_loop.go: proofs on whole runs of the loop, on the messages that they send
-- and return.
use oops.Prelude.{
  ℕ, zero, suc, ◌+◌, ◌≤◌, String, Option, [], ◌∷◌, ◌++◌, true, false, ◌≡◌, inl, inr, refl, sym, ◌∙◌,
  subst, arith, ltb, Bool-cases, Result, ok, err,
}
use mathlib.Core.List.{append_assoc, append-nil}
use oops.Ai.Types.{AgentMessage, MessageList}
use oops.Core.Agent.{AgentEventType}
use oops.Core.Loop.Effects.{LoopError, Outside, Action, after, Ends, after-Ends}
use oops.Core.Loop.Types.{
  Names, ToolRunner, LoopConfig, LoopState, Turn, stop, go_on, limit_of, event_of,
}
use oops.Core.Loop.Response.{emit_plain, emit_both}
use oops.Core.Loop.Tools.{end_agent, emit_post_turn_hook_error}
use oops.Core.Loop.{
  run_turn, loop, run_loop, emit_prompts, goes_on, follow, followed, polled, fuel_of, next_turn,
  stop_messages, loop_state, begin_agent,
}
use oops.Core.Loop.Journal.{ended, Ended, emit-silent, emit_both-Ended}
use oops.Core.Loop.Laws.{present, ToolsSend, IsLawful, Gives, QueueGives, optional-Ends}
use oops.Core.Loop.Hooks.{end_agent-Goes, hook_error-Goes, Goes}
use oops.Core.Loop.Turns.{Waiting, upcoming, run_turn-Goes}

next_enough :
    (fuel turn limit next : ℕ)
    → turn ≤ limit + 1
    → limit + 2 ≤ turn + suc fuel
    → ltb limit turn ≡ false
    → next ≡ turn + 1
    → (next ≤ limit + 1) × (limit + 2 ≤ next + fuel)
next_enough fuel turn limit next h k e n = (ground (arith, h, k, e, n), ground (arith, h, k, e, n))

first_enough : (limit turn : ℕ) → turn ≡ 1 → (turn ≤ limit + 1) × (limit + 2 ≤ turn + suc limit)
first_enough limit turn n = (omega (arith, n), omega (arith, n))

module _ {W : Type 0} (c : LoopConfig W) (lawful : IsLawful c) where
  -- The fuel is enough for the turns up to the limit and one more.
  abbrev Enough : ℕ → ℕ → Type 0
  Enough fuel turn = (turn ≤ limit_of c.max_turns + 1) × (limit_of c.max_turns + 2 ≤ turn + fuel)

  abbrev pub Whole : MessageList → MessageList → Outside W → Type 0
  Whole b messages s = Ended (b ++ messages) s

  enough :
      (fuel turn : ℕ) (st : LoopState W)
      → Enough (suc fuel) turn
      → st.turn ≡ turn
      → st.first_turn ≡ false
      → ltb (limit_of c.max_turns) turn ≡ false
      → Enough fuel (upcoming c lawful st)
  enough fuel turn st n p q k =
      next_enough fuel turn (limit_of c.max_turns) (upcoming c lawful st) n.0 n.1 k
        (simp (p, q) refl)

  stop_messages-Whole :
      (b : MessageList) (turn : ℕ) (x : Turn W) (s : Outside W)
      → Goes c lawful b turn x s
      → Ends (Whole b) (stop_messages c x s)
  stop_messages-Whole b turn (stop messages) s g = g
  stop_messages-Whole b turn (go_on has_more st) s g = g.0

  stopped-Whole :
      (b : MessageList) (turn : ℕ) (r : Result LoopError (Turn W) × Outside W)
      → Ends (Goes c lawful b turn) r
      → Ends (Whole b) (after (stop_messages c) r)
  stopped-Whole b turn r h =
      after-Ends (Goes c lawful b turn) (Whole b) (stop_messages c) r h
        (λ x s k. stop_messages-Whole b turn x s k)

  abbrev Runs : MessageList → ℕ → (LoopState W → Action W MessageList) → Type 0
  Runs b fuel next =
      (st : LoopState W) (s : Outside W)
      → Waiting c lawful b st s
      → Enough fuel (upcoming c lawful st)
      → Ends (Whole b) (next st s)

  followed-Whole :
      (b : MessageList) (fuel : ℕ) (next : LoopState W → Action W MessageList) (st : LoopState W)
      (r : Result String MessageList) (s : Outside W)
      → Runs b fuel next
      → Waiting c lawful b st s
      → Enough fuel (upcoming c lawful st)
      → Gives r
      → Ends (Whole b) (followed c next st r s)
  followed-Whole b fuel next st (err e) s k g n h =
      stopped-Whole b 0 (emit_post_turn_hook_error c st.names st.new_messages e s)
        (hook_error-Goes c lawful st.names b st.new_messages e 0 s g.sent)
  followed-Whole b fuel next st (ok []) s k g n h =
      stopped-Whole b 0 (end_agent c st.new_messages s)
        (end_agent-Goes c lawful b st.new_messages 0 s g.sent)
  followed-Whole b fuel next st (ok (m ∷ rest)) s k g n h =
      k (record st { pending = m ∷ rest }) s
        (record { sent = g.sent; tools = g.tools; waiting = h }) n

  follow-Whole :
      (b : MessageList) (fuel : ℕ) (next : LoopState W → Action W MessageList) (st : LoopState W)
      (s : Outside W)
      → Runs b fuel next
      → Waiting c lawful b st s
      → Enough fuel (upcoming c lawful st)
      → Ends (Whole b) (follow c next st s)
  follow-Whole b fuel next st s k g n =
      optional-Ends c (Gives) (Whole b) [] c.get_follow_up_messages (followed c next st) s refl
        (λ f e w. subst QueueGives e lawful.follow_up w)
        λ r w h.
          followed-Whole b fuel next st r (record s { world = w }) k
            (record { sent = g.sent; tools = g.tools; waiting = g.waiting }) n h

  next_turn-Whole :
      (b : MessageList) (fuel turn : ℕ) (next : LoopState W → Action W MessageList) (x : Turn W)
      (s : Outside W)
      → Runs b fuel next
      → Enough (suc fuel) turn
      → Goes c lawful b turn x s
      → Ends (Whole b) (next_turn c next x s)
  next_turn-Whole b fuel turn next (stop messages) s k n g = g
  next_turn-Whole b fuel turn next (go_on has_more st) s k n g =
      let now : Waiting c lawful b st s = record { sent = g.0; tools = g.1; waiting = g.2 } in
      let counts : Enough fuel (upcoming c lawful st) = enough fuel turn st n g.3 g.4 g.5 in
      elim (Bool-cases (goes_on c has_more st.pending)) [
        | inl q ↦ simp q (k st s now counts)
        | inr q ↦ simp q (follow-Whole b fuel next st s k now counts)
      ]

  loop-Whole : (b : MessageList) (fuel : ℕ) → Runs b fuel (loop c fuel)
  unfolding loop
  loop-Whole b zero st s g n = omega (arith, n.0, n.1)
  loop-Whole b (suc fuel) st s g n =
      after-Ends (Goes c lawful b (upcoming c lawful st)) (Whole b) (next_turn c (loop c fuel))
        (run_turn c st s) (run_turn-Goes c lawful b st s g)
        λ x t k.
          next_turn-Whole b fuel (upcoming c lawful st) (loop c fuel) x t (loop-Whole b fuel) n k

  polled-Whole :
      (b : MessageList) (st : LoopState W) (r : Result String MessageList) (s : Outside W)
      → Waiting c lawful b st s
      → upcoming c lawful st ≡ 1
      → Gives r
      → Ends (Whole b) (polled c st r s)
  polled-Whole b st (err e) s g n h = λ p. cc
  polled-Whole b st (ok messages) s g n h =
      loop-Whole b (fuel_of c st) (record st { pending = messages }) s
        (record { sent = g.sent; tools = g.tools; waiting = h })
        (first_enough (limit_of c.max_turns) (upcoming c lawful st) n)

  pub run_loop-Whole :
      (b : MessageList) (st : LoopState W) (s : Outside W)
      → Waiting c lawful b st s
      → upcoming c lawful st ≡ 1
      → Ends (Whole b) (run_loop c st s)
  run_loop-Whole b st s g n =
      optional-Ends c (Gives) (Whole b) [] c.get_steering_messages (polled c st) s refl
        (λ f e w. subst QueueGives e lawful.steering w)
        λ r w h.
          polled-Whole b st r (record s { world = w })
            (record { sent = g.sent; tools = g.tools; waiting = g.waiting }) n h

  pub emit_prompts-Ended :
      (l prompts : MessageList) (s : Outside W)
      → present prompts ≡ true
      → Ended l s
      → Ends (λ _ t. Ended (l ++ prompts) t) (emit_prompts c prompts s)
  unfolding emit_prompts
  emit_prompts-Ended l [] s p h = h ∙ sym (append-nil l)
  emit_prompts-Ended l (m ∷ rest) s p h =
      after-Ends (λ _ t. Ended (l ++ m ∷ []) t) (λ _ t. Ended (l ++ m ∷ rest) t)
        (λ _. emit_prompts c rest) (emit_both c m s) (emit_both-Ended c m s (ground (arith, p)) h)
        λ _ t k.
          subst (λ x. Ends (λ _ u. Ended x u) (emit_prompts c rest t))
            (append_assoc l (m ∷ []) rest)
            (emit_prompts-Ended (l ++ m ∷ []) rest t (ground (arith, p)) k)

  pub begin_agent-Ended :
      (l : MessageList) (s : Outside W) → Ended l s → Ends (λ _ t. Ended l t) (begin_agent c s)
  unfolding ended
  begin_agent-Ended l s h =
      after-Ends (λ _ t. Ended l t) (λ _ t. Ended l t) (λ _. emit_plain c AgentEventType.turn_start)
        (emit_plain c AgentEventType.agent_start s)
        (emit-silent c (event_of AgentEventType.agent_start AgentMessage.nil) s refl h)
        λ _ t k. emit-silent c (event_of AgentEventType.turn_start AgentMessage.nil) t refl k

  pub start-Waiting :
      (names : Names) (tools : Option (ToolRunner W)) (b context messages : MessageList)
      (s : Outside W)
      → ToolsSend c tools
      → Ended (b ++ messages) s
      → Waiting c lawful b (loop_state c names tools context messages) s
  start-Waiting names tools b context messages s t h = record {
    sent = h;
    tools = t;
    waiting = refl;
  }
