-- ===== src/Core/Loop/Missing.antt =====
-- internal/agent/core/tool_missing.go: proofs on the results where no tool runner is set.
use oops.Prelude.{
  String, Option, none, some, List, [], ◌∷◌, ◌++◌, ◌≡◌, refl, sym, ap, ◌∙◌, subst, Result, ok, err,
}
use mathlib.Core.List.{append_assoc, append-nil}
use oops.Ai.Types.{AgentMessage, MessageList, ToolResultMessage, ToolCallContent}
use oops.Core.Agent.{AgentEvent, AgentEventType}
use oops.Core.Loop.Effects.{LoopError, Outside, Action, after}
use oops.Core.Loop.Types.{ToolRunner, LoopConfig, event_of, call_event, as_messages}
use oops.Core.Loop.Response.{emit, emit_message, emit_both, answered}
use oops.Core.Loop.Tools.{missing_messages, missing_runner, missing_result, ran, runner_of}
use oops.Core.Loop.Journal.{ended, Ended, ended-append}
use oops.Core.Loop.Laws.{Sends, Quiet, ToolsSend}

-- A call returns, and its value meets `P`.
abbrev Returns : {W A : Type 0} → (A → Outside W → Type 0) → Result LoopError A × Outside W → Type 0
Returns P (ok a, s) = P a s
Returns P (err e, s) = ⊥

after-Returns :
    {W A B : Type 0} (P : A → Outside W → Type 0) (Q : B → Outside W → Type 0) (f : A → Action W B)
    (r : Result LoopError A × Outside W)
    → Returns P r
    → ((a : A) (s : Outside W) → P a s → Returns Q (f a s))
    → Returns Q (after f r)
after-Returns P Q f (ok a, s) h k = k a s h
after-Returns P Q f (err e, s) h k = elim h [ ]

module _ {W : Type 0} (c : LoopConfig W) (quiet : Quiet c) where
  answered-Returns :
      (a : Option String × W) (log : List AgentEvent) {l : MessageList}
      → a.0 ≡ none
      → ended log ≡ l
      → Returns (λ _ t. Ended l t) (answered c a log)
  answered-Returns (none, w) log e h = h
  answered-Returns (some x, w) log e h = cc

  emit-Returns :
      (e : AgentEvent) {l : MessageList} (s : Outside W)
      → Ended l s
      → Returns (λ _ t. Ended (l ++ ended (e ∷ [])) t) (emit c e s)
  unfolding emit
  emit-Returns e {l} s h =
      answered-Returns (c.sink e s.world) (s.log ++ e ∷ []) (quiet e s.world)
        (ended-append s.log (e ∷ []) ∙ ap (λ x. x ++ ended (e ∷ [])) h)

  silent-Returns :
      (e : AgentEvent) {l : MessageList} (s : Outside W)
      → ended (e ∷ []) ≡ []
      → Ended l s
      → Returns (λ _ t. Ended l t) (emit c e s)
  silent-Returns e {l} s n h =
      subst (λ x. Returns (λ _ t. Ended x t) (emit c e s)) (ap (λ x. l ++ x) n ∙ append-nil l)
        (emit-Returns e s h)

  -- What one missing result sends.
  missing_result-Returns :
      (call : ToolCallContent) {l : MessageList} (s : Outside W)
      → Ended l s
      → Returns
          (λ _ t. Ended (l ++ AgentMessage.tool_result (missing_result c call) ∷ []) t)
          (emit_both c (AgentMessage.tool_result (missing_result c call)) s)
  unfolding ended
  missing_result-Returns call {l} s h =
      after-Returns (λ _ t. Ended l t)
        (λ _ t. Ended (l ++ AgentMessage.tool_result (missing_result c call) ∷ []) t) _
        (emit_message c AgentEventType.message_start
          (AgentMessage.tool_result (missing_result c call)) s)
        (silent-Returns
          (event_of AgentEventType.message_start (AgentMessage.tool_result (missing_result c call)))
          s refl h)
        (λ _ t k.
          emit-Returns
            (event_of AgentEventType.message_end (AgentMessage.tool_result (missing_result c call)))
            t k)

  missing_messages-Returns :
      (calls : List ToolCallContent) {l : MessageList} (s : Outside W)
      → Ended l s
      → Returns (λ messages t. Ended (l ++ as_messages messages) t) (missing_messages c calls s)
  unfolding missing_messages ended
  missing_messages-Returns [] {l} s h = h ∙ sym (append-nil l)
  missing_messages-Returns (call ∷ rest) {l} s h =
      after-Returns (λ _ t. Ended l t) (λ messages t. Ended (l ++ as_messages messages) t) _
        (emit c (call_event AgentEventType.tool_execution_start call.id) s)
        (silent-Returns (call_event AgentEventType.tool_execution_start call.id) s refl h)
        λ _ t p.
          after-Returns (λ _ t. Ended l t) (λ messages t. Ended (l ++ as_messages messages) t) _
            (emit c (call_event AgentEventType.tool_execution_end call.id) t)
            (silent-Returns (call_event AgentEventType.tool_execution_end call.id) t refl p)
            λ _ u q.
              after-Returns
                (λ _ t. Ended (l ++ AgentMessage.tool_result (missing_result c call) ∷ []) t)
                (λ messages t. Ended (l ++ as_messages messages) t) _
                (emit_both c (AgentMessage.tool_result (missing_result c call)) u)
                (missing_result-Returns call u q)
                λ _ v k.
                  after-Returns
                    (λ messages t.
                      Ended
                        ((l ++ AgentMessage.tool_result (missing_result c call) ∷ [])
                          ++ as_messages messages)
                        t)
                    (λ messages t. Ended (l ++ as_messages messages) t) _
                    (missing_messages c rest v) (missing_messages-Returns rest v k)
                    λ others w z.
                      z
                      ∙ append_assoc l (AgentMessage.tool_result (missing_result c call) ∷ [])
                          (as_messages others)

  ran-Sends :
      (r : Result LoopError (List ToolResultMessage) × Outside W) (l : MessageList)
      → Returns (λ messages t. Ended (l ++ as_messages messages) t) r
      → ended (ran c r).1.log ≡ l ++ as_messages (ran c r).0.0.messages
  ran-Sends (ok messages, s) l h = h
  ran-Sends (err e, s) l h = elim h [ ]

  missing_runner-Sends : Sends (missing_runner c)
  unfolding missing_runner
  missing_runner-Sends context calls s =
      ran-Sends (missing_messages c calls s) (ended s.log) (missing_messages-Returns calls s refl)

pub runner_of-Sends :
    {W : Type 0} (c : LoopConfig W) (o : Option (ToolRunner W))
    → ToolsSend c o
    → Sends (runner_of c o)
runner_of-Sends c none h = missing_runner-Sends c h
runner_of-Sends c (some run) h = h
