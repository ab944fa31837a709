-- ===== src/Core/Loop/Answers.antt =====
-- internal/agent/core/agent_assistant.go: proofs on the message that a request sends and returns.
use oops.Prelude.{
  String, Option, none, some, [], ◌∷◌, false, ◌≡◌, inl, inr, refl, subst, Option-cases, Result, ok,
  err,
}
use oops.Ai.Types.{AgentMessage, AssistantMessage, MessageList, StopReason}
use oops.Core.Agent.{AgentEventType}
use oops.Core.Loop.Effects.{Outside, Action, Ends}
use oops.Core.Loop.Types.{
  Streaming, Names, LoopConfig, refused, nil_stream, items, new_assistant_error, event_of,
}
use oops.Core.Loop.Response.{
  or_error, open_stream, open_with, request, with_input, emit_message, receive_all,
  stream_assistant_response,
}
use oops.Core.Loop.Journal.{
  ended, Ended, StreamCloses, emit-silent, finish_message-Sent, receive-Sent, Sent,
}
use oops.Core.Loop.Laws.{StreamsClose, IsLawful, optional-Ends}

module _ {W : Type 0} (c : LoopConfig W) (lawful : IsLawful c) where
  receive_all-Sent :
      (names : Names) (x : Streaming) {l : MessageList} (s : Outside W)
      → StreamCloses x
      → Ended l s
      → Ends (Sent c l) (receive_all c names x s)
  receive_all-Sent names (refused e) s k h =
      finish_message-Sent c false (new_assistant_error names StopReason.error e) s h
  receive_all-Sent names nil_stream s k h =
      finish_message-Sent c false (new_assistant_error names StopReason.error "stream returned nil")
        s h
  receive_all-Sent names (items l r) s k h = receive-Sent c names r false l s k h

  open_with-Sent :
      (o : Option (Names → MessageList → W → Streaming × W)) (names : Names)
      (messages : MessageList) {l : MessageList} (s : Outside W)
      → c.stream ≡ o
      → Ended l s
      → Ends (Sent c l) (open_with c o names messages s)
  open_with-Sent none names messages s e h = λ p. cc
  open_with-Sent (some f) names messages s e h =
      receive_all-Sent names (f names messages s.world).0
        (record s { world = (f names messages s.world).1 })
        (subst StreamsClose e lawful.streams names messages s.world) h

  open_stream-Sent :
      (names : Names) (messages : MessageList) {l : MessageList} (s : Outside W)
      → Ended l s
      → Ends (Sent c l) (open_stream c names messages s)
  open_stream-Sent names messages s h = open_with-Sent c.stream names messages s refl h

  or_error-Sent :
      {A : Type 0} (names : Names) (r : Result String A) (k : A → Action W AssistantMessage)
      {l : MessageList} (s : Outside W)
      → ((a : A) → Ends (Sent c l) (k a s))
      → Ended l s
      → Ends (Sent c l) (or_error c names r k s)
  or_error-Sent names (ok a) k s q h = q a
  or_error-Sent names (err e) k s q h =
      finish_message-Sent c false (new_assistant_error names StopReason.error e) s h

  request-Sent :
      (names : Names) (messages : MessageList) {l : MessageList} (s : Outside W)
      → Ended l s
      → Ends (Sent c l) (request c names messages s)
  request-Sent names messages {l} s h =
      optional-Ends c (λ _. Unit) (Sent c l) messages (with_input c messages c.transform_context) _
        s tt (λ _ _ _. tt)
        λ r w _.
          or_error-Sent names r _ (record s { world = w })
            (λ transformed.
              optional-Ends c (λ _. Unit) (Sent c l) transformed
                (with_input c transformed c.convert_to_llm) _ (record s { world = w }) tt
                (λ _ _ _. tt)
                λ q v _.
                  or_error-Sent names q _ (record s { world = v })
                    (λ converted. open_stream-Sent names converted (record s { world = v }) h) h)
            h

  pub stream_assistant_response-Sent :
      (names : Names) (messages : MessageList) {l : MessageList} (s : Outside W)
      → Ended l s
      → Ends (Sent c l) (stream_assistant_response c names messages s)
  unfolding stream_assistant_response
  stream_assistant_response-Sent names messages s h = elim (Option-cases (c.cancelled s.world)) [
    | inl e ↦ simp e (request-Sent names messages s h)
    | inr (text, e) ↦
        simp e (finish_message-Sent c false (new_assistant_error names StopReason.aborted text) s h)
  ]

  pub plain-Ended :
      (type : AgentEventType) (m : AgentMessage) {l : MessageList} (s : Outside W)
      → ended (event_of type m ∷ []) ≡ []
      → Ended l s
      → Ends (λ _ t. Ended l t) (emit_message c type m s)
  plain-Ended type m s n h = emit-silent c (event_of type m) s n h
