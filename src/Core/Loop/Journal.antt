-- ===== src/Core/Loop/Journal.antt =====
-- internal/agent/core/agent_loop.go: proofs on the messages that the loop returns and those that it sends.
use oops.Prelude.{
  String, Option, none, some, List, [], ◌∷◌, ◌++◌, Bool, true, false, ◌||◌, ◌≡◌, refl, ap, ◌∙◌,
  subst, arith, if◌then◌else◌,
}
use mathlib.Core.List.{append-nil}
use oops.Ai.Types.{AgentMessage, AssistantMessage, MessageList, StopReason, is_nil}
use oops.Core.Agent.{AgentEvent, AgentEventType}
use oops.Core.Loop.Effects.{Outside, pure, Ends, after-Ends, ◌>>◌}
use oops.Core.Loop.Types.{
  StreamItem, StreamResult, Streaming, Names, LoopConfig, interrupted, invalid, started, done,
  failure, update, result_error, no_message, final, items, new_assistant_error, event_of,
}
use oops.Core.Loop.Response.{
  answered, emit, emit_message, emit_both, finish_message, receive, emit_update, emit_start_unless,
}

-- The messages that have ended, in the order in which they were sent.
unfoldable pub ended : List AgentEvent → MessageList
ended [] = []
ended (e ∷ rest) =
    let others = ended rest in
    elim e.type [
      | AgentEventType.message_end ↦ if is_nil e.message then others else e.message ∷ others
      | _ ↦ others
    ]

pub ended-append : (xs ys : List AgentEvent) → ended (xs ++ ys) ≡ ended xs ++ ended ys
unfolding ended
ended-append [] ys = refl
ended-append (e ∷ xs) ys = ground (arith, ended-append xs ys)

abbrev pub Ended : {W : Type 0} → MessageList → Outside W → Type 0
Ended l s = ended s.log ≡ l

-- A stream that gives a message at its end has sent it as an item, or ended by an error item.
abbrev pub is_end : StreamItem → Bool
is_end (started m) = false
is_end (update partial) = false
is_end _ = true

unfoldable pub has_end : List StreamItem → Bool
has_end [] = false
has_end (x ∷ rest) = is_end x || has_end rest

abbrev pub Closes : StreamResult → List StreamItem → Type 0
Closes (final m) l = has_end l ≡ true
Closes _ l = Unit

abbrev pub StreamCloses : Streaming → Type 0
StreamCloses (items l r) = Closes r l
StreamCloses _ = Unit

-- An item that does not end the stream leaves that to the rest.
rest-Closes :
    (r : StreamResult) (x : StreamItem) (rest : List StreamItem)
    → is_end x ≡ false
    → Closes r (x ∷ rest)
    → Closes r rest
unfolding has_end
rest-Closes (final m) x rest n h = ground (arith, n, h)
rest-Closes (result_error text reason) x rest n h = tt
rest-Closes no_message x rest n h = tt

module _ {W : Type 0} (c : LoopConfig W) where
  pub answered-Ended :
      (a : Option String × W) (log : List AgentEvent) {l : MessageList}
      → ended log ≡ l
      → Ends (λ _ t. Ended l t) (answered c a log)
  answered-Ended (none, w) log h = h
  answered-Ended (some e, w) log h = λ p. cc

  pub emit-Ended :
      (e : AgentEvent) {l : MessageList} (s : Outside W)
      → Ended l s
      → Ends (λ _ t. Ended (l ++ ended (e ∷ [])) t) (emit c e s)
  unfolding emit
  emit-Ended e {l} s h =
      answered-Ended (c.sink e s.world) (s.log ++ e ∷ [])
        (ended-append s.log (e ∷ []) ∙ ap (λ x. x ++ ended (e ∷ [])) h)

  pub emit-silent :
      (e : AgentEvent) {l : MessageList} (s : Outside W)
      → ended (e ∷ []) ≡ []
      → Ended l s
      → Ends (λ _ t. Ended l t) (emit c e s)
  emit-silent e {l} s n h =
      subst (λ x. Ends (λ _ t. Ended x t) (emit c e s)) (ap (λ x. l ++ x) n ∙ append-nil l)
        (emit-Ended e s h)

  pub start-silent : (m : AgentMessage) → ended (event_of AgentEventType.message_start m ∷ []) ≡ []
  unfolding ended
  start-silent m = refl

  end-one :
      (m : AgentMessage)
      → is_nil m ≡ false
      → ended (event_of AgentEventType.message_end m ∷ []) ≡ m ∷ []
  unfolding ended
  end-one m h = ground arith

  pub emit_end-Ended :
      (m : AgentMessage) {l : MessageList} (s : Outside W)
      → is_nil m ≡ false
      → Ended l s
      → Ends (λ _ t. Ended (l ++ m ∷ []) t) (emit_message c AgentEventType.message_end m s)
  emit_end-Ended m {l} s n h =
      subst (λ x. Ends (λ _ t. Ended (l ++ x) t) (emit_message c AgentEventType.message_end m s))
        (end-one m n) (emit-Ended (event_of AgentEventType.message_end m) s h)

  pub emit_both-Ended :
      (m : AgentMessage) {l : MessageList} (s : Outside W)
      → is_nil m ≡ false
      → Ended l s
      → Ends (λ _ t. Ended (l ++ m ∷ []) t) (emit_both c m s)
  emit_both-Ended m {l} s n h =
      after-Ends (λ _ t. Ended l t) (λ _ t. Ended (l ++ m ∷ []) t)
        (λ _. emit_message c AgentEventType.message_end m)
        (emit_message c AgentEventType.message_start m s)
        (emit-silent (event_of AgentEventType.message_start m) s (start-silent m) h)
        (λ _ t k. emit_end-Ended m t n k)

  start_unless-Ended :
      (was_started : Bool) (m : AgentMessage) {l : MessageList} (s : Outside W)
      → Ended l s
      → Ends (λ _ t. Ended l t) (emit_start_unless c was_started m s)
  start_unless-Ended true m s h = h
  start_unless-Ended false m s h =
      emit-silent (event_of AgentEventType.message_start m) s (start-silent m) h

  -- The message that a call returns is the one that it has sent.
  abbrev pub Sent : MessageList → AssistantMessage → Outside W → Type 0
  Sent l m t = Ended (l ++ AgentMessage.assistant m ∷ []) t

  pub finish_message-Sent :
      (was_started : Bool) (m : AssistantMessage) {l : MessageList} (s : Outside W)
      → Ended l s
      → Ends (Sent l) (finish_message c was_started m s)
  unfolding finish_message
  finish_message-Sent was_started m {l} s h =
      after-Ends (λ _ t. Ended l t) (Sent l)
        (λ _. emit_message c AgentEventType.message_end (AgentMessage.assistant m) >> pure m)
        (emit_start_unless c was_started (AgentMessage.assistant m) s)
        (start_unless-Ended was_started (AgentMessage.assistant m) s h)
        (λ _ t k.
          after-Ends (λ _ u. Ended (l ++ AgentMessage.assistant m ∷ []) u) (Sent l) (λ _. pure m)
            (emit_message c AgentEventType.message_end (AgentMessage.assistant m) t)
            (emit_end-Ended (AgentMessage.assistant m) t refl k) (λ _ u q. q))

  update-Ended :
      (partial : Option AssistantMessage) {l : MessageList} (s : Outside W)
      → Ended l s
      → Ends (λ _ t. Ended l t) (emit_update c partial s)
  unfolding ended
  update-Ended none s h = h
  update-Ended (some m) s h =
      emit-silent (event_of AgentEventType.message_update (AgentMessage.assistant m)) s refl h

  pub receive-Sent :
      (names : Names) (r : StreamResult) (was_started : Bool) (l : List StreamItem)
      {b : MessageList} (s : Outside W)
      → Closes r l
      → Ended b s
      → Ends (Sent b) (receive c names r was_started l s)
  unfolding receive has_end
  receive-Sent names (result_error text reason) was_started [] s k h =
      finish_message-Sent was_started (new_assistant_error names reason text) s h
  receive-Sent names no_message was_started [] s k h =
      finish_message-Sent was_started
        (new_assistant_error names StopReason.error "stream ended without message") s h
  receive-Sent names (final m) was_started [] s k h = cc
  receive-Sent names r was_started (interrupted text ∷ rest) s k h =
      finish_message-Sent was_started (new_assistant_error names StopReason.aborted text) s h
  receive-Sent names r was_started (invalid text ∷ rest) s k h =
      finish_message-Sent was_started (new_assistant_error names StopReason.error text) s h
  receive-Sent names r was_started (done m ∷ rest) s k h = finish_message-Sent was_started m s h
  receive-Sent names r was_started (failure m reason ∷ rest) s k h =
      finish_message-Sent was_started (record m { stop_reason = reason }) s h
  receive-Sent names r was_started (started m ∷ rest) {b} s k h =
      after-Ends (λ _ t. Ended b t) (Sent b) (λ _. receive c names r true rest)
        (emit_message c AgentEventType.message_start (AgentMessage.assistant m) s)
        (emit-silent (event_of AgentEventType.message_start (AgentMessage.assistant m)) s
          (start-silent (AgentMessage.assistant m)) h)
        (λ _ t q. receive-Sent names r true rest t (rest-Closes r _ rest refl k) q)
  receive-Sent names r was_started (update partial ∷ rest) {b} s k h =
      after-Ends (λ _ t. Ended b t) (Sent b) (λ _. receive c names r was_started rest)
        (emit_update c partial s) (update-Ended partial s h)
        (λ _ t q. receive-Sent names r was_started rest t (rest-Closes r _ rest refl k) q)
