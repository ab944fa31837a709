-- ===== src/Core/Loop/Laws.antt =====
-- internal/agent/core/agent_loop.go: what the proofs ask of the callbacks.
use oops.Prelude.{
  String, Option, none, some, List, [], ◌∷◌, ◌++◌, Bool, true, not, ◌&&◌, ◌≡◌, refl, Result, ok,
  err,
}
use oops.Ai.Types.{MessageList, ToolCallContent, is_nil}
use oops.Core.Agent.{AgentEvent}
use oops.Core.Loop.Effects.{Outside, Action, Ends, ◌>>=◌}
use oops.Core.Loop.Types.{
  Streaming, Names, ToolRunner, TurnUpdate, TurnContext, LoopConfig, as_messages,
}
use oops.Core.Loop.Response.{optional}
use oops.Core.Loop.Journal.{ended, StreamCloses}

abbrev pub present : MessageList → Bool
present [] = true
present (m ∷ rest) = not (is_nil m) && present rest

-- A tool runner returns the messages that it has sent.
abbrev pub Sends : {W : Type 0} → ToolRunner W → Type 0
Sends {W} run =
    (context : MessageList) (calls : List ToolCallContent) (s : Outside W)
    → ended (run context calls s).1.log
      ≡ ended s.log ++ as_messages (run context calls s).0.0.messages

-- Where no runner is set, every call gets an error result; for that case the sink must not fail.
abbrev pub Quiet : {W : Type 0} → LoopConfig W → Type 0
Quiet {W} c = (e : AgentEvent) (w : W) → (c.sink e w).0 ≡ none

abbrev pub ToolsSend : {W : Type 0} → LoopConfig W → Option (ToolRunner W) → Type 0
ToolsSend c none = Quiet c
ToolsSend c (some run) = Sends run

abbrev pub Gives : Result String MessageList → Type 0
Gives (ok messages) = present messages ≡ true
Gives (err e) = Unit

abbrev pub StreamsClose : {W : Type 0} → Option (Names → MessageList → W → Streaming × W) → Type 0
StreamsClose none = Unit
StreamsClose {W} (some f) =
    (names : Names) (messages : MessageList) (w : W) → StreamCloses (f names messages w).0

abbrev pub QueueGives : {W : Type 0} → Option (W → Result String MessageList × W) → Type 0
QueueGives none = Unit
QueueGives {W} (some f) = (w : W) → Gives (f w).0

abbrev pub UpdatesSend :
    {W : Type 0} → Option (TurnContext → W → Result String (TurnUpdate W) × W) → Type 0
UpdatesSend none = Unit
UpdatesSend {W} (some f) =
    (t : TurnContext) (w : W) (u : TurnUpdate W) (run : ToolRunner W)
    → (f t w).0 ≡ ok u
    → u.tool_runner ≡ some run
    → Sends run

-- What the callbacks are asked for: streams close, queues give no nil message, and a runner that an
-- update brings returns the messages that it has sent.
pub record IsLawful {W : Type 0} (c : LoopConfig W) : Type 0 where
  pub streams : StreamsClose c.stream
  pub steering : QueueGives c.get_steering_messages
  pub follow_up : QueueGives c.get_follow_up_messages
  pub updates : UpdatesSend c.prepare_next_turn

-- A callback that may be nil changes no log.
pub optional-Ends :
    {W A B : Type 0} (c : LoopConfig W) (P : Result String A → Type 0) (Q : B → Outside W → Type 0)
    (a : A) (f : Option (W → Result String A × W)) (k : Result String A → Action W B)
    (s : Outside W)
    → P (ok a)
    → ((g : W → Result String A × W) → f ≡ some g → (w : W) → P (g w).0)
    → ((r : Result String A) (w : W) → P r → Ends Q (k r (record s { world = w })))
    → Ends Q ((optional c a f >>= k) s)
optional-Ends c P Q a none k s p q h = h (ok a) s.world p
optional-Ends c P Q a (some g) k s p q h = h (g s.world).0 (g s.world).1 (q g refl s.world)
