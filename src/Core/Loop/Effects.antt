-- ===== src/Core/Loop/Effects.antt =====
-- internal/agent/core: a call of the loop. It reads and changes the world outside (clock, context,
-- callbacks), sends events to the sink, and returns a value or an error; what was sent stays sent.
use oops.Prelude.{String, List, ◌≢◌, Result, ok, err}
use oops.Core.Agent.{AgentEvent}

-- `out_of_fuel` is of the model; the code has no such error.
pub data LoopError : Type 0 where
  missing_stream continue_empty_context continue_from_assistant : LoopError
  failed : String → LoopError
  out_of_fuel : LoopError

-- The events sent so far, and the rest of the world.
pub record Outside (W : Type 0) : Type 0 where
  pub log : List AgentEvent
  pub world : W

abbrev pub Action : Type 0 → Type 0 → Type 0
Action W A = Outside W → Result LoopError A × Outside W

module _ {W A : Type 0} where
  abbrev pub pure : A → Action W A
  pure a s = (ok a, s)

  abbrev pub raise : LoopError → Action W A
  raise e s = (err e, s)

  -- What comes after a call that has returned.
  abbrev pub after :
      {B : Type 0}
      → (A → Action W B)
      → Result LoopError A × Outside W
      → Result LoopError B × Outside W
  after f (ok a, s) = f a s
  after f (err e, s) = (err e, s)

infixl 5 ◌>>=◌ ◌>>◌
abbrev pub ◌>>=◌ : {W A B : Type 0} → Action W A → (A → Action W B) → Action W B
◌>>=◌ m f s = after f (m s)

abbrev pub ◌>>◌ : {W A B : Type 0} → Action W A → Action W B → Action W B
m >> k = m >>= λ _. k

-- What a call has done: its value meets `P`, or its error is one of the code's.
abbrev pub Ends :
    {W A : Type 0} → (A → Outside W → Type 0) → Result LoopError A × Outside W → Type 0
Ends P (ok a, s) = P a s
Ends P (err e, s) = e ≢ LoopError.out_of_fuel

-- The rule for `>>=`.
pub after-Ends :
    {W A B : Type 0} (P : A → Outside W → Type 0) (Q : B → Outside W → Type 0) (f : A → Action W B)
    (r : Result LoopError A × Outside W)
    → Ends P r
    → ((a : A) (s : Outside W) → P a s → Ends Q (f a s))
    → Ends Q (after f r)
after-Ends P Q f (ok a, s) h k = k a s h
after-Ends P Q f (err e, s) h k = h
