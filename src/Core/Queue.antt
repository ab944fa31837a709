-- ===== src/Core/Queue.antt =====
-- internal/agent/core/queue.go: the messages that wait for an agent. `cloneMessages` is the identity
-- on values.
pub mod Fifo
use oops.Prelude.{
  ℕ, zero, String, List, [], ◌∷◌, ◌++◌, Bool, true, false, not, length, take, drop, ◌==◌,
  if◌then◌else◌, Result, ok, err, ◌>>=◌, ◌>>◌, fail_if,
}
use oops.Ai.Types.{Stdlib, AgentMessage, MessageList, is_nil}
use oops.Ai.Validate
use oops.Ai.Validate.{validate_message}

pub data QueueMode : Type 0 where
  unset one_at_a_time all : QueueMode
  other : String → QueueMode

pub data Error : Type 0 where
  busy continue_empty_context continue_from_assistant : Error
  nil_message : Error
  invalid_message : Validate.Error → Error
  messages_required : Error
  unknown_queue_mode : String → Error

pub record MessageQueue : Type 0 where
  pub mode : QueueMode
  pub messages : MessageList

abbrev pub normalize_queue_mode : QueueMode → QueueMode
normalize_queue_mode QueueMode.all = QueueMode.all
normalize_queue_mode _ = QueueMode.one_at_a_time

abbrev pub validate_queue_mode : QueueMode → Result Error (Unit {0})
validate_queue_mode (QueueMode.other mode) = err (unknown_queue_mode mode)
validate_queue_mode _ = ok tt

abbrev pub new_message_queue : QueueMode → MessageQueue
new_message_queue mode = record { mode = normalize_queue_mode mode; messages = [] }

abbrev pub lift_validate : Result Validate.Error (Unit {0}) → Result Error (Unit {0})
lift_validate (ok a) = ok a
lift_validate (err e) = err (invalid_message e)

module _ (std : Stdlib) where
  unfoldable pub clone_validated_messages : MessageList → Result Error MessageList
  clone_validated_messages [] = ok []
  clone_validated_messages (message ∷ rest) = do
    fail_if (is_nil message) nil_message
    lift_validate (validate_message std message)
    cloned ← clone_validated_messages rest
    ok (message ∷ cloned)

  unfoldable pub enqueue : MessageQueue → MessageList → Result Error MessageQueue
  enqueue q messages = do
    validated ← clone_validated_messages messages
    fail_if (length validated == 0) messages_required
    ok (record q { messages = q.messages ++ validated })

-- How many messages a `drain` of a queue takes.
abbrev pub drain_count : MessageQueue → ℕ
drain_count q = elim (normalize_queue_mode q.mode) [
  | QueueMode.one_at_a_time ↦ 1
  | _ ↦ length q.messages
]

-- The messages drained, and the queue after that.
unfoldable pub drain : MessageQueue → MessageList × MessageQueue
drain q =
    if length q.messages == 0
    then ([], q)
    else (take (drain_count q) q.messages, record q { messages = drop (drain_count q) q.messages })

abbrev pub clear : MessageQueue → MessageQueue
clear q = record q { messages = [] }

abbrev pub take_all : MessageQueue → MessageList × MessageQueue
take_all q = (q.messages, clear q)

abbrev pub has_items : MessageQueue → Bool
has_items q = not (length q.messages == 0)

unfoldable pub set_mode : MessageQueue → QueueMode → Result Error MessageQueue
set_mode q mode = do validate_queue_mode mode; ok (record q { mode = normalize_queue_mode mode })
