-- ===== src/Core/Queue/Fifo.antt =====
-- internal/agent/core/queue.go: the calls on a queue as a trace, and proofs on what it hands
-- out.
use oops.Prelude.{
  ℕ, [], ◌∷◌, ◌++◌, ◌≡◌, inl, inr, refl, sym, ap, ◌∙◌, ok, arith, length, ◌==◌, take-append-drop,
  Bool-cases, >>=-eq-ok, ◌≤◌, length-drop, zero, suc,
}
use mathlib.Core.List.{append_assoc, append-nil}
use oops.Ai.Types.{Stdlib, MessageList}
use oops.Core.Queue.{
  MessageQueue, QueueMode, clone_validated_messages, enqueue, drain, drain_count, take_all,
  set_mode,
}

-- The calls on one queue, with the messages put in and handed out so far.
pub data Trace (std : Stdlib) (q : MessageQueue)
    : (put got : MessageList) → MessageQueue → Type 0 where
  start : Trace std q [] [] q
  enqueued :
      {put got : MessageList} {p p' : MessageQueue} (messages : MessageList)
      → Trace std q put got p
      → enqueue std p messages ≡ ok p'
      → Trace std q (put ++ messages) got p'
  drained :
      {put got : MessageList} {p : MessageQueue}
      → Trace std q put got p
      → Trace std q put (got ++ (drain p).0) (drain p).1
  taken :
      {put got : MessageList} {p : MessageQueue}
      → Trace std q put got p
      → Trace std q put (got ++ (take_all p).0) (take_all p).1
  moded :
      {put got : MessageList} {p p' : MessageQueue} (mode : QueueMode)
      → Trace std q put got p
      → set_mode p mode ≡ ok p'
      → Trace std q put got p'

-- Validation copies the messages.
clone_same :
    (std : Stdlib) (messages : MessageList) {r : MessageList}
    → clone_validated_messages std messages ≡ ok r
    → r ≡ messages
unfolding clone_validated_messages
clone_same std [] h = cc
clone_same std (message ∷ rest) {r} h =
    let (l, c, e) : (l : MessageList) × (clone_validated_messages std rest ≡ ok l)
        × (r ≡ message ∷ l) =
      ground arith in
    e ∙ ap (λ x. message ∷ x) (clone_same std rest c)

enqueue_appends :
    (std : Stdlib) (q : MessageQueue) (messages : MessageList) {r : MessageQueue}
    → enqueue std q messages ≡ ok r
    → r.messages ≡ q.messages ++ messages
unfolding enqueue
enqueue_appends std q messages {r} h =
    let (l, c, rest) = >>=-eq-ok (clone_validated_messages std messages) _ h in
    let at : r.messages ≡ q.messages ++ l = ground (arith, rest) in
    at ∙ ap (λ x. q.messages ++ x) (clone_same std messages c)

pub drain_splits : (q : MessageQueue) → (drain q).0 ++ (drain q).1.messages ≡ q.messages
unfolding drain
drain_splits q = elim (Bool-cases (length q.messages == 0)) [
  | inl e ↦ rw e refl
  | inr e ↦ rw e (take-append-drop (drain_count q) q.messages)
]

-- Over any sequence of enqueues, drains, takes and mode changes, the messages that were there
-- and those enqueued since are, in order, those handed out and those still in the queue: none
-- is lost, doubled or reordered.
pub Trace-in_order :
    (std : Stdlib) (q : MessageQueue) {put got : MessageList} {p : MessageQueue}
    → Trace std q put got p
    → q.messages ++ put ≡ got ++ p.messages
Trace-in_order std q start = append-nil q.messages
Trace-in_order std q (enqueued {put} {got} {p} {p'} messages t h) =
    sym (append_assoc q.messages put messages)
    ∙ ap (λ l. l ++ messages) (Trace-in_order std q t)
    ∙ append_assoc got p.messages messages
    ∙ ap (λ l. got ++ l) (sym (enqueue_appends std p messages h))
Trace-in_order std q (drained {put} {got} {p} t) =
    Trace-in_order std q t
    ∙ ap (λ l. got ++ l) (sym (drain_splits p))
    ∙ sym (append_assoc got (drain p).0 (drain p).1.messages)
Trace-in_order std q (taken {put} {got} {p} t) =
    Trace-in_order std q t ∙ sym (append-nil (got ++ p.messages))
Trace-in_order std q (moded {put} {got} {p} {p'} mode t h) =
    let same : p'.messages ≡ p.messages = unfold set_mode in ground arith in
    Trace-in_order std q t ∙ ap (λ l. got ++ l) (sym same)

-- All that `n` drains hand out.
unfoldable pub drains : ℕ → MessageQueue → MessageList
drains zero q = []
drains (suc n) q = (drain q).0 ++ drains n (drain q).1

drain_some :
    (q : MessageQueue) (n : ℕ) → length q.messages ≤ suc n → length (drain q).1.messages ≤ n
unfolding drain
drain_some q n h = elim (Bool-cases (length q.messages == 0)) [
  | inl e ↦ rw e (ground arith)
  | inr e ↦ rw e (ground (arith, length-drop (drain_count q) q.messages))
]

-- In either mode, as many drains as a queue has messages, or more, hand out all its messages in
-- order.
pub drains_all : (n : ℕ) (q : MessageQueue) → length q.messages ≤ n → drains n q ≡ q.messages
unfolding drains
drains_all zero q h = ground arith
drains_all (suc n) q h =
    ap (λ l. (drain q).0 ++ l) (drains_all n (drain q).1 (drain_some q n h)) ∙ drain_splits q
