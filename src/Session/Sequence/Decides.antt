-- ===== src/Session/Sequence/Decides.antt =====
-- internal/agent/runtime/session/message_sequence.go: the code against the grammar.
use oops.Prelude.{
  zero, suc, ◌⊎◌, inl, inr, List, [], ◌∷◌, ℕ, Option, none, some, ◌≡◌, ◌≢◌, ◌↔◌, refl, sym, arith,
  ok, subst, ◌∙◌,
}
use oops.Ai.Types.{MessageList}
use oops.Session.Sequence.{
  Status, Analysis, Item, Outcome, go_on, return, verdict, step_item, analyze_items,
  analyze_message_sequence, message_sequence_items, validate_message_sequence,
}
use oops.Session.Sequence.Grammar.{Parses}
use oops.Session.Sequence.Exact.{status_of, next, last, analyze_items-Sound}
use oops.Session.Sequence.Complete.{Verdict, analyze_items_complete}

never_invalid : (o : Option ℕ) → status_of o ≢ Status.invalid
never_invalid none = λ e. cc
never_invalid (some i) = λ e. cc

-- `analyzeMessageSequence` decides the grammar of message sequences: for every list of
-- messages, it answers "complete" exactly if the included messages are a sequence of messages
-- without tool calls and of units (an assistant message with tool calls, then one result for
-- each distinct call id, in any order), and "incomplete" with pending index i exactly if they
-- are such a sequence that stops short, the assistant message of index i still waiting for
-- results.
pub analyze_exact :
    (messages : MessageList) (o : Option ℕ)
    → Verdict (analyze_message_sequence messages) o ↔ Parses (message_sequence_items messages) o
unfolding analyze_message_sequence
analyze_exact messages o = (
  λ v.
      let p =
        analyze_items-Sound 0 (message_sequence_items messages)
          λ e. never_invalid o (sym v.status ∙ e) in
      subst (Parses (message_sequence_items messages)) v.pending p.0,
  analyze_items_complete,
)

-- Whatever is not complete comes with an error.
step_error :
    (item : Item) (rest : List Item) (a : Analysis)
    → step_item item rest ≡ return a
    → verdict a ≢ ok tt
unfolding step_item
step_error item rest a h v = ground arith

Outcome-cases : (o : Outcome) → ((n : ℕ) × (o ≡ go_on n)) ⊎ ((a : Analysis) × (o ≡ return a))
Outcome-cases (go_on n) = inl (n, refl)
Outcome-cases (return a) = inr (a, refl)

verdict-complete : (a : Analysis) → a.status ≡ Status.complete → verdict a ≡ ok tt
verdict-complete a h = ground arith

no_pending : {o : Option ℕ} → status_of o ≡ Status.complete → o ≡ none
no_pending {o} h = ground arith

complete_of_ok :
    (k : ℕ) (items : List Item)
    → verdict (analyze_items k items) ≡ ok tt
    → (analyze_items k items).status ≡ Status.complete
unfolding analyze_items
complete_of_ok k [] v = refl
complete_of_ok (suc k) (item ∷ rest) v = complete_of_ok k rest v
complete_of_ok zero (item ∷ rest) v = elim (Outcome-cases (step_item item rest)) [
  | inl (n, e) ↦
      rw (next item rest e)
        (complete_of_ok n rest (subst (λ a. verdict a ≡ ok tt) (next item rest e) v))
  | inr (a, e) ↦
      absurd (step_error item rest a e (subst (λ x. verdict x ≡ ok tt) (last item rest e) v))
]

-- `validateMessageSequence` returns no error exactly if the included messages are a well-formed
-- sequence: messages without tool calls and units of an assistant message and one result for
-- each of its call ids.
pub validate_iff_parses :
    (messages : MessageList)
    → (validate_message_sequence messages ≡ ok tt) ↔ Parses (message_sequence_items messages) none
unfolding validate_message_sequence
validate_iff_parses messages = (
  λ h.
      let complete = complete_of_ok 0 (message_sequence_items messages) h in
      let (p, status) =
        analyze_items-Sound 0 (message_sequence_items messages) λ invalid. cc (complete, invalid) in
      let none_pending : (analyze_items 0 (message_sequence_items messages)).pending_assistant_index
          ≡ none =
        no_pending (sym status ∙ complete) in
      rw (← none_pending) p,
  λ p.
      verdict-complete (analyze_items 0 (message_sequence_items messages))
        (analyze_items_complete p).status,
)
