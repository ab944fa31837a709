-- ===== src/Session/Sequence/Complete.antt =====
-- internal/agent/runtime/session/message_sequence.go: from a parse to the verdict of the code.
use oops.Prelude.{
  ℕ, ◌<◌, String, Option, none, some, List, [], ◌∷◌, ◌++◌, Bool, true, false, ◌≡◌, ◌≢◌, refl, sym,
  ap, ◌∙◌, length, arith, ◌==◌, subst,
}
use mathlib.Core.List.{append-nil}
use oops.Ai.Types.{AgentMessage, as_tool_result_message}
use oops.Session.Sequence.{
  Item, Analysis, stopped, scan, go_on, return, after_scan, step_item, incomplete_message_sequence,
  analyze_items,
}
use oops.Session.Sequence.Grammar.{result_id, called, Answers, Parses, done, plain, unit, pending}
use oops.Session.Sequence.Scanning.{fresh-nil, scan-results}
use oops.Session.Sequence.Exact.{
  analyze_items-skip, drop-append, step_plain, step_calls, status_of, next, last,
}

-- The verdict that a parse calls for.
pub record Verdict (a : Analysis) (o : Option ℕ) : Type 0 where
  pub status : a.status ≡ status_of o
  pub pending : a.pending_assistant_index ≡ o

scan_other :
    (expected seen : List String) (read : ℕ) (item : Item) (rest : List Item)
    → as_tool_result_message item.message ≡ none
    → scan expected seen read (item ∷ rest) ≡ stopped seen read false
unfolding scan
scan_other expected seen read item rest h = ground arith

not_result : (m : AgentMessage) → result_id m ≡ none → as_tool_result_message m ≡ none
not_result m h = ground arith

caller_no_result : (m : AgentMessage) → called m ≢ [] → as_tool_result_message m ≡ none
caller_no_result (AgentMessage.assistant m) h = refl
caller_no_result (AgentMessage.user m) h = absurd (h refl)
caller_no_result (AgentMessage.tool_result m) h = absurd (h refl)
caller_no_result AgentMessage.nil h = absurd (h refl)

-- A scan stops at the beginning of any parsed list.
scan_end :
    (expected seen : List String) (read : ℕ) {items : List Item} {o : Option ℕ}
    → Parses items o
    → (at_end : Bool) × (scan expected seen read items ≡ stopped seen read at_end)
scan_end expected seen read done = (true, unfold scan in refl)
scan_end expected seen read (plain item {rest} r c p) =
    (false, scan_other expected seen read item rest (not_result item.message r))
scan_end expected seen read (unit item rs ids {rest} calls a n p) =
    (false, scan_other expected seen read item (rs ++ rest) (caller_no_result item.message calls))
scan_end expected seen read (pending item rs ids a n) =
    let calls : called item.message ≢ [] = λ e. absurd (omega (arith, n, ap length e)) in
    (false, scan_other expected seen read item rs (caller_no_result item.message calls))

-- The inner loop behind an assistant message, at results that answer its calls.
module _ (item : Item) (rs rest : List Item) (ids : List String) where
  stops :
      (id : String) (cs : List String)
      → Answers (id ∷ cs) rs ids
      → ((seen : List String)
          → (at_end : Bool) × (scan (id ∷ cs) seen (length rs) rest
              ≡ stopped seen (length rs) at_end))
      → (seen : List String) × (at_end : Bool) × (scan (id ∷ cs) [] 0 (rs ++ rest)
          ≡ stopped seen (length rs) at_end)
        × (length seen ≡ length ids)
  stops id cs a end =
      let t =
        scan-results (id ∷ cs) [] 0 (length rs) rs rest ids (omega arith) a.results
          (fresh-nil ids ∙ a.once) a.called_for in
      let (at_end, e) = end t.0 in (t.0, at_end, t.1 ∙ e, omega (arith, t.2))

  round_unit :
      (c : List String)
      → called item.message ≡ c
      → c ≢ []
      → Answers c rs ids
      → length ids ≡ length c
      → ((expected seen : List String)
          → (at_end : Bool) × (scan expected seen (length rs) rest
              ≡ stopped seen (length rs) at_end))
      → step_item item (rs ++ rest) ≡ go_on (length rs)
  round_unit [] ec calls a n end = absurd (calls refl)
  round_unit (id ∷ cs) ec calls a n end =
      let (seen, at_end, t, count) = stops id cs a (end (id ∷ cs)) in
      let full : (length seen == length (id ∷ cs)) ≡ true = ground (arith, count, n) in
      step_calls item (rs ++ rest) id cs ec ∙ ap (after_scan item.index (id ∷ cs)) t ∙ rw full

round_pending :
    (item : Item) (rs : List Item) (ids c : List String)
    → called item.message ≡ c
    → Answers c rs ids
    → length ids < length c
    → (a : Analysis) × (step_item item rs ≡ return a) × Verdict a (some item.index)
round_pending item rs ids [] ec a n = absurd (omega arith)
round_pending item rs ids (id ∷ cs) ec a n =
    let t =
      scan-results (id ∷ cs) [] 0 (length rs) rs [] ids (omega arith) a.results
        (fresh-nil ids ∙ a.once) a.called_for in
    let scanned : scan (id ∷ cs) [] 0 rs ≡ stopped t.0 (length rs) true =
      ap (scan (id ∷ cs) [] 0) (sym (append-nil rs)) ∙ t.1 ∙ (unfold scan in refl) in
    let short : (length t.0 == length (id ∷ cs)) ≡ false = ground (arith, t.2, n) in
    (
      incomplete_message_sequence item.index (length (id ∷ cs)) (length t.0),
      step_calls item rs id cs ec ∙ ap (after_scan item.index (id ∷ cs)) scanned ∙ rw short,
      record { status = refl; pending = refl },
    )

pub analyze_items_complete :
    {items : List Item} {o : Option ℕ} → Parses items o → Verdict (analyze_items 0 items) o
analyze_items_complete done = unfold analyze_items in record { status = refl; pending = refl }
analyze_items_complete (plain item {rest} r c p) =
    rw (next item rest {n = 0} (step_plain item rest r c)) (analyze_items_complete p)
analyze_items_complete (unit item rs ids {rest} {o} calls a n p) =
    let round =
      round_unit item rs rest ids (called item.message) refl calls a n
        (λ expected seen. scan_end expected seen (length rs) p) in
    rw (next item (rs ++ rest) {n = length rs} round) (
      subst (λ x. Verdict x o)
        (sym (
          analyze_items-skip (length rs) (rs ++ rest) ∙ ap (analyze_items 0) (drop-append rs rest)))
        (analyze_items_complete p))
analyze_items_complete (pending item rs ids a n) =
    let (x, e, v) = round_pending item rs ids (called item.message) refl a n in
    rw (last item rs {a = x} e) v
