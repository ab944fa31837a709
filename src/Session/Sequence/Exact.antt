-- ===== src/Session/Sequence/Exact.antt =====
-- internal/agent/runtime/session/message_sequence.go: from the verdict of the code to a parse.
use oops.Prelude.{
  ℕ, zero, suc, ◌<◌, String, Option, none, some, List, [], ◌∷◌, ◌++◌, Bool, true, ◌≡◌, ◌≢◌, refl,
  sym, ap, ◌∙◌, length, drop, ◌≤◌, Bool-cases, pigeonhole, distinct, arith, inl, inr, ◌==◌, subst,
}
use mathlib.Core.List.{append-nil}
use oops.Session.Sequence.{
  Status, Item, Analysis, SequenceError, Scan, failed, stopped, scan, Outcome, go_on, return,
  after_scan, step_item, invalid_message_sequence, no_preceding_call, incomplete_message_sequence,
  missing_results, analyze_items,
}
use oops.Session.Sequence.Grammar.{result_id, called, Answers, Parses, done, plain, unit, pending}
use oops.Session.Sequence.Scanning.{fresh-nil, Reads, scan-Reads}

pub analyze_items-skip :
    (k : ℕ) (items : List Item) → analyze_items k items ≡ analyze_items 0 (drop k items)
unfolding analyze_items
analyze_items-skip zero items = refl
analyze_items-skip (suc k) [] = refl
analyze_items-skip (suc k) (item ∷ rest) = analyze_items-skip k rest

pub drop-append : (rs rest : List Item) → drop (length rs) (rs ++ rest) ≡ rest
drop-append [] rest = refl
drop-append (r ∷ rs) rest = drop-append rs rest

-- What one round of the outer loop does at each kind of message.
pub step_plain :
    (item : Item) (rest : List Item)
    → result_id item.message ≡ none
    → called item.message ≡ []
    → step_item item rest ≡ go_on 0
unfolding step_item
step_plain item rest r c = ground arith

pub step_calls :
    (item : Item) (rest : List Item) (id : String) (ids : List String)
    → called item.message ≡ id ∷ ids
    → step_item item rest ≡ after_scan item.index (id ∷ ids) (scan (id ∷ ids) [] 0 rest)
unfolding step_item
step_calls item rest id ids c = ground arith

pub step_result :
    (item : Item) (rest : List Item) (id : String)
    → result_id item.message ≡ some id
    → step_item item rest ≡ return (invalid_message_sequence (no_preceding_call id))
unfolding step_item
step_result item rest id r = ground arith

-- One round, in the three ways it can end.
pub next :
    (item : Item) (rest : List Item) {n : ℕ}
    → step_item item rest ≡ go_on n
    → analyze_items 0 (item ∷ rest) ≡ analyze_items n rest
unfolding analyze_items
next item rest h = ground arith

pub last :
    (item : Item) (rest : List Item) {a : Analysis}
    → step_item item rest ≡ return a
    → analyze_items 0 (item ∷ rest) ≡ a
unfolding analyze_items
last item rest h = ground arith

abbrev pub status_of : Option ℕ → Status
status_of none = Status.complete
status_of (some i) = Status.incomplete

-- Soundness.
abbrev pub Sound : List Item → Analysis → Type 0
Sound items a =
    a.status ≢ Status.invalid
    → Parses items a.pending_assistant_index × (a.status ≡ status_of a.pending_assistant_index)

-- The round at an assistant message with tool calls, once the inner loop has stopped.
module _ (item : Item) (rest : List Item) (id : String) (ids seen : List String) (read : ℕ)
    (at_end : Bool) (c : called item.message ≡ id ∷ ids)
    (stop : scan (id ∷ ids) [] 0 rest ≡ stopped seen read at_end) where
  reads : Reads (id ∷ ids) [] 0 rest seen read at_end
  reads = scan-Reads (id ∷ ids) [] 0 rest stop

  answers : Answers (called item.message) reads.rs reads.ids
  unfolding reads
  answers = rw c (record {
    results = reads.results;
    called_for = reads.called_for;
    once = sym (fresh-nil reads.ids) ∙ reads.new;
  })

  calls : called item.message ≢ []
  calls e = cc (c, e)

  behind : drop read rest ≡ reads.rest
  unfolding reads
  behind =
      let at : read ≡ length reads.rs = omega (arith, reads.count) in
      rw at (rw reads.parts (drop-append reads.rs reads.rest))

  Sound-go_on :
      length seen ≡ suc (length ids)
      → Sound (drop read rest) (analyze_items read rest)
      → Sound (item ∷ rest) (analyze_items read rest)
  Sound-go_on full ih ok =
      let known = ih ok in
      let count : length reads.ids ≡ length (called item.message) =
        rw c (omega (arith, reads.seen_count, full)) in
      let tail : Parses reads.rest (analyze_items read rest).pending_assistant_index =
        subst (λ l. Parses l (analyze_items read rest).pending_assistant_index) behind known.0 in
      (
        subst (λ l. Parses (item ∷ l) (analyze_items read rest).pending_assistant_index)
            (sym reads.parts) (unit item reads.rs reads.ids calls answers count tail),
        known.1,
      )

  -- At the end of the list with results missing, the assistant message is pending.
  sound_pending :
      length seen < suc (length ids) → at_end ≡ true → Parses (item ∷ rest) (some item.index)
  sound_pending short e =
      let count : length reads.ids < length (called item.message) =
        rw c (omega (arith, reads.seen_count)) in
      let whole : reads.rs ≡ rest =
        sym (reads.parts ∙ ap (λ l. reads.rs ++ l) (reads.end e) ∙ append-nil reads.rs) in
      let answered : Answers (called item.message) rest reads.ids =
        subst (λ l. Answers (called item.message) l reads.ids) whole answers in
      pending item rest reads.ids answered count

  seen_le : length seen ≤ suc (length ids)
  unfolding reads
  seen_le =
      let d : distinct reads.ids ≡ true = sym (fresh-nil reads.ids) ∙ reads.new in
      omega (arith, pigeonhole (id ∷ ids) reads.ids d reads.called_for, reads.seen_count)

  step :
      (o : Outcome)
      → after_scan item.index (id ∷ ids) (stopped seen read at_end) ≡ o
      → step_item item rest ≡ o
  step o e = step_calls item rest id ids c ∙ ap (after_scan item.index (id ∷ ids)) stop ∙ e

  Sound-stopped :
      ((n : ℕ) → Sound (drop n rest) (analyze_items n rest))
      → Sound (item ∷ rest) (analyze_items 0 (item ∷ rest))
  Sound-stopped ih = elim (Bool-cases (length seen == length (id ∷ ids))) [
    | inl full ↦
        rw (next item rest (step (go_on read) (rw full))) (Sound-go_on (ground arith) (ih read))
    | inr short ↦ elim (Bool-cases at_end) [
      | inl e ↦
          let open_end = incomplete_message_sequence item.index (length (id ∷ ids)) (length seen) in
          rw (last item rest {a = open_end} (step (return open_end) (rw (short, e))))
            λ _. (sound_pending (ground (arith, seen_le)) e, refl)
      | inr e ↦
          let broken =
            invalid_message_sequence (missing_results (length (id ∷ ids)) (length seen)) in
          rw (last item rest {a = broken} (step (return broken) (rw (short, e))))
            λ valid. absurd (valid refl)
    ]
  ]

-- One round of the outer loop, by the kind of the message.
module _ (item : Item) (rest : List Item)
    (ih : (n : ℕ) → Sound (drop n rest) (analyze_items n rest)) where
  Sound-failed :
      (id : String) (ids : List String) (e : SequenceError)
      → called item.message ≡ id ∷ ids
      → scan (id ∷ ids) [] 0 rest ≡ failed e
      → Sound (item ∷ rest) (analyze_items 0 (item ∷ rest))
  Sound-failed id ids e ec f =
      let stepped : step_item item rest ≡ return (invalid_message_sequence e) =
        step_calls item rest id ids ec ∙ ap (after_scan item.index (id ∷ ids)) f in
      rw (last item rest {a = invalid_message_sequence e} stepped) λ valid. absurd (valid refl)

  Sound-calls :
      (id : String) (ids : List String)
      → called item.message ≡ id ∷ ids
      → (t : Scan) → scan (id ∷ ids) [] 0 rest ≡ t
      → Sound (item ∷ rest) (analyze_items 0 (item ∷ rest))
  Sound-calls id ids ec (failed e) f = Sound-failed id ids e ec f
  Sound-calls id ids ec (stopped seen read at_end) f =
      Sound-stopped item rest id ids seen read at_end ec f ih

  Sound-round :
      (r : Option String) (c : List String)
      → result_id item.message ≡ r
      → called item.message ≡ c
      → Sound (item ∷ rest) (analyze_items 0 (item ∷ rest))
  Sound-round (some id) c er ec =
      rw
        (last item rest {a = invalid_message_sequence (no_preceding_call id)}
          (step_result item rest id er))
        λ valid. absurd (valid refl)
  Sound-round none [] er ec =
      rw (next item rest {n = 0} (step_plain item rest er ec))
        λ valid. (plain item er ec (ih 0 valid).0, (ih 0 valid).1)
  Sound-round none (id ∷ ids) er ec = Sound-calls id ids ec (scan (id ∷ ids) [] 0 rest) refl

pub analyze_items-Sound : (k : ℕ) (items : List Item) → Sound (drop k items) (analyze_items k items)
unfolding analyze_items
analyze_items-Sound zero [] = λ _. (done, refl)
analyze_items-Sound (suc k) [] = λ _. (done, refl)
analyze_items-Sound (suc k) (item ∷ rest) = analyze_items-Sound k rest
analyze_items-Sound zero (item ∷ rest) =
    Sound-round item rest (λ n. analyze_items-Sound n rest) (result_id item.message)
      (called item.message) refl refl
