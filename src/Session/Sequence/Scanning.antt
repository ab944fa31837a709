-- ===== src/Session/Sequence/Scanning.antt =====
-- What the inner loop of `analyzeMessageSequence` reads.
use oops.Prelude.{
  ℕ, ◌+◌, String, none, some, List, [], ◌∷◌, ◌++◌, Bool, true, false, not, ◌&&◌, ◌≡◌, refl, ap, ◌∙◌,
  length, contains, add, all_in, distinct, contains-add, arith, eq_iff, Option-cases, inl, inr,
}
use oops.Ai.Types.{AgentMessage, ToolResultMessage, as_tool_result_message}
use oops.Session.Sequence.{Item, stopped, scan}
use oops.Session.Sequence.Grammar.{result_id, AreResults}

abbrev pub none_in : List String → List String → Bool
none_in seen [] = true
none_in seen (id ∷ ids) = not (contains id seen) && none_in seen ids

abbrev pub fresh : List String → List String → Bool
fresh seen [] = true
fresh seen (id ∷ ids) = not (contains id seen) && fresh (add id seen) ids

none_in-add :
    (k : String) (seen ids : List String)
    → none_in (add k seen) ids ≡ (not (contains k ids) && none_in seen ids)
none_in-add k seen [] = refl
none_in-add k seen (id ∷ ids) =
    ground (arith, contains-add k id seen, none_in-add k seen ids, eq_iff k id, eq_iff id k)

fresh-eq : (seen ids : List String) → fresh seen ids ≡ (distinct ids && none_in seen ids)
fresh-eq seen [] = refl
fresh-eq seen (id ∷ ids) = ground (arith, fresh-eq (add id seen) ids, none_in-add id seen ids)

none_in-nil : (ids : List String) → none_in [] ids ≡ true
none_in-nil [] = refl
none_in-nil (id ∷ ids) = none_in-nil ids

pub fresh-nil : (ids : List String) → fresh [] ids ≡ distinct ids
fresh-nil ids = ground (arith, fresh-eq [] ids, none_in-nil ids)

-- The part of `items` that the loop has read when it stops.
pub record Reads (expected seen : List String) (read : ℕ) (items : List Item) (seen' : List String)
    (read' : ℕ) (at_end : Bool) : Type 0 where
  pub rs : List Item
  pub rest : List Item
  pub ids : List String
  pub parts : items ≡ rs ++ rest
  pub results : AreResults rs ids
  pub new : fresh seen ids ≡ true
  pub called_for : all_in expected ids ≡ true
  pub count : read' ≡ read + length rs
  pub seen_count : length seen' ≡ length seen + length ids
  pub end : at_end ≡ true → rest ≡ []

-- The three ends of one round of the loop, turned round.
scan_more :
    (expected seen : List String) (read : ℕ) (item : Item) (rest : List Item)
    (r : ToolResultMessage) {seen' : List String} {read' : ℕ} {at_end : Bool}
    → as_tool_result_message item.message ≡ some r
    → scan expected seen read (item ∷ rest) ≡ stopped seen' read' at_end
    → (contains r.tool_call_id expected ≡ true)
      × (contains r.tool_call_id seen ≡ false)
      × (scan expected (add r.tool_call_id seen) (read + 1) rest ≡ stopped seen' read' at_end)
unfolding scan
scan_more expected seen read item rest r e h = ground arith

scan_stop :
    (expected seen : List String) (read : ℕ) (item : Item) (rest : List Item) {seen' : List String}
    {read' : ℕ} {at_end : Bool}
    → as_tool_result_message item.message ≡ none
    → scan expected seen read (item ∷ rest) ≡ stopped seen' read' at_end
    → (seen' ≡ seen) × (read' ≡ read) × (at_end ≡ false)
unfolding scan
scan_stop expected seen read item rest e h = ground arith

result_id_of :
    (m : AgentMessage) (r : ToolResultMessage)
    → as_tool_result_message m ≡ some r
    → result_id m ≡ some r.tool_call_id
result_id_of m r h = ground arith

Reads_more :
    (expected seen : List String) (read : ℕ) (item : Item) {rest : List Item}
    (r : ToolResultMessage) {seen' : List String} {read' : ℕ} {at_end : Bool}
    → as_tool_result_message item.message ≡ some r
    → contains r.tool_call_id expected ≡ true
    → contains r.tool_call_id seen ≡ false
    → Reads expected (add r.tool_call_id seen) (read + 1) rest seen' read' at_end
    → Reads expected seen read (item ∷ rest) seen' read' at_end
Reads_more expected seen read item r e c f t = record {
  rs = item ∷ t.rs;
  rest = t.rest;
  ids = r.tool_call_id ∷ t.ids;
  parts = ap (λ l. item ∷ l) t.parts;
  results = (result_id_of item.message r e, t.results);
  new = ground arith;
  called_for = ground arith;
  count = omega arith;
  seen_count = ground arith;
  end = t.end;
}

pub scan-Reads :
    (expected seen : List String) (read : ℕ) (items : List Item) {seen' : List String} {read' : ℕ}
    {at_end : Bool}
    → scan expected seen read items ≡ stopped seen' read' at_end
    → Reads expected seen read items seen' read' at_end
unfolding scan
scan-Reads expected seen read [] h = record {
  rs = [];
  rest = [];
  ids = [];
  parts = refl;
  results = tt;
  new = refl;
  called_for = refl;
  count = ground arith;
  seen_count = ground arith;
  end = λ _. refl;
}
scan-Reads expected seen read (item ∷ rest) h =
    elim (Option-cases (as_tool_result_message item.message)) [
      | inl e ↦
          let stop = scan_stop expected seen read item rest e h in
          record {
            rs = [];
            rest = item ∷ rest;
            ids = [];
            parts = refl;
            results = tt;
            new = refl;
            called_for = refl;
            count = ground (arith, stop);
            seen_count = ground (arith, stop);
            end = λ y. ground (arith, stop);
          }
      | inr (r, e) ↦
          let more = scan_more expected seen read item rest r e h in
          Reads_more expected seen read item r e more.0 more.1
            (scan-Reads expected (add r.tool_call_id seen) (read + 1) rest more.2)
    ]

scan_next :
    (expected seen : List String) (read : ℕ) (item : Item) (rest : List Item) (id : String)
    → result_id item.message ≡ some id
    → contains id expected ≡ true
    → contains id seen ≡ false
    → scan expected seen read (item ∷ rest) ≡ scan expected (add id seen) (read + 1) rest
unfolding scan
scan_next expected seen read item rest id e c f = ground arith

-- The loop goes through any results that answer, and stops behind them.
pub scan-results :
    (expected seen : List String) (read n : ℕ) (rs rest : List Item) (ids : List String)
    → n ≡ read + length rs
    → AreResults rs ids
    → fresh seen ids ≡ true
    → all_in expected ids ≡ true
    → (seen' : List String) × (scan expected seen read (rs ++ rest) ≡ scan expected seen' n rest)
      × (length seen' ≡ length seen + length ids)
scan-results expected seen read n [] rest [] e a f c =
    let e' : read ≡ n = omega arith in (seen, ap (λ k. scan expected seen k rest) e', omega arith)
scan-results expected seen read n (item ∷ rs) rest (id ∷ ids) e a f c =
    let new : contains id seen ≡ false = ground arith in
    let t =
      scan-results expected (add id seen) (read + 1) n rs rest ids (omega arith) a.1 (ground arith)
        (ground arith) in
    (
      t.0,
      scan_next expected seen read item (rs ++ rest) id a.0 (ground arith) new ∙ t.1,
      ground (arith, t.2),
    )
scan-results expected seen read n [] rest (id ∷ ids) e a f c = absurd a
scan-results expected seen read n (item ∷ rs) rest [] e a f c = absurd a
