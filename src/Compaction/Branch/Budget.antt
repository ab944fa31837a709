-- ===== src/Compaction/Branch/Budget.antt =====
-- internal/agent/runtime/compaction/branch_summarization.go: proofs on the messages that a budget allows.
use oops.Prelude.{
  ℕ, zero, suc, ◌+◌, ◌*◌, ◌≤◌, ◌<◌, String, List, [], ◌∷◌, true, false, ◌&&◌, ◌≡◌, ◌⊎◌, inl, inr,
  refl, sym, ap, subst, arith, length, ltb, Bool-cases, if◌then◌else◌,
}
use oops.Ai.Types.{Stdlib, MessageList, is_nil}
use oops.Session.Entry.{Entry}
use oops.Session.Summary.{nth, estimate_entry_tokens}
use oops.Session.Details.{Json}
use oops.Compaction.Prepare.{message_from_entry}
use oops.Compaction.Branch.{
  BranchPreparation, is_summary, with_entry, with_operations, last_taken, is_over, branch_loop,
  prepare_branch_entries,
}

module _ (std : Stdlib) (json : Json) (byte_length : String → ℕ) where
  -- All messages of `n` entries from `index` on, tool results left out, and their tokens.
  unfoldable pub spoken : List Entry → (index n : ℕ) → MessageList × ℕ
  spoken entries index zero = ([], 0)
  spoken entries index (suc n) =
      let (messages, tokens) = spoken entries (suc index) n in
      let message = message_from_entry std (nth entries index) true in
      if is_nil message
      then (messages, tokens)
      else (message ∷ messages, tokens + estimate_entry_tokens byte_length (nth entries index))

  abbrev pub Holds : List Entry → (index n : ℕ) → BranchPreparation → Type 0
  Holds entries index n p = (p.messages, p.total_tokens) ≡ spoken entries index n

  -- The entry `index` is a summary that is over the budget, and the others use less than nine tenths.
  abbrev pub Exceeds : List Entry → (budget index n : ℕ) → Type 0
  Exceeds entries budget index n =
      (is_summary (nth entries index) ≡ true) × ((spoken entries (suc index) n).1 * 10 < budget * 9)

  abbrev pub IsNewest : List Entry → ℕ → BranchPreparation → Type 0
  IsNewest entries budget p =
      (index : ℕ) × (n : ℕ) × (index + n ≡ length entries)
      × Holds entries index n p
      × ((budget ≡ 0)
          ⊎ (p.total_tokens ≤ budget)
          ⊎ ((m : ℕ) × (n ≡ suc m) × Exceeds entries budget index m))

  take_one :
      (entries : List Entry) (index n : ℕ) (p : BranchPreparation)
      → is_nil (message_from_entry std (nth entries index) true) ≡ false
      → Holds entries (suc index) n p
      → Holds entries index (suc n) (with_entry std json byte_length (nth entries index) p)
  unfolding spoken
  take_one entries index n p e h = simp (e, sym h) refl

  pass_one :
      (entries : List Entry) (index n : ℕ) (p : BranchPreparation)
      → is_nil (message_from_entry std (nth entries index) true) ≡ true
      → Holds entries (suc index) n p
      → Holds entries index (suc n) p
  unfolding spoken
  pass_one entries index n p e h = simp e h

  within :
      (budget : ℕ) (entry : Entry) (p : BranchPreparation)
      → is_over std json byte_length budget entry p ≡ false
      → (budget ≡ 0) ⊎ (p.total_tokens + estimate_entry_tokens byte_length entry ≤ budget)
  within budget entry p h = ground (arith, h)

  weaken :
      (entries : List Entry) (budget index n : ℕ) (p : BranchPreparation)
      → index + n ≡ length entries
      → Holds entries index n p
      → (budget ≡ 0) ⊎ (p.total_tokens ≤ budget)
      → IsNewest entries budget p
  weaken entries budget index n p e h (inl z) = (index, n, e, h, inl z)
  weaken entries budget index n p e h (inr z) = (index, n, e, h, inr (inl z))

  last_taken-IsNewest :
      (entries : List Entry) (budget index n : ℕ) (p : BranchPreparation)
      → suc index + n ≡ length entries
      → Holds entries (suc index) n p
      → (budget ≡ 0) ⊎ (p.total_tokens ≤ budget)
      → is_nil (message_from_entry std (nth entries index) true) ≡ false
      → IsNewest entries budget (last_taken std json byte_length budget (nth entries index) p)
  last_taken-IsNewest entries budget index n p e h b spoke =
      elim (Bool-cases (is_summary (nth entries index) && ltb (p.total_tokens * 10) (budget * 9))) [
        | inl q ↦
            let (summary, low) : (is_summary (nth entries index) ≡ true)
                × (p.total_tokens * 10 < budget * 9) =
              ground (arith, q) in
            simp q (
              index,
              suc n,
              omega (arith, e),
              take_one entries index n p spoke h,
              inr (
                  inr (n, refl, (summary, subst (λ x. x * 10 < budget * 9) (ap (λ x. x.1) h) low))),
            )
        | inr q ↦ simp q (weaken entries budget (suc index) n p e h b)
      ]

  branch_loop-IsNewest :
      (entries : List Entry) (budget n m : ℕ) (p : BranchPreparation)
      → n + m ≡ length entries
      → Holds entries n m p
      → (budget ≡ 0) ⊎ (p.total_tokens ≤ budget)
      → IsNewest entries budget (branch_loop std json byte_length entries budget n p)
  unfolding branch_loop
  branch_loop-IsNewest entries budget zero m p e h b = weaken entries budget zero m p e h b
  branch_loop-IsNewest entries budget (suc n) m p e h b =
      let entry = nth entries n in
      let now = with_operations std json byte_length entry p in
      elim (Bool-cases (is_nil (message_from_entry std entry true))) [
        | inl q ↦ simp q (
            branch_loop-IsNewest entries budget n (suc m) now (omega (arith, e))
              (pass_one entries n m now q h) b)
        | inr q ↦ elim (Bool-cases (is_over std json byte_length budget entry now)) [
          | inl o ↦ simp (q, o) (last_taken-IsNewest entries budget n m now e h b q)
          | inr o ↦
              simp (q, o)
                (branch_loop-IsNewest entries budget n (suc m)
                  (with_entry std json byte_length entry now) (omega (arith, e))
                  (take_one entries n m now q h) (within budget entry now o))
        ]
      ]

  -- The messages that `PrepareBranchEntries` gives are all those of the entries from some index
  -- to the end, tool results left out, with the tokens of these; they are within the budget if
  -- there is one, or the oldest of them is a summary and the others take less than nine tenths
  -- of it.
  pub prepare_branch_entries-IsNewest :
      (entries : List Entry) (budget : ℕ)
      → IsNewest entries budget (prepare_branch_entries std json byte_length entries budget)
  unfolding prepare_branch_entries spoken
  prepare_branch_entries-IsNewest entries budget =
      branch_loop-IsNewest entries budget (length entries) 0 _ (omega arith) refl
        (inr (omega arith))
