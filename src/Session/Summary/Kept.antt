-- ===== src/Session/Summary/Kept.antt =====
-- internal/agent/runtime/session/summary.go: proofs on the entry from which a compaction keeps the rest.
use oops.Prelude.{
  ℕ, zero, suc, ◌+◌, ◌≤◌, ◌<◌, String, Option, none, some, List, [], ◌∷◌, true, ◌≡◌, inl, inr, refl,
  arith, length, contains, str_eq, eq_iff, leb, ◌==◌, Bool-cases, Result, ok,
}
use oops.Session.Entry.{Entry}
use oops.Session.Tree.{Session, path_to_leaf, index_entry}
use oops.Session.Navigate.{tool_result_call_id}
use oops.Session.Summary.{
  SummaryError, ids, nth, assistant_has_tool_call, caller_loop, or_id, caller_or, protected,
  protected_on, last_id, estimate_entry_tokens, first_loop, first_on, first_kept_entry_id,
}

abbrev On : List Entry → String → Type 0
On path id = contains id (ids path) ≡ true

nth-On : (path : List Entry) (i : ℕ) → i < length path → On path (nth path i).id
nth-On [] i h = absurd (omega (arith, h))
nth-On (e ∷ path) zero h = ground (arith, eq_iff e.id e.id)
nth-On (e ∷ path) (suc i) h = let rest = nth-On path i (omega (arith, h)) in ground (arith, rest)

index_of-On :
    (path : List Entry) (id : String)
    → On path id
    → (i : ℕ) × (index_entry path id ≡ some i) × (i < length path)
unfolding index_entry
index_of-On [] id h = cc
index_of-On (e ∷ path) id h = elim (Bool-cases (str_eq e.id id)) [
  | inl q ↦ (0, simp q refl, omega arith)
  | inr q ↦
      let (i, k, l) = index_of-On path id (ground (arith, h, q)) in
      (suc i, simp (q, k) refl, omega (arith, l))
]

last_id-On : (e : Entry) (path : List Entry) → On (e ∷ path) (last_id (e ∷ path))
last_id-On e [] = ground (arith, eq_iff e.id e.id)
last_id-On e (x ∷ path) = let rest = last_id-On x path in ground (arith, rest)

abbrev SomeOn : List Entry → Option String → Type 0
SomeOn path none = Unit
SomeOn path (some id) = On path id

caller_loop-On :
    (path : List Entry) (call : String) (n : ℕ)
    → n ≤ length path
    → SomeOn path (caller_loop path call n)
unfolding caller_loop
caller_loop-On path call zero h = tt
caller_loop-On path call (suc n) h = elim (Bool-cases (assistant_has_tool_call (nth path n) call)) [
  | inl e ↦ simp e (nth-On path n (omega (arith, h)))
  | inr e ↦ simp e (caller_loop-On path call n (omega (arith, h)))
]

or_id-On :
    (path : List Entry) (o : Option String) (id : String)
    → SomeOn path o
    → On path id
    → On path (or_id o id)
or_id-On path none id h k = k
or_id-On path (some other) id h k = h

caller_or-On :
    (path : List Entry) (id : String) (i : ℕ) (o : Option String)
    → i < length path
    → On path id
    → On path (caller_or path id i o)
caller_or-On path id i none l h = h
caller_or-On path id i (some call) l h =
    or_id-On path (caller_loop path call i) id (caller_loop-On path call i (omega (arith, l))) h

abbrev Given : List Entry → Result SummaryError String → Type 0
Given path r = (id : String) × (r ≡ ok id) × On path id

protected_on-Given :
    (path : List Entry) (id : String) → On path id → Given path (protected_on path id)
protected_on-Given path id h =
    let (i, k, l) = index_of-On path id h in
    (
      protected path id i,
      simp k refl,
      caller_or-On path id i (tool_result_call_id (nth path i)) l h,
    )

module _ (byte_length : String → ℕ) where
  first_loop-On :
      (path : List Entry) (keep n : ℕ) (first : String) (total : ℕ)
      → n ≤ length path
      → On path first
      → On path (first_loop byte_length path keep first total n)
  unfolding first_loop
  first_loop-On path keep zero first total h k = k
  first_loop-On path keep (suc n) first total h k =
      let tokens = estimate_entry_tokens byte_length (nth path n) in
      let low : n < length path = omega (arith, h) in
      elim (Bool-cases (tokens == 0)) [
        | inl e ↦ simp e (first_loop-On path keep n first (total + tokens) (omega (arith, h)) k)
        | inr e ↦ elim (Bool-cases (leb keep (total + tokens))) [
          | inl q ↦ simp (e, q) (nth-On path n low)
          | inr q ↦
              simp (e, q)
                (first_loop-On path keep n (nth path n).id (total + tokens) (omega (arith, h))
                  (nth-On path n low))
        ]
      ]

  first_on-Given :
      (e : Entry) (path : List Entry) (keep : ℕ)
      → Given (e ∷ path) (first_on byte_length (e ∷ path) keep)
  first_on-Given e path keep = elim (Bool-cases (keep == 0)) [
    | inl z ↦ simp z (protected_on-Given (e ∷ path) (last_id (e ∷ path)) (last_id-On e path))
    | inr z ↦ simp z (
        protected_on-Given (e ∷ path)
          (first_loop byte_length (e ∷ path) keep (last_id (e ∷ path)) 0 (length (e ∷ path)))
          (first_loop-On (e ∷ path) keep (length (e ∷ path)) (last_id (e ∷ path)) 0 (omega arith)
            (last_id-On e path)))
  ]

  -- What `FirstKeptEntryID` gives on a path.
  abbrev pub IsKept : List Entry → Result SummaryError String → Type 0
  IsKept [] r = r ≡ ok ""
  IsKept (e ∷ path) r = (id : String) × (r ≡ ok id) × (contains id (ids (e ∷ path)) ≡ true)

  first_on-IsKept : (path : List Entry) (keep : ℕ) → IsKept path (first_on byte_length path keep)
  first_on-IsKept [] keep = refl
  first_on-IsKept (e ∷ path) keep = first_on-Given e path keep

  -- `FirstKeptEntryID` never fails: for any session and budget it returns the id of an entry on
  -- the path to the leaf, or the empty id if that path is empty.
  pub first_kept_entry_id-IsKept :
      (s : Session) (keep : ℕ)
      → IsKept (path_to_leaf s s.leaf_id) (first_kept_entry_id byte_length s keep)
  unfolding first_kept_entry_id
  first_kept_entry_id-IsKept s keep = first_on-IsKept (path_to_leaf s s.leaf_id) keep
