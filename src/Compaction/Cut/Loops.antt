-- ===== src/Compaction/Cut/Loops.antt =====
-- internal/agent/runtime/compaction/compaction.go: proofs on the loops that look for a cut.
use oops.Prelude.{
  ℕ, zero, suc, ◌+◌, ◌-◌, ◌≤◌, ◌<◌, String, some, List, [], ◌∷◌, Bool, true, false, ◌≡◌, ◌⊎◌, inl,
  inr, refl, sym, subst, arith, All, leb, Bool-cases, Option-cases, length, if◌then◌else◌,
}
use oops.Ai.Types.{as_tool_result_message}
use oops.Session.Entry.{Entry}
use oops.Compaction.Cut.{
  starts_turn, is_cut_point, turn_start_loop, cut_points_from, first_from, budget_loop, is_fixed,
  back_loop, asks_for, call_loop, protect_tool_unit,
}
use oops.Session.Summary.{nth}

-- A place where the code may cut.
abbrev pub Point : List Entry → (low high : ℕ) → ℕ → Type 0
Point entries low high i = (low ≤ i) × (i < high) × (is_cut_point (nth entries i) ≡ true)

pub cut_points_from-Point :
    (entries : List Entry) (low high index n : ℕ)
    → low ≤ index
    → index + n ≤ high
    → All (Point entries low high) (cut_points_from entries index n)
unfolding cut_points_from
cut_points_from-Point entries low high index zero h k = tt
cut_points_from-Point entries low high index (suc n) h k =
    elim (Bool-cases (is_cut_point (nth entries index))) [
      | inl e ↦ simp e (
        (h, omega (arith, k), refl),
        cut_points_from-Point entries low high (suc index) n (omega (arith, h)) (omega (arith, k)),
      )
      | inr e ↦ simp e (
          cut_points_from-Point entries low high (suc index) n (omega (arith, h))
            (omega (arith, k)))
    ]

first_from-All :
    (P : ℕ → Type 0) (xs : List ℕ) (index default : ℕ)
    → All P xs
    → P default
    → P (first_from xs index default)
unfolding first_from
first_from-All P [] index default h d = d
first_from-All P (x ∷ xs) index default h d = elim (Bool-cases (leb index x)) [
  | inl e ↦ simp e h.0
  | inr e ↦ simp e (first_from-All P xs index default h.1 d)
]

if_All : (P : ℕ → Type 0) (b : Bool) {x y : ℕ} → P x → P y → P (if b then x else y)
if_All P true h k = h
if_All P false h k = k

pub budget_loop-All :
    (byte_length : String → ℕ) (P : ℕ → Type 0) (entries : List Entry) (start : ℕ)
    (cut_points : List ℕ) (keep default n accumulated : ℕ)
    → All P cut_points
    → P default
    → P (budget_loop byte_length entries start cut_points keep default accumulated n)
unfolding budget_loop
budget_loop-All byte_length P entries start cut_points keep default zero accumulated h d = d
budget_loop-All byte_length P entries start cut_points keep default (suc n) accumulated h d =
    if_All P _ (budget_loop-All byte_length P entries start cut_points keep default n _ h d)
      (first_from-All P cut_points (start + n) default h d)

-- The cut goes back over entries that are neither messages nor compactions.
abbrev pub Back : List Entry → (start n : ℕ) → ℕ → Type 0
Back entries start n cut =
    (start ≤ cut)
    × (cut ≤ start + n)
    × ((cut ≡ start) ⊎ (cut ≡ start + n) ⊎ (is_fixed (nth entries cut).type ≡ false))

back_cases :
    (entries : List Entry) (start n cut : ℕ)
    → (cut ≡ start) ⊎ (cut ≡ start + n) ⊎ (is_fixed (nth entries cut).type ≡ false)
    → is_fixed (nth entries (start + n)).type ≡ false
    → (cut ≡ start) ⊎ (cut ≡ start + suc n) ⊎ (is_fixed (nth entries cut).type ≡ false)
back_cases entries start n cut (inl h) e = inl h
back_cases entries start n cut (inr (inl h)) e =
    inr (inr (subst (λ x. is_fixed (nth entries x).type ≡ false) (sym h) e))
back_cases entries start n cut (inr (inr h)) e = inr (inr h)

pub back_loop-Back :
    (entries : List Entry) (start n : ℕ) → Back entries start n (back_loop entries start n)
unfolding back_loop
back_loop-Back entries start zero = (omega arith, omega arith, inl refl)
back_loop-Back entries start (suc n) = elim (Bool-cases (is_fixed (nth entries (start + n)).type)) [
  | inl e ↦ simp e (omega arith, omega arith, inr (inl refl))
  | inr e ↦
      let (low, high, k) = back_loop-Back entries start n in
      simp e (low, omega (arith, high), back_cases entries start n _ k e)
]

call_loop-Call :
    (entries : List Entry) (id : String) (start default n : ℕ)
    → (call_loop entries id start default n ≡ default)
      ⊎ ((start ≤ call_loop entries id start default n)
          × (call_loop entries id start default n < start + n)
          × (asks_for id (nth entries (call_loop entries id start default n)) ≡ true))
unfolding call_loop
call_loop-Call entries id start default zero = inl refl
call_loop-Call entries id start default (suc n) =
    elim (Bool-cases (asks_for id (nth entries (start + n)))) [
      | inl e ↦ simp e (inr (omega arith, omega arith, refl))
      | inr e ↦ elim (call_loop-Call entries id start default n) [
        | inl k ↦ simp e (inl k)
        | inr (low, high, k) ↦ simp e (inr (low, omega (arith, high), k))
      ]
    ]

pub turn_start_loop-Start :
    (entries : List Entry) (start n i : ℕ)
    → turn_start_loop entries start n ≡ some i
    → (start ≤ i) × (i < start + n) × (starts_turn (nth entries i) ≡ true)
unfolding turn_start_loop
turn_start_loop-Start entries start zero i h = cc
turn_start_loop-Start entries start (suc n) i h =
    elim (Bool-cases (starts_turn (nth entries (start + n)))) [
      | inl e ↦
          let k : some (start + n) ≡ some i = simp e at h in
          let same : start + n ≡ i = cc in
          subst (λ x. (start ≤ x) × (x < start + suc n) × (starts_turn (nth entries x) ≡ true)) same
            (omega arith, omega arith, e)
      | inr e ↦
          let (low, high, k) = turn_start_loop-Start entries start n i (simp e at h) in
          (low, omega (arith, high), k)
    ]

-- What a protected cut is: the cut itself, or the call of the tool result at the cut.
pub protect-Call :
    (entries : List Entry) (cut start : ℕ)
    → start ≤ cut
    → ((protect_tool_unit entries cut start ≡ cut))
      ⊎ ((start ≤ protect_tool_unit entries cut start)
          × (protect_tool_unit entries cut start < cut)
          × ((id : String) × (asks_for id (nth entries (protect_tool_unit entries cut start))
                ≡ true)))
unfolding protect_tool_unit
protect-Call entries cut start h = elim (Bool-cases (leb (length entries) cut)) [
  | inl e ↦ simp e (inl refl)
  | inr e ↦ elim (Option-cases (as_tool_result_message (nth entries cut).message)) [
    | inl o ↦ simp (e, o) (inl refl)
    | inr (result, o) ↦ elim (call_loop-Call entries result.tool_call_id start cut (cut - start)) [
      | inl k ↦ simp (e, o) (inl k)
      | inr (low, high, k) ↦
          simp (e, o) (inr (low, omega (arith, high, h), (result.tool_call_id, k)))
    ]
  ]
]
