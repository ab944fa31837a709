-- ===== src/Compaction/Cut/Bounds.antt =====
-- internal/agent/runtime/compaction/compaction.go: proofs on the place of a cut.
use oops.Prelude.{
  ℕ, suc, ◌-◌, ◌≤◌, ◌<◌, String, Option, none, some, List, [], ◌∷◌, Bool, true, false, not, ◌&&◌,
  ◌≡◌, ◌⊎◌, inl, inr, refl, sym, subst, arith, All, leb, leb→le, Bool-cases,
}
use oops.Session.Entry.{Entry, is_message}
use oops.Compaction.Cut.{
  CutPoint, is_tool_result, is_user_entry, starts_turn, find_turn_start_index, cut_points_from,
  valid_cut_points, back_loop, asks_for, protect_tool_unit, is_some, cut_at, retained, cut_among,
  clamp, find_cut_point,
}
use oops.Session.Summary.{nth}
use oops.Compaction.Cut.Loops.{
  Point, cut_points_from-Point, budget_loop-All, back_loop-Back, turn_start_loop-Start,
  protect-Call,
}

-- An entry with which the kept part may begin.
abbrev pub opens : Entry → Bool
opens entry = not (is_message entry.type && is_tool_result entry.message)

asks_opens : (id : String) (entry : Entry) → asks_for id entry ≡ true → opens entry ≡ true
asks_opens id entry h = ground arith

pub record IsCut (entries : List Entry) (start end : ℕ) (c : CutPoint) : Type 0 where
  pub lower : start ≤ c.first_kept_entry_index
  pub upper : c.first_kept_entry_index < end
  pub opening :
      (c.first_kept_entry_index ≡ start) ⊎ (opens (nth entries c.first_kept_entry_index) ≡ true)
  pub turn :
      (i : ℕ)
      → c.turn_start_index ≡ some i
      → (start ≤ i) × (i ≤ c.first_kept_entry_index) × (starts_turn (nth entries i) ≡ true)
  pub split : c.split_turn ≡ true → (i : ℕ) × (c.turn_start_index ≡ some i)

abbrev Place : List Entry → (start end : ℕ) → ℕ → Type 0
Place entries start end cut =
    (start ≤ cut) × (cut < end) × ((cut ≡ start) ⊎ (opens (nth entries cut) ≡ true))

back-Place :
    (entries : List Entry) (start end point : ℕ)
    → Point entries start end point
    → Place entries start end (back_loop entries start (point - start))
back-Place entries start end point (low, high, is) =
    let (l, h, k) = back_loop-Back entries start (point - start) in
    (
      l,
      omega (arith, h, low, high),
      elim k [
        | inl q ↦ inl q
        | inr (inl q) ↦
            let same : point ≡ back_loop entries start (point - start) = omega (arith, q, low) in
            inr (subst (λ x. opens (nth entries x) ≡ true) same (ground (arith, is)))
        | inr (inr q) ↦ inr (ground (arith, q))
      ],
    )

protect-Place :
    (entries : List Entry) (start end cut : ℕ)
    → Place entries start end cut
    → Place entries start end (protect_tool_unit entries cut start)
protect-Place entries start end cut (low, high, k) = elim (protect-Call entries cut start low) [
  | inl q ↦ subst (Place entries start end) (sym q) (low, high, k)
  | inr (l, h, (id, asks)) ↦ (
    l,
    omega (arith, h, high),
    inr (asks_opens id (nth entries (protect_tool_unit entries cut start)) asks),
  )
]

is_some_of : (o : Option ℕ) → is_some o ≡ true → (i : ℕ) × (o ≡ some i)
is_some_of (some i) h = (i, refl)
is_some_of none h = cc

and_right : (a b : Bool) → (a && b) ≡ true → b ≡ true
and_right true b h = h
and_right false b h = cc

cut_at-IsCut :
    (entries : List Entry) (start end cut : ℕ)
    → Place entries start end cut
    → IsCut entries start end (cut_at entries start cut)
unfolding find_turn_start_index
cut_at-IsCut entries start end cut (low, high, k) = record {
  lower = low;
  upper = high;
  opening = k;
  turn = λ i h. elim (Bool-cases (is_user_entry (nth entries cut))) [
    | inl e ↦ let q : none ≡ some i = simp e at h in cc
    | inr e ↦
        let (l, u, s) = turn_start_loop-Start entries start (suc cut - start) i (simp e at h) in
        (l, omega (arith, u, low), s)
  ];
  split = λ h. is_some_of (cut_at entries start cut).turn_start_index (and_right _ _ h);
}

module _ (byte_length : String → ℕ) where
  cut_among-IsCut :
      (entries : List Entry) (start end keep : ℕ) (cut_points : List ℕ)
      → start < end
      → All (Point entries start end) cut_points
      → IsCut entries start end (cut_among byte_length entries start end keep cut_points)
  cut_among-IsCut entries start end keep [] h p = record {
    lower = omega arith;
    upper = h;
    opening = inl refl;
    turn = λ i q. cc;
    split = λ q. cc;
  }
  cut_among-IsCut entries start end keep (first ∷ rest) h p =
      cut_at-IsCut entries start end
        (retained byte_length entries start end keep (first ∷ rest) first)
        (protect-Place entries start end _ (
          back-Place entries start end _ (
            budget_loop-All byte_length (Point entries start end) entries start (first ∷ rest) keep
              first (end - start) 0 p p.0)))

  -- If the range is not empty, `FindCutPoint` returns an index in it, at which the range begins
  -- or whose entry is no tool result message; a turn start that it gives is at or before that
  -- index in the range and is an entry that starts a turn, and a split turn has one.
  pub find_cut_point-IsCut :
      (entries : List Entry) (start end keep : ℕ)
      → start < clamp end entries
      → IsCut entries start (clamp end entries) (find_cut_point byte_length entries start end keep)
  unfolding find_cut_point valid_cut_points
  find_cut_point-IsCut entries start end keep h =
      elim (Bool-cases (leb (clamp end entries) start)) [
        | inl e ↦ absurd (omega (arith, h, leb→le (clamp end entries) start e))
        | inr e ↦ simp e (
            cut_among-IsCut entries start (clamp end entries) keep
              (cut_points_from entries start (clamp end entries - start)) h
              (cut_points_from-Point entries start (clamp end entries) start
                (clamp end entries - start) (omega arith) (omega (arith, h))))
      ]
