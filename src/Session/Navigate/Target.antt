-- ===== src/Session/Navigate/Target.antt =====
-- internal/agent/runtime/session/navigation.go: proofs on the leaf that a user goes to.
use oops.Prelude.{
  ℕ, zero, suc, String, Option, none, some, List, [], ◌∷◌, map, keep, Bool, true, false, ◌||◌, ◌≡◌,
  ◌∙◌, refl, sym, ap, subst, arith, All, All-append, lookup, has, has_of_lookup, lookup_of_has,
  length, contains, str_eq, ◌==◌, eq_iff, Bool-cases, Option-cases, ◌⊎◌, inl, inr, ok, err,
}
use oops.Ai.Types.{Stdlib}
use oops.Session.Entry.{Entry, zero_entry, unknown_leaf}
use oops.Session.Tree.{Session, entry_at, entries, children}
use oops.Session.Valid.{IsValid, known}
use oops.Session.Valid.Leaf.{known_of_lookup, parent-known, safe_boundary-known}
use oops.Session.Navigate.{
  NavigationResult, is_set, assistant_tool_call_ids, tool_result_call_id, nearest_loop,
  nearest_assistant_tool_call, ToolUnitCandidate, joined, new_call, walk, tool_unit_candidates,
  find_candidate, or_only, active_path_ids, chosen, chosen_for, unit_leaf, complete_tool_unit_leaf,
  unit_or_boundary, of_result, of_entry, editable_message_text, resolve_navigation_target, leaf,
}

joined-All :
    {A B : Type 0} (P : B → Type 0) (f : A → List B) (l : List A)
    → All (λ a. All P (f a)) l
    → All P (joined (map f l))
joined-All P f [] h = tt
joined-All P f (a ∷ l) h = All-append P (f a) (joined (map f l)) h.0 (joined-All P f l h.1)

elim-All :
    {B : Type 0} (P : B → Type 0) (o : Option String) (f : String → List B)
    → ((id : String) → All P (f id))
    → All P (elim o [ none ↦ [] | some id ↦ f id ])
elim-All P none f h = tt
elim-All P (some id) f h = h id

All-keep : {A : Type 0} (P : A → Type 0) (f : A → Bool) (l : List A) → All P l → All P (keep f l)
All-keep P f [] h = tt
All-keep P f (a ∷ l) h = elim (Bool-cases (f a)) [
  | inl e ↦ simp e (h.0, All-keep P f l h.1)
  | inr e ↦ simp e (All-keep P f l h.1)
]

All-map : {A : Type 0} {P Q : A → Type 0} (l : List A) → ((a : A) → P a → Q a) → All P l → All Q l
All-map [] f h = tt
All-map (a ∷ l) f h = (f a h.0, All-map l f h.1)

module _ (s : Session) (v : IsValid s) where
  abbrev Known : String → Type 0
  Known id = known s.entries id ≡ true

  stored-Known :
      (ids : List String)
      → ((k : String) → contains k ids ≡ true → has k s.entries ≡ true)
      → All (λ e. Known e.id) (map (entry_at s.entries) ids)
  stored-Known [] h = tt
  stored-Known (k ∷ ids) h =
      let (e, l) = lookup_of_has k s.entries (h k (ground (arith, eq_iff k k))) in
      let same : entry_at s.entries k ≡ e =
        ap (λ (o : Option Entry). elim o as (λ _. Entry) [ none ↦ zero_entry | some entry ↦ entry ])
          l in
      (
        subst (λ (x : Entry). Known x.id) (sym same)
            (ground (arith, v.own k e l, has_of_lookup k s.entries l)),
        stored-Known ids (λ j q. h j (ground (arith, q))),
      )

  children-Known : (parent : String) → All (λ e. Known e.id) (children s parent)
  unfolding children entries
  children-Known parent =
      All-keep (λ e. Known e.id) _ (entries s) (stored-Known s.order (λ k h. sym (v.keyed k) ∙ h))

  walk-Known :
      (expected : List String) (fuel : ℕ) (parent : String) (seen below : List String)
      → Known parent
      → All (λ c. Known c.leaf_id) (walk s expected fuel parent seen below)
  unfolding walk
  walk-Known expected zero parent seen below h =
      elim (Bool-cases (length seen == length expected)) [
        | inl e ↦ simp e (h, tt)
        | inr e ↦ simp e tt
      ]
  walk-Known expected (suc fuel) parent seen below h =
      elim (Bool-cases (length seen == length expected)) [
        | inl e ↦ simp e (h, tt)
        | inr e ↦ simp e (
            joined-All (λ c. Known c.leaf_id) _ (children s parent)
              (All-map (children s parent)
                (λ child k.
                  elim-All (λ c. Known c.leaf_id)
                    (new_call expected seen (tool_result_call_id child)) _
                    (λ id. walk-Known expected fuel child.id (id ∷ seen) (child.id ∷ below) k))
                (children-Known parent)))
      ]

  abbrev SomeKnown : Option String → Type 0
  SomeKnown none = Unit
  SomeKnown (some id) = Known id

  find_candidate-Known :
      (test : ToolUnitCandidate → Bool) (l : List ToolUnitCandidate)
      → All (λ c. Known c.leaf_id) l
      → SomeKnown (find_candidate test l)
  find_candidate-Known test [] h = tt
  find_candidate-Known test (c ∷ l) h = elim (Bool-cases (test c)) [
    | inl e ↦ simp e h.0
    | inr e ↦ simp e (find_candidate-Known test l h.1)
  ]

  or_only-Known :
      (l : List ToolUnitCandidate) (o : Option String)
      → All (λ c. Known c.leaf_id) l
      → SomeKnown o
      → SomeKnown (or_only l o)
  or_only-Known l (some id) h k = k
  or_only-Known [] none h k = tt
  or_only-Known (c ∷ []) none h k = h.0
  or_only-Known (c ∷ d ∷ l) none h k = tt

  chosen-Known :
      (required : String) (l : List ToolUnitCandidate)
      → All (λ c. Known c.leaf_id) l
      → SomeKnown (chosen s required l)
  unfolding chosen
  chosen-Known required l h = elim (Bool-cases (str_eq required "")) [
    | inl e ↦ simp e (
        or_only-Known l (find_candidate (λ c. contains c.leaf_id (active_path_ids s)) l) h
          (find_candidate-Known _ l h))
    | inr e ↦ simp e (find_candidate-Known _ l h)
  ]

  chosen_for-Known :
      (assistant required : String) (o : Option (List String))
      → Known assistant
      → SomeKnown (chosen_for s assistant required o)
  chosen_for-Known assistant required none h = tt
  chosen_for-Known assistant required (some expected) h =
      chosen-Known required (tool_unit_candidates s assistant expected)
        (walk-Known expected (length expected) assistant [] (assistant ∷ []) h)

  unit_leaf-Known :
      (assistant required : String) (o : Option Entry)
      → Known assistant
      → SomeKnown (unit_leaf s assistant required o)
  unit_leaf-Known assistant required none h = tt
  unit_leaf-Known assistant required (some entry) h =
      chosen_for-Known assistant required (assistant_tool_call_ids entry) h

  complete_tool_unit_leaf-Known :
      (assistant required : String)
      → Known assistant
      → SomeKnown (complete_tool_unit_leaf s assistant required)
  unfolding complete_tool_unit_leaf
  complete_tool_unit_leaf-Known assistant required h =
      unit_leaf-Known assistant required (lookup assistant s.entries) h

  -- The entry that the search for an assistant message finds is one of the session.
  abbrev Found : Option Entry → Type 0
  Found none = Unit
  Found (some e) = Known e.id × Known e.parent_id

  found_here :
      (id : String) (e : Entry) → lookup id s.entries ≡ some e → Known e.id × Known e.parent_id
  found_here id e l =
      (ground (arith, v.own id e l, has_of_lookup id s.entries l), parent-known s v id e l)

  nearest_loop-Found :
      (fuel : ℕ) (seen : List String) (id : String) → Found (nearest_loop s fuel seen id)
  unfolding nearest_loop
  nearest_loop-Found zero seen id = tt
  nearest_loop-Found (suc fuel) seen id = elim (Bool-cases (str_eq id "" || contains id seen)) [
    | inl e ↦ simp e tt
    | inr e ↦ elim (Option-cases (lookup id s.entries)) [
      | inl l ↦ simp (e, l) tt
      | inr (current, l) ↦ elim (Bool-cases (is_set (assistant_tool_call_ids current))) [
        | inl a ↦ simp (e, l, a) (found_here id current l)
        | inr a ↦ elim (Bool-cases (is_set (tool_result_call_id current))) [
          | inl r ↦ simp (e, l, a, r) (nearest_loop-Found fuel (id ∷ seen) current.parent_id)
          | inr r ↦ simp (e, l, a, r) tt
        ]
      ]
    ]
  ]

  not_known :
      (id : String) → str_eq id "" ≡ false → lookup id s.entries ≡ none → known s.entries id ≡ false
  unfolding has
  not_known id e l = ground (arith, e, l)

  module _ (std : Stdlib) where
    unit_or_boundary-Known :
        (o : Option String) (parent : String)
        → SomeKnown o
        → Known parent
        → Known (unit_or_boundary std s o parent).leaf_id
    unit_or_boundary-Known (some id) parent h k = h
    unit_or_boundary-Known none parent h k = safe_boundary-known s v std parent k

    of_result-Known :
        (entry : Entry) (o : Option Entry)
        → Known entry.parent_id
        → Found o
        → Known (of_result std s entry o).leaf_id
    of_result-Known entry none h k = safe_boundary-known s v std entry.parent_id h
    of_result-Known entry (some a) h k =
        unit_or_boundary-Known (complete_tool_unit_leaf s a.id entry.id) a.parent_id
          (complete_tool_unit_leaf-Known a.id entry.id k.0) k.1

    of_entry-Known :
        (target : String) (entry : Entry) (o : Option String)
        → lookup target s.entries ≡ some entry
        → Known (of_entry std s target entry o).leaf_id
    of_entry-Known target entry (some text) l = parent-known s v target entry l
    of_entry-Known target entry none l =
        elim (Bool-cases (is_set (assistant_tool_call_ids entry))) [
          | inl a ↦ simp a (
              unit_or_boundary-Known (complete_tool_unit_leaf s entry.id "") entry.parent_id
                (complete_tool_unit_leaf-Known entry.id "" (found_here target entry l).0)
                (parent-known s v target entry l))
          | inr a ↦ elim (Bool-cases (is_set (tool_result_call_id entry))) [
            | inl r ↦
                simp (a, r)
                  (of_result-Known entry (nearest_assistant_tool_call s entry)
                    (parent-known s v target entry l)
                    (unfold nearest_assistant_tool_call in
                      nearest_loop-Found (suc (length s.entries)) [] entry.parent_id))
            | inr r ↦ simp (a, r) (known_of_lookup s v target entry l).0
          ]
        ]

    -- In a valid session `resolveNavigationTargetLocked` refuses exactly the targets that are
    -- neither the empty id nor an id of the session, and for any other target returns a leaf
    -- that is the empty id or an id of the session.
    pub resolve_navigation_target-known :
        (target : String)
        → ((known s.entries target ≡ true)
            × ((r : NavigationResult) × (resolve_navigation_target std s target ≡ ok r)
                × (known s.entries r.leaf_id ≡ true)))
          ⊎ ((known s.entries target ≡ false)
              × (resolve_navigation_target std s target ≡ err (unknown_leaf target)))
    unfolding resolve_navigation_target
    resolve_navigation_target-known target = elim (Bool-cases (str_eq target "")) [
      | inl e ↦ inl (ground (arith, e), (leaf "", simp e refl, refl))
      | inr e ↦ elim (Option-cases (lookup target s.entries)) [
        | inl l ↦ inr (not_known target e l, simp (e, l) refl)
        | inr (entry, l) ↦ inl (
          (known_of_lookup s v target entry l).0,
          (
            of_entry std s target entry (editable_message_text entry),
            simp (e, l) refl,
            of_entry-Known target entry (editable_message_text entry) l,
          ),
        )
      ]
    ]
