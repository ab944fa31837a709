-- ===== src/Session/Valid/Leaf.antt =====
-- internal/agent/runtime/session/session.go: proofs on the leaf that a run goes on from.
use oops.Prelude.{
  ℕ, zero, suc, String, Option, none, some, List, true, false, ◌≡◌, refl, lookup, get_elem?, str_eq,
  arith, eq_iff, has_of_lookup, length, Option-cases, ◌⊎◌, inl, inr,
}
use oops.Ai.Types.{Stdlib}
use oops.Session.Entry.{Entry}
use oops.Session.Tree.{Session, path_to_leaf}
use oops.Session.Tree.Chain.{Chain-known, Chain-parent}
use oops.Session.Context.{
  executable_leaf, safe_boundary, boundary_loop, pending_entry, analyze_leaf,
}
use oops.Session.Valid.{IsValid, known}

module _ (s : Session) (v : IsValid s) where
  pub known_of_lookup :
      (id : String) (e : Entry)
      → lookup id s.entries ≡ some e
      → (known s.entries id ≡ true) × (str_eq id "" ≡ false)
  known_of_lookup id e h = ground (arith, has_of_lookup id s.entries h, v.named, eq_iff id "")

  -- The parent of an entry of the session is known.
  pub parent-known :
      (id : String) (e : Entry) → lookup id s.entries ≡ some e → known s.entries e.parent_id ≡ true
  parent-known id e h =
      let (k, n) = known_of_lookup id e h in
      let (above, c, p) = Chain-parent (v.rooted id k).1 h n in Chain-known c

  module _ (std : Stdlib) where
    boundary_loop-cases :
        (fuel : ℕ) (leaf_id : String)
        → (boundary_loop std (suc fuel) s leaf_id ≡ leaf_id)
          ⊎ (boundary_loop std (suc fuel) s leaf_id ≡ "")
          ⊎ ((e : Entry) × (lookup leaf_id s.entries ≡ some e)
              × (boundary_loop std (suc fuel) s leaf_id ≡ boundary_loop std fuel s e.parent_id))
    unfolding boundary_loop
    boundary_loop-cases fuel leaf_id = ground arith

    boundary_loop-known :
        (fuel : ℕ) (leaf_id : String)
        → known s.entries leaf_id ≡ true
        → known s.entries (boundary_loop std fuel s leaf_id) ≡ true
    boundary_loop-known zero leaf_id h = unfold boundary_loop in refl
    boundary_loop-known (suc fuel) leaf_id h = elim (boundary_loop-cases fuel leaf_id) [
      | inl p ↦ rw p h
      | inr (inl p) ↦ rw p
      | inr (inr (e, l, p)) ↦ rw p (boundary_loop-known fuel e.parent_id (parent-known leaf_id e l))
    ]

    pub safe_boundary-known :
        (leaf_id : String)
        → known s.entries leaf_id ≡ true
        → known s.entries (safe_boundary std s leaf_id) ≡ true
    unfolding safe_boundary
    safe_boundary-known leaf_id h =
        boundary_loop-known (suc (suc (length (path_to_leaf s leaf_id)))) leaf_id h

    pending_entry-known :
        (ids : List String) (index : Option ℕ) (e : Entry)
        → pending_entry std s ids index ≡ some e
        → (id : String) × (lookup id s.entries ≡ some e)
    unfolding pending_entry
    pending_entry-known ids (some i) e h = elim (Option-cases (get_elem? ids i)) [
      | inl n ↦ ground (arith, n)
      | inr (id, g) ↦ (id, ground (arith, g))
    ]
    pending_entry-known ids none e h = cc

    executable_leaf-cases :
        (leaf_id : String)
        → (executable_leaf std s leaf_id ≡ leaf_id)
          ⊎ (executable_leaf std s leaf_id ≡ safe_boundary std s leaf_id)
          ⊎ ((e : Entry) × (pending_entry std s
                  (analyze_leaf std s leaf_id).1
                  (analyze_leaf std s leaf_id).0.pending_assistant_index
                ≡ some e)
              × (executable_leaf std s leaf_id ≡ e.parent_id))
    unfolding executable_leaf
    executable_leaf-cases leaf_id = ground arith

    -- In a valid session, `executableLeafLocked` of the empty id or an id of the session is
    -- again the empty id or an id of the session.
    pub executable_leaf-known :
        (leaf_id : String)
        → known s.entries leaf_id ≡ true
        → known s.entries (executable_leaf std s leaf_id) ≡ true
    executable_leaf-known leaf_id h = elim (executable_leaf-cases leaf_id) [
      | inl p ↦ rw p h
      | inr (inl p) ↦ rw p (safe_boundary-known leaf_id h)
      | inr (inr (e, f, p)) ↦
          let (id, l) = pending_entry-known _ _ e f in rw p (parent-known id e l)
    ]
