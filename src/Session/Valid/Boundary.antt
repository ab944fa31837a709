-- ===== src/Session/Valid/Boundary.antt =====
-- internal/agent/runtime/session/navigation.go: the loop of `safeBoundaryLocked`, as a relation
-- without fuel.
use oops.Prelude.{
  ℕ, zero, suc, ◌<◌, String, some, List, [], ◌∷◌, Bool, true, false, ◌≡◌, refl, ap, lookup, str_eq,
  length, length-append, arith, eq_iff, Bool-cases, inl, inr,
}
use oops.Ai.Types.{Stdlib}
use oops.Session.Entry.{Entry}
use oops.Session.Tree.{Session, path_to_leaf, last_compaction_index}
use oops.Session.Tree.Chain.{Chain, root, child, path_in-eq-Chain}
use oops.Session.Sequence.{validate_message_sequence, analyze_message_sequence}
use oops.Session.Context.{safe_boundary, boundary_loop, build_context_for_leaf, is_ok}
use oops.Session.Valid.{IsValid, known}

-- The context of a leaf is a sequence of messages that a run can go on from.
abbrev pub accepts : Stdlib → Session → String → Bool
accepts std s id = is_ok std (validate_message_sequence (build_context_for_leaf std s id).messages)

-- `Nearest std s id b`: of the ids from `id` up along the parents to the empty id, `b` is the first
-- one that is accepted.
pub data Nearest (std : Stdlib) (s : Session) : String → String → Type 0 where
  this_one : {id : String} → accepts std s id ≡ true → Nearest std s id id
  higher :
      {id b : String} (entry : Entry)
      → accepts std s id ≡ false
      → str_eq id "" ≡ false
      → lookup id s.entries ≡ some entry
      → Nearest std s entry.parent_id b
      → Nearest std s id b

Nearest-accepts :
    {std : Stdlib} {s : Session} {id b : String} → Nearest std s id b → accepts std s b ≡ true
Nearest-accepts (this_one h) = h
Nearest-accepts (higher e n k l r) = Nearest-accepts r

module _ (std : Stdlib) (s : Session) where
  no_path : path_to_leaf s "" ≡ []
  unfolding path_to_leaf
  no_path = path_in-eq-Chain {m = s.entries} {id = ""} (root refl)

  no_messages : (build_context_for_leaf std s "").messages ≡ []
  unfolding build_context_for_leaf last_compaction_index
  no_messages = rw no_path refl

  root-accepts : accepts std s "" ≡ true
  unfolding validate_message_sequence analyze_message_sequence
  root-accepts = rw no_messages refl

  boundary_loop_this :
      (fuel : ℕ) (id : String) → accepts std s id ≡ true → boundary_loop std (suc fuel) s id ≡ id
  unfolding boundary_loop
  boundary_loop_this fuel id h = rw h

  boundary_loop_higher :
      (fuel : ℕ) (id : String) (entry : Entry)
      → accepts std s id ≡ false
      → str_eq id "" ≡ false
      → lookup id s.entries ≡ some entry
      → boundary_loop std (suc fuel) s id ≡ boundary_loop std fuel s entry.parent_id
  unfolding boundary_loop
  boundary_loop_higher fuel id entry h k l = rw (h, k, l) refl

  boundary_loop-Nearest :
      (fuel : ℕ) {id : String} {path : List Entry}
      → Chain s.entries id path
      → length path < fuel
      → Nearest std s id (boundary_loop std fuel s id)
  boundary_loop-Nearest zero c h = absurd (omega arith)
  boundary_loop-Nearest (suc fuel) {id} (root r) h =
      let empty : id ≡ "" = (eq_iff id "").0 r in
      let good : accepts std s id ≡ true = rw empty root-accepts in
      rw (boundary_loop_this fuel id good) (this_one good)
  boundary_loop-Nearest (suc fuel) {id} (child e {path} n l c) h =
      elim (Bool-cases (accepts std s id)) [
        | inl good ↦ rw (boundary_loop_this fuel id good) (this_one good)
        | inr bad ↦ rw (boundary_loop_higher fuel id e bad n l) (
            higher e bad n l
              (boundary_loop-Nearest fuel c (omega (arith, h, length-append path (e ∷ [])))))
      ]

-- In a valid session, from the empty id or an id of the session, the loop of
-- `safeBoundaryLocked` ends within its fuel: it returns the first id, from the given one up
-- along the parents to the empty id, whose context is a complete sequence of messages, and
-- there is always one.
pub safe_boundary-Nearest :
    (std : Stdlib) (s : Session) (leaf_id : String)
    → IsValid s
    → known s.entries leaf_id ≡ true
    → Nearest std s leaf_id (safe_boundary std s leaf_id)
      × (accepts std s (safe_boundary std s leaf_id) ≡ true)
unfolding safe_boundary path_to_leaf
safe_boundary-Nearest std s leaf_id v h =
    let (path, c) = v.rooted leaf_id h in
    let same = path_in-eq-Chain c in
    let n =
      boundary_loop-Nearest std s (suc (suc (length (path_to_leaf s leaf_id)))) c
        (omega (arith, ap length same)) in
    (n, Nearest-accepts n)
