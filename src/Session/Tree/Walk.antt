-- ===== src/Session/Tree/Walk.antt =====
-- internal/agent/runtime/session/session.go: the walk of `pathToLeafLocked`, as a relation
-- without fuel.
use oops.Prelude.{
  ℕ, zero, suc, ◌≤◌, ◌<◌, String, none, some, List, [], ◌∷◌, ◌++◌, true, false, ◌||◌, ◌≡◌, sym, ◌∙◌,
  Dict, lookup, length, contains, str_eq, arith, eq_iff, Bool-cases, Option-cases, inl, inr,
  if◌then◌else◌, subst,
}
use mathlib.Core.List.{append_assoc, append-nil}
use oops.Session.Entry.{Entry}
use oops.Session.Tree.{Session, path_loop, path_in, path_to_leaf}

-- The loop of `pathToLeafLocked` with no fuel: it ends at the empty id, at an id that it has seen
-- or at an id that is not in the map, and goes up to the parent from any other.
pub data Walk (m : Dict Entry) : List String → String → List Entry → Type 0 where
  stop :
      {seen : List String} {id : String}
      → (str_eq id "" || contains id seen) ≡ true
      → Walk m seen id []
  missing : {seen : List String} {id : String} → lookup id m ≡ none → Walk m seen id []
  up :
      {seen : List String} {id : String} (entry : Entry) {path : List Entry}
      → (str_eq id "" || contains id seen) ≡ false
      → lookup id m ≡ some entry
      → Walk m (id ∷ seen) entry.parent_id path
      → Walk m seen id (path ++ entry ∷ [])

-- The keys that the loop has not seen yet.
unfoldable pub unseen : Dict Entry → List String → ℕ
unseen [] seen = 0
unseen ((k, e) ∷ m) seen = let rest = unseen m seen in if contains k seen then rest else suc rest

unseen-le :
    (m : Dict Entry) (id : String) (seen : List String) → unseen m (id ∷ seen) ≤ unseen m seen
unfolding unseen
unseen-le [] id seen = omega arith
unseen-le ((k, e) ∷ m) id seen = ground (arith, unseen-le m id seen)

pub unseen-lt :
    (m : Dict Entry) (id : String) (seen : List String) (entry : Entry)
    → lookup id m ≡ some entry
    → contains id seen ≡ false
    → unseen m (id ∷ seen) < unseen m seen
unfolding unseen lookup
unseen-lt ((k, e) ∷ m) id seen entry h new =
    ground (arith, unseen-lt m id seen entry, unseen-le m id seen, eq_iff k id, eq_iff id k)
unseen-lt [] id seen entry h new = cc

pub unseen-length : (m : Dict Entry) (seen : List String) → unseen m seen ≤ length m
unfolding unseen
unseen-length [] seen = omega arith
unseen-length ((k, e) ∷ m) seen = ground (arith, unseen-length m seen)

path_loop_stop :
    (m : Dict Entry) (fuel : ℕ) (seen : List String) (id : String) (acc : List Entry)
    → (str_eq id "" || contains id seen) ≡ true
    → path_loop m (suc fuel) seen id acc ≡ acc
unfolding path_loop
path_loop_stop m fuel seen id acc h = rw h

path_loop_missing :
    (m : Dict Entry) (fuel : ℕ) (seen : List String) (id : String) (acc : List Entry)
    → lookup id m ≡ none
    → path_loop m (suc fuel) seen id acc ≡ acc
unfolding path_loop
path_loop_missing m fuel seen id acc h = ground arith

path_loop_up :
    (m : Dict Entry) (fuel : ℕ) (seen : List String) (id : String) (acc : List Entry)
    (entry : Entry)
    → (str_eq id "" || contains id seen) ≡ false
    → lookup id m ≡ some entry
    → path_loop m (suc fuel) seen id acc
      ≡ path_loop m fuel (id ∷ seen) entry.parent_id (entry ∷ acc)
unfolding path_loop
path_loop_up m fuel seen id acc entry h l = ground arith

path_loop-Walk :
    (m : Dict Entry) (fuel : ℕ) (seen : List String) (id : String) (acc : List Entry)
    → unseen m seen < fuel
    → (path : List Entry) × (path_loop m fuel seen id acc ≡ path ++ acc) × Walk m seen id path
path_loop-Walk m zero seen id acc h = absurd (omega arith)
path_loop-Walk m (suc fuel) seen id acc h = elim (Bool-cases (str_eq id "" || contains id seen)) [
  | inl e ↦ ([], path_loop_stop m fuel seen id acc e, stop e)
  | inr e ↦ elim (Option-cases (lookup id m)) [
    | inl l ↦ ([], path_loop_missing m fuel seen id acc l, missing l)
    | inr (entry, l) ↦
        let less = unseen-lt m id seen entry l (ground arith) in
        let (path, p, w) =
          path_loop-Walk m fuel (id ∷ seen) entry.parent_id (entry ∷ acc) (omega (arith, less)) in
        (
          path ++ entry ∷ [],
          path_loop_up m fuel seen id acc entry e l ∙ p ∙ sym (append_assoc path (entry ∷ []) acc),
          up entry e l w,
        )
  ]
]

pub path_in-Walk : (m : Dict Entry) (leaf_id : String) → Walk m [] leaf_id (path_in m leaf_id)
unfolding path_in
path_in-Walk m leaf_id =
    let (path, p, w) =
      path_loop-Walk m (suc (length m)) [] leaf_id [] (omega (arith, unseen-length m [])) in
    subst (Walk m [] leaf_id) (sym (p ∙ append-nil path)) w

-- On every map of entries, also one with cycles, `pathToLeafLocked` has enough fuel: it returns
-- the path of the walk along the parents, which ends at the empty id, at an id that it has seen
-- or at an id without entry.
pub path_to_leaf-Walk :
    (s : Session) (leaf_id : String) → Walk s.entries [] leaf_id (path_to_leaf s leaf_id)
unfolding path_to_leaf
path_to_leaf-Walk s leaf_id = path_in-Walk s.entries leaf_id
