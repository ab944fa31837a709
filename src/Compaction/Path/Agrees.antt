-- ===== src/Compaction/Path/Agrees.antt =====
-- internal/agent/runtime/compaction/compaction.go: proofs on `activePath`.
use oops.Prelude.{
  ℕ, zero, suc, ◌<◌, String, some, List, [], ◌∷◌, ◌++◌, map, true, false, ◌≡◌, refl, sym, ap, ◌∙◌,
  arith, Dict, lookup, insert, has, length, contains, str_eq, eq_iff, lookup-insert, lookup_of_has,
  lookup-none_of_has, Bool-cases, inl, inr, if◌then◌else◌, ok,
}
use mathlib.Core.List.{append_assoc, append-nil}
use oops.Session.Entry.{Entry}
use oops.Session.Tree.{Session, entries, entry_at, path_to_leaf}
use oops.Session.Tree.Walk.{unseen, unseen-lt, unseen-length}
use oops.Session.Tree.Chain.{
  Chain, root, child, Chain-map, Chain-unique, Above, Above-next, path_in-eq-Chain,
}
use oops.Session.Valid.{IsValid}
use oops.Compaction.Path.{indexed, active_loop, active_path}

lookup-indexed :
    (d : Dict Entry) (ids : List String) (m : Dict Entry) (id : String)
    → ((k : String) → contains k ids ≡ true → has k d ≡ true)
    → ((k : String) (e : Entry) → lookup k d ≡ some e → e.id ≡ k)
    → lookup id (indexed m (map (entry_at d) ids))
      ≡ (if contains id ids then lookup id d else lookup id m)
unfolding indexed
lookup-indexed d [] m id known own = refl
lookup-indexed d (k ∷ ids) m id known own =
    let (e, l) = lookup_of_has k d (known k (ground (arith, eq_iff k k))) in
    let named : e.id ≡ k = own k e l in
    lookup-indexed d ids (insert (entry_at d k).id (entry_at d k) m) id
      (λ j h. known j (ground (arith, h))) own
    ∙ simp (l, named, lookup-insert) (ground (arith, eq_iff k id, l))

unseen-Above :
    (m : Dict Entry) (seen : List String) (id : String) (e : Entry) (path : List Entry)
    → Chain m id (path ++ e ∷ [])
    → Above m seen (path ++ e ∷ [])
    → contains id seen ≡ false
unseen-Above m seen id e path c above = elim (Bool-cases (contains id seen)) [
  | inl h ↦ absurd (omega (arith, above id (path ++ e ∷ []) h c))
  | inr h ↦ h
]

active_loop-Chain :
    (m : Dict Entry) (fuel : ℕ) (seen : List String) (id : String) (acc q : List Entry)
    → Chain m id q
    → Above m seen q
    → unseen m seen < fuel
    → active_loop m fuel seen id acc ≡ ok (q ++ acc)
unfolding active_loop
active_loop-Chain m zero seen id acc q c above h = absurd (omega (arith, h))
active_loop-Chain m (suc fuel) seen id acc q (root r) above h = simp r refl
active_loop-Chain m (suc fuel) seen id acc q (child e {path} n l c) above h =
    let new : contains id seen ≡ false = unseen-Above m seen id e path (child e n l c) above in
    let rest =
      active_loop-Chain m fuel (id ∷ seen) e.parent_id (e ∷ acc) path c
        (Above-next seen e path (child e n l c) above)
        (omega (arith, h, unseen-lt m id seen e l new)) in
    simp (n, new, l) (rest ∙ ap ok (sym (append_assoc path (e ∷ []) acc)))

lookup_by_id :
    (s : Session)
    → IsValid s
    → (id : String) → lookup id (indexed [] (entries s)) ≡ lookup id s.entries
unfolding entries lookup
lookup_by_id s v id =
    lookup-indexed s.entries s.order [] id (λ k h. sym (v.keyed k) ∙ h) v.own
    ∙ ground (arith, v.keyed id, lookup-none_of_has id s.entries)

loop-agrees :
    (s : Session)
    → IsValid s
    → (path : List Entry) → Chain s.entries s.leaf_id path
    → active_loop (indexed [] (entries s)) (suc (length (indexed [] (entries s)))) [] s.leaf_id []
      ≡ ok path
loop-agrees s v path c =
    let m = indexed [] (entries s) in
    active_loop-Chain m (suc (length m)) [] s.leaf_id [] path (Chain-map (lookup_by_id s v) c)
      (λ k r h d. cc) (omega (arith, unseen-length m []))
    ∙ ap ok (append-nil path)

active_path-Chain :
    (s : Session)
    → IsValid s
    → (path : List Entry) → Chain s.entries s.leaf_id path
    → active_path s ≡ ok path
unfolding active_path
active_path-Chain s v path c = elim (Bool-cases (str_eq s.leaf_id "")) [
  | inl e ↦ simp e (ap ok (Chain-unique (root e) c))
  | inr e ↦ simp e (loop-agrees s v path c)
]

-- In a valid session `activePath` finds no cycle and no missing entry, and returns the same
-- path as `pathToLeafLocked` of the leaf.
pub active_path-agrees : (s : Session) → IsValid s → active_path s ≡ ok (path_to_leaf s s.leaf_id)
unfolding path_to_leaf
active_path-agrees s v =
    let (path, c) = v.rooted s.leaf_id v.leaf in
    active_path-Chain s v path c ∙ ap ok (sym (path_in-eq-Chain c))
