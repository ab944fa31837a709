-- ===== src/Compaction/Prepare/Keeps.antt =====
-- internal/agent/runtime/compaction/compaction.go: proofs on `Prepare`.
use oops.Prelude.{
  ℕ, zero, suc, ◌-◌, ◌≤◌, ◌<◌, String, Option, none, some, List, [], ◌∷◌, ◌++◌, true, false, ◌≡◌,
  ◌⊎◌, refl, sym, subst, arith, leb, length, Bool-cases, inl, inr, str_eq, Result, ok, err, All,
  All-append, has, has_of_lookup, eq_iff,
}
use oops.Ai.Types.{Stdlib}
use oops.Session.Entry.{Entry, is_compaction}
use oops.Session.Tree.{
  Session, path_to_leaf, last_compaction_index, index_entry, validate_compaction_reference,
}
use oops.Session.Tree.Chain.{Chain, root, child, path_in-eq-Chain}
use oops.Session.Valid.{IsValid}
use oops.Compaction.Usage.{Settings}
use oops.Compaction.Cut.{CutPoint, find_cut_point}
use oops.Session.Summary.{nth}
use oops.Compaction.Cut.Bounds.{IsCut, opens, find_cut_point-IsCut}
use oops.Session.Details.{Json}
use oops.Compaction.Path.{Error}
use oops.Compaction.Path.Agrees.{active_path-agrees}
use oops.Compaction.Prepare.{
  Preparation, messages_from_entries, boundary_start, checked, ends_compacted, prepare_path,
  prepare,
}
use oops.Compaction.Prepare.Range.{boundary_start-lt, clamp_self, parts}

-- What `Prepare` gives of a path.
abbrev pub Kept : Stdlib → Json → List Entry → Result Error (Option Preparation) → Type 0
Kept std json path (ok none) =
    (length path ≡ 0) ⊎ (is_compaction (nth path (length path - 1)).type ≡ true)
Kept std json path (ok (some p)) =
    let start = boundary_start std json path (last_compaction_index path) in
    (i : ℕ) × (start ≤ i)
    × (i < length path)
    × ((i ≡ start) ⊎ (opens (nth path i) ≡ true))
    × (p.first_kept_entry_id ≡ (nth path i).id)
    × (p.messages ++ p.turn_prefix ≡ messages_from_entries std path start i true)
Kept std json path (err e) = ⊥

All-nth :
    (P : Entry → Type 0) (path : List Entry) (i : ℕ) → All P path → i < length path → P (nth path i)
All-nth P [] i h k = absurd (omega (arith, k))
All-nth P (e ∷ path) zero h k = h.0
All-nth P (e ∷ path) (suc i) h k = All-nth P path i h.1 (omega (arith, k))

checked-Kept :
    (std : Stdlib) (json : Json) (byte_length : String → ℕ) (s : Session) (settings : Settings)
    (path : List Entry) (c : CutPoint)
    → All (λ e. str_eq e.id "" ≡ false) path
    → IsCut path (boundary_start std json path (last_compaction_index path)) (length path) c
    → Kept std json path (
        checked std json byte_length s settings path
          (boundary_start std json path (last_compaction_index path))
          c)
checked-Kept std json byte_length s settings path c named cut =
    let inside : leb (length path) c.first_kept_entry_index ≡ false = ground (arith, cut.upper) in
    simp
      (inside, All-nth (λ e. str_eq e.id "" ≡ false) path c.first_kept_entry_index named cut.upper)
      (
        c.first_kept_entry_index,
        cut.lower,
        cut.upper,
        cut.opening,
        refl,
        parts std json byte_length s settings path _ (length path) c cut,
      )

prepare_path-Kept :
    (std : Stdlib) (json : Json) (byte_length : String → ℕ) (s : Session) (settings : Settings)
    (path : List Entry)
    → All (λ e. str_eq e.id "" ≡ false) path
    → Kept std json path (prepare_path std json byte_length s settings path)
prepare_path-Kept std json byte_length s settings [] named = inl refl
prepare_path-Kept std json byte_length s settings (first ∷ rest) named =
    let path : List Entry = first ∷ rest in
    let start = boundary_start std json path (last_compaction_index path) in
    elim (Bool-cases (ends_compacted std json byte_length path)) [
      | inl e ↦ simp e (inr refl)
      | inr e ↦
          let cut =
            find_cut_point-IsCut byte_length path start (length path) settings.keep_recent_tokens
              (rw clamp_self (boundary_start-lt std json path (omega arith) e)) in
          simp e (
            checked-Kept std json byte_length s settings path
              (find_cut_point byte_length path start (length path) settings.keep_recent_tokens)
              named (rw clamp_self at cut))
    ]

Chain-All :
    (s : Session) (v : IsValid s) {id : String} {path : List Entry}
    → Chain s.entries id path
    → All (λ e. has e.id s.entries ≡ true) path
Chain-All s v (root h) = tt
Chain-All s v {id} (child e {path} h l c) =
    All-append (λ x. has x.id s.entries ≡ true) path (e ∷ []) (Chain-All s v c)
      (ground (arith, v.own id e l, has_of_lookup id s.entries l), tt)

All-map :
    {P Q : Entry → Type 0} (path : List Entry) → ((e : Entry) → P e → Q e) → All P path → All Q path
All-map [] f h = tt
All-map (e ∷ path) f h = (f e h.0, All-map path f h.1)

path-known :
    (s : Session) → IsValid s → All (λ e. has e.id s.entries ≡ true) (path_to_leaf s s.leaf_id)
unfolding path_to_leaf
path-known s v =
    let (path, c) = v.rooted s.leaf_id v.leaf in
    subst (All (λ e. has e.id s.entries ≡ true)) (sym (path_in-eq-Chain c)) (Chain-All s v c)

index_entry_found :
    (path : List Entry) (i : ℕ)
    → i < length path
    → (j : ℕ) × (index_entry path (nth path i).id ≡ some j)
unfolding index_entry
index_entry_found [] i h = absurd (omega (arith, h))
index_entry_found (e ∷ path) zero h = (0, ground (arith, eq_iff e.id e.id))
index_entry_found (e ∷ path) (suc i) h = elim (Bool-cases (str_eq e.id (nth path i).id)) [
  | inl q ↦ (0, simp q refl)
  | inr q ↦ let (j, k) = index_entry_found path i (omega (arith, h)) in (suc j, simp (q, k) refl)
]

-- In a valid session `Prepare` returns no error. It gives nothing only if the path to the leaf
-- is empty or ends with a compaction; otherwise the first entry kept is one of that path,
-- behind the last compaction's boundary, it is the boundary itself or no tool result, and the
-- messages to summarise followed by the prefix of the split turn are exactly those of the
-- entries from the boundary to it, compactions left out.
pub prepare-Kept :
    (std : Stdlib) (json : Json) (byte_length : String → ℕ) (s : Session) (settings : Settings)
    → IsValid s
    → Kept std json (path_to_leaf s s.leaf_id) (prepare std json byte_length s settings)
unfolding prepare
prepare-Kept std json byte_length s settings v = rw (active_path-agrees s v) (
    prepare_path-Kept std json byte_length s settings (path_to_leaf s s.leaf_id) (
      All-map (path_to_leaf s s.leaf_id) (λ e h. ground (arith, h, v.named, eq_iff e.id ""))
        (path-known s v)))

reference_accepted :
    (s : Session) (entry : Entry) (j : ℕ)
    → has entry.first_kept_entry_id s.entries ≡ true
    → index_entry (path_to_leaf s entry.parent_id) entry.first_kept_entry_id ≡ some j
    → validate_compaction_reference s entry ≡ ok tt
unfolding validate_compaction_reference
reference_accepted s entry j h k = ground (arith, h, k)

-- If `Prepare` of a valid session gives a preparation, the session accepts the reference of
-- every entry below its leaf that has the preparation's first kept entry.
pub prepare-validate_compaction_reference :
    (std : Stdlib) (json : Json) (byte_length : String → ℕ) (s : Session) (settings : Settings)
    (p : Preparation) (entry : Entry)
    → IsValid s
    → prepare std json byte_length s settings ≡ ok (some p)
    → entry.parent_id ≡ s.leaf_id
    → entry.first_kept_entry_id ≡ p.first_kept_entry_id
    → validate_compaction_reference s entry ≡ ok tt
prepare-validate_compaction_reference std json byte_length s settings p entry v q parent kept =
    let (i, low, high, _, named, _) =
      subst (Kept std json (path_to_leaf s s.leaf_id)) q
        (prepare-Kept std json byte_length s settings v) in
    let (j, found) = index_entry_found (path_to_leaf s s.leaf_id) i high in
    let known =
      All-nth (λ e. has e.id s.entries ≡ true) (path_to_leaf s s.leaf_id) i (path-known s v) high in
    reference_accepted s entry j (rw (kept, named) known) (rw (parent, kept, named) found)
