-- ===== src/Compaction/Prepare/Range.antt =====
-- internal/agent/runtime/compaction/compaction.go: proofs on the range of a path that `Prepare` reads.
use oops.Prelude.{
  ℕ, zero, suc, ◌+◌, ◌-◌, ◌≤◌, ◌<◌, String, Option, none, some, List, [], ◌∷◌, ◌++◌, Bool, true,
  false, ◌&&◌, ◌||◌, ◌≡◌, refl, sym, ap, ◌∙◌, subst, arith, ◌==◌, length, Bool-cases, Option-cases,
  inl, inr,
}
use mathlib.Core.List.{append-nil}
use oops.Ai.Types.{Stdlib, is_nil}
use oops.Session.Entry.{Entry, is_compaction}
use oops.Session.Tree.{Session, last_compaction_index, index_entry}
use oops.Compaction.Usage.{Settings}
use oops.Compaction.Cut.{CutPoint, clamp}
use oops.Session.Summary.{nth}
use oops.Compaction.Cut.Bounds.{IsCut}
use oops.Session.Details.{Json}
use oops.Compaction.Prepare.{
  message_from_entry, messages_loop, messages_from_entries, or_after, boundary_start, prepared,
}

messages_loop-append :
    (std : Stdlib) (entries : List Entry) (skip : Bool) (index a b : ℕ)
    → messages_loop std entries skip index (a + b)
      ≡ messages_loop std entries skip index a ++ messages_loop std entries skip (index + a) b
unfolding messages_loop
messages_loop-append std entries skip index zero b = ground arith
messages_loop-append std entries skip index (suc a) b =
    let more : suc a + b ≡ suc (a + b) = omega arith in
    let next : index + suc a ≡ suc index + a = omega arith in
    let rest = messages_loop-append std entries skip (suc index) a b in
    rw (more, next)
      (elim (Bool-cases (
        skip && is_compaction (nth entries index).type
        || is_nil (message_from_entry std (nth entries index) false))) [
          | inl e ↦ simp e rest
          | inr e ↦ simp e (ap (λ l. message_from_entry std (nth entries index) false ∷ l) rest)
        ])

index_entry-lt :
    (path : List Entry) (id : String) (i : ℕ) → index_entry path id ≡ some i → i < length path
unfolding index_entry
index_entry-lt [] id i h = cc
index_entry-lt (e ∷ path) id i h = elim (Option-cases (index_entry path id)) [
  | inl n ↦ ground (arith, h, n)
  | inr (j, q) ↦ ground (arith, h, q, index_entry-lt path id j q)
]

last_compaction_index-lt :
    (path : List Entry) (i : ℕ)
    → last_compaction_index path ≡ some i
    → (i < length path) × (is_compaction (nth path i).type ≡ true)
unfolding last_compaction_index
last_compaction_index-lt [] i h = cc
last_compaction_index-lt (e ∷ path) i h = elim (Option-cases (last_compaction_index path)) [
  | inl n ↦
      let (z, k) : (0 ≡ i) × (is_compaction e.type ≡ true) = ground (arith, h, n) in
      subst (λ x. (x < suc (length path)) × (is_compaction (nth (e ∷ path) x).type ≡ true)) z
        (omega arith, k)
  | inr (j, q) ↦
      let z : suc j ≡ i = ground (arith, h, q) in
      let (l, k) = last_compaction_index-lt path j q in
      subst (λ x. (x < suc (length path)) × (is_compaction (nth (e ∷ path) x).type ≡ true)) z
        (omega (arith, l), k)
]

or_after-lt :
    (std : Stdlib) (json : Json) (o : Option ℕ) (i n : ℕ)
    → ((j : ℕ) → o ≡ some j → j < n)
    → suc i < n
    → or_after std json o i < n
or_after-lt std json none i n h k = k
or_after-lt std json (some j) i n h k = h j refl

before_last :
    (path : List Entry) (i : ℕ)
    → last_compaction_index path ≡ some i
    → is_compaction (nth path (length path - 1)).type ≡ false
    → suc i < length path
before_last path i q e =
    let (l, k) = last_compaction_index-lt path i q in
    elim (Bool-cases (i == length path - 1)) [
      | inl h ↦
          let same : i ≡ length path - 1 = ground (arith, h) in
          let m : is_compaction (nth path (length path - 1)).type ≡ true =
            subst (λ x. is_compaction (nth path x).type ≡ true) same k in
          cc (e, m)
      | inr h ↦ ground (arith, h, l)
    ]

-- The range that is summarised or kept begins inside the path.
pub boundary_start-lt :
    (std : Stdlib) (json : Json) (path : List Entry)
    → 0 < length path
    → is_compaction (nth path (length path - 1)).type ≡ false
    → boundary_start std json path (last_compaction_index path) < length path
boundary_start-lt std json path h e = elim (Option-cases (last_compaction_index path)) [
  | inl n ↦ simp n h
  | inr (i, q) ↦ simp q (
      or_after-lt std json (index_entry path (nth path i).first_kept_entry_id) i (length path)
        (λ j k. index_entry-lt path (nth path i).first_kept_entry_id j k) (before_last path i q e))
]

pub clamp_self : (path : List Entry) → clamp (length path) path ≡ length path
clamp_self path = ground arith

messages_between :
    (std : Stdlib) (path : List Entry) (a b c : ℕ)
    → a ≤ b
    → b ≤ c
    → messages_from_entries std path a b true ++ messages_from_entries std path b c true
      ≡ messages_from_entries std path a c true
unfolding messages_from_entries
messages_between std path a b c h k =
    let total : c - a ≡ (b - a) + (c - b) = omega (arith, h, k) in
    let middle : a + (b - a) ≡ b = omega (arith, h) in
    rw total (
      sym (
        messages_loop-append std path true a (b - a) (c - b)
        ∙ ap (λ x. messages_loop std path true a (b - a) ++ messages_loop std path true x (c - b))
            middle))

-- The summarised messages and the turn's prefix are those of the entries before the cut.
pub parts :
    (std : Stdlib) (json : Json) (byte_length : String → ℕ) (s : Session) (settings : Settings)
    (path : List Entry) (start end : ℕ) (c : CutPoint)
    → IsCut path start end c
    → (prepared std json byte_length s settings path start c).messages
        ++ (prepared std json byte_length s settings path start c).turn_prefix
      ≡ messages_from_entries std path start c.first_kept_entry_index true
parts std json byte_length s settings path start end c cut = elim (Bool-cases c.split_turn) [
  | inl e ↦
      let (i, q) = cut.split e in
      let (low, high, _) = cut.turn i q in
      simp (e, q) (messages_between std path start i c.first_kept_entry_index low high)
  | inr e ↦ simp e (append-nil (messages_from_entries std path start c.first_kept_entry_index true))
]
