-- ===== src/Session/Summary/Branches.antt =====
-- internal/agent/runtime/session/summary.go: proofs on the entries of a branch summary.
use oops.Prelude.{
  suc, String, Option, none, some, List, [], ◌∷◌, ◌++◌, true, false, not, ◌&&◌, ◌≡◌, ◌⊎◌, ◌∙◌, inl,
  inr, refl, sym, ap, subst, arith, All, Dict, lookup, has, length, length-append, drop, contains,
  str_eq, eq_iff, Bool-cases, if◌then◌else◌, Result, ok, err,
}
use mathlib.Core.List.{append_assoc}
use oops.Session.Entry.{Entry}
use oops.Session.Tree.{Session, path_to_leaf, index_entry}
use oops.Session.Tree.Chain.{Chain, root, child, Chain-unique, path_in-eq-Chain}
use oops.Session.Valid.{IsValid, known}
use oops.Session.Summary.{
  SummaryError, ids, last_common, common_id, start_of, last_id, entries_below,
  entries_for_branch_summary,
}

-- The path splits at the last entry that the others have.
abbrev Splits : List Entry → List String → Option String → Type 0
Splits path others none = All (λ e. contains e.id others ≡ false) path
Splits path others (some id) =
    (a : List Entry) × (e : Entry) × (b : List Entry) × (path ≡ a ++ e ∷ b)
    × (e.id ≡ id)
    × (contains id others ≡ true)
    × All (λ x. contains x.id others ≡ false) b

last_common-Splits :
    (path : List Entry) (others : List String) → Splits path others (last_common path others)
unfolding last_common
last_common-Splits [] others = tt
last_common-Splits (e ∷ path) others =
    step e path others (last_common path others) (last_common-Splits path others)
  where
    step :
        (e : Entry) (path : List Entry) (others : List String) (o : Option String)
        → Splits path others o
        → Splits
            (e ∷ path)
            others
            (elim o [ some id ↦ some id | none ↦ if contains e.id others then some e.id else none ])
    step e path others (some id) (a, x, b, p, q, r, s) = (e ∷ a, x, b, ap (λ l. e ∷ l) p, q, r, s)
    step e path others none h = elim (Bool-cases (contains e.id others)) [
      | inl k ↦ simp k ([], e, path, refl, refl, refl, h)
      | inr k ↦ simp k (refl, h)
    ]

snoc_inj :
    {A : Type 0} (xs ys : List A) {x y : A} → xs ++ x ∷ [] ≡ ys ++ y ∷ [] → (xs ≡ ys) × (x ≡ y)
snoc_inj [] [] p = (refl, cc)
snoc_inj [] (z ∷ ys) {x} {y} p = absurd (omega (arith, ap length p, length-append ys (y ∷ [])))
snoc_inj (z ∷ xs) [] {x} {y} p = absurd (omega (arith, ap length p, length-append xs (x ∷ [])))
snoc_inj (z ∷ xs) (w ∷ ys) {x} {y} p =
    let tails : xs ++ x ∷ [] ≡ ys ++ y ∷ [] = cc in
    let (q, r) = snoc_inj xs ys tails in let heads : z ≡ w = cc in (cc (heads, q), r)

snoc_cases :
    {A : Type 0} (l : List A)
    → (l ≡ []) ⊎ ((front : List A) × (last : A) × (l ≡ front ++ last ∷ []))
snoc_cases [] = inl refl
snoc_cases (x ∷ l) = elim (snoc_cases l) [
  | inl e ↦ inr ([], x, ap (λ r. x ∷ r) e)
  | inr (front, last, e) ↦ inr (x ∷ front, last, ap (λ r. x ∷ r) e)
]

-- An entry on a chain ends the part of the chain above it.
Chain-prefix :
    {m : Dict Entry} {id : String} {path : List Entry} (a : List Entry) (e : Entry) (b : List Entry)
    → ((k : String) (x : Entry) → lookup k m ≡ some x → x.id ≡ k)
    → Chain m id path
    → path ≡ a ++ e ∷ b
    → Chain m e.id (a ++ e ∷ [])
Chain-prefix a e b own (root h) p = absurd (omega (arith, ap length p, length-append a (e ∷ b)))
Chain-prefix {m} {id} a e b own (child x {path} h l c) p = elim (snoc_cases b) [
  | inl n ↦
      let (q, r) = snoc_inj path a (p ∙ ap (λ t. a ++ e ∷ t) n) in
      let named : e.id ≡ id = ap (λ (z : Entry). z.id) (sym r) ∙ own id x l in
      subst (λ k. Chain m k (a ++ e ∷ [])) (sym named)
        (subst (λ t. Chain m id (t ++ e ∷ [])) q
          (subst (λ z. Chain m id (path ++ z ∷ [])) r (child x h l c)))
  | inr (front, y, n) ↦
      let (q, r) =
        snoc_inj path (a ++ e ∷ front)
          (p ∙ ap (λ t. a ++ e ∷ t) n ∙ sym (append_assoc a (e ∷ front) (y ∷ []))) in
      Chain-prefix a e front own c q
]

-- The id of an entry on a chain is not met before.
not_before :
    {m : Dict Entry} {id : String} {path : List Entry} (a : List Entry) (e : Entry)
    (b c : List Entry)
    → ((k : String) (x : Entry) → lookup k m ≡ some x → x.id ≡ k)
    → Chain m id path
    → path ≡ (c ++ a) ++ e ∷ b
    → All (λ x. str_eq x.id e.id ≡ false) a
not_before [] e b c own ch p = tt
not_before {m} {path = path} (x ∷ a) e b c own ch p = (
  elim (Bool-cases (str_eq x.id e.id)) [
    | inl h ↦
        let upper = Chain-prefix c x (a ++ e ∷ b) own ch (p ∙ append_assoc c (x ∷ a) (e ∷ b)) in
        let lower = Chain-prefix (c ++ x ∷ a) e b own ch p in
        let same =
          Chain-unique (subst (λ k. Chain m k (c ++ x ∷ [])) ((eq_iff x.id e.id).0 h) upper)
            lower in
        absurd (
          omega (
            arith,
            ap length same,
            length-append c (x ∷ []),
            length-append (c ++ x ∷ a) (e ∷ []),
            length-append c (x ∷ a),
          ))
    | inr h ↦ h
  ],
  not_before a e b (c ++ x ∷ []) own ch
      (p ∙ ap (λ t. t ++ e ∷ b) (sym (append_assoc c (x ∷ []) a))),
)

index_entry-at :
    (a : List Entry) (e : Entry) (b : List Entry)
    → All (λ x. str_eq x.id e.id ≡ false) a
    → index_entry (a ++ e ∷ b) e.id ≡ some (length a)
unfolding index_entry
index_entry-at [] e b h = ground (arith, eq_iff e.id e.id)
index_entry-at (x ∷ a) e b h = let rest = index_entry-at a e b h.1 in simp (h.0, rest) refl

drop-after : (a : List Entry) (e : Entry) (b : List Entry) → drop (suc (length a)) (a ++ e ∷ b) ≡ b
drop-after [] e b = refl
drop-after (x ∷ a) e b = drop-after a e b

found_in :
    (path : List Entry) (id : String)
    → contains id (ids path) ≡ true
    → (a : List Entry) × (e : Entry) × (b : List Entry) × (path ≡ a ++ e ∷ b) × (e.id ≡ id)
found_in [] id h = cc
found_in (x ∷ path) id h = elim (Bool-cases (str_eq x.id id)) [
  | inl q ↦ ([], x, path, refl, (eq_iff x.id id).0 q)
  | inr q ↦
      let (a, e, b, p, r) = found_in path id (ground (arith, h, q)) in
      (x ∷ a, e, b, ap (λ l. x ∷ l) p, r)
]

last_id-snoc : (a : List Entry) (e : Entry) → last_id (a ++ e ∷ []) ≡ e.id
last_id-snoc [] e = refl
last_id-snoc (x ∷ []) e = refl
last_id-snoc (x ∷ y ∷ a) e = last_id-snoc (y ∷ a) e

-- The entries below the last entry that two paths share, and that entry's id.
abbrev pub IsBranch : List Entry → List Entry → Result SummaryError (List Entry × String) → Type 0
IsBranch old target (ok (l, common)) =
    (front : List Entry) × (rest : List Entry) × (old ≡ front ++ l)
    × (target ≡ front ++ rest)
    × All (λ x. contains x.id (ids target) ≡ false) l
    × (common ≡ last_id front)
IsBranch old target (err e) = ⊥

module _ {m : Dict Entry} {id other : String} {old target : List Entry}
    (own : (k : String) (x : Entry) → lookup k m ≡ some x → x.id ≡ k) (c : Chain m id old)
    (d : Chain m other target) where
  common-IsBranch :
      (o : Option String)
      → Splits old (ids target) o
      → IsBranch old target (ok (drop (start_of old (common_id o)) old, common_id o))
  common-IsBranch none h = ([], target, refl, refl, h, refl)
  common-IsBranch (some i) (a, e, b, p, named, shared, apart) =
      let here : Chain m e.id (a ++ e ∷ []) = Chain-prefix a e b own c p in
      let (a', e', b', p', named') = found_in target i shared in
      let there : Chain m e'.id (a' ++ e' ∷ []) = Chain-prefix a' e' b' own d p' in
      let same : a' ++ e' ∷ [] ≡ a ++ e ∷ [] =
        Chain-unique (subst (λ k. Chain m k (a' ++ e' ∷ [])) (named' ∙ sym named) there) here in
      let filled : str_eq i "" ≡ false = elim (Bool-cases (str_eq i "")) [
        | inl z ↦ absurd (
            omega (
              arith,
              ap length (Chain-unique (root (ap (λ k. str_eq k "") named ∙ z)) here),
              length-append a (e ∷ []),
            ))
        | inr z ↦ z
      ] in
      let at : index_entry old i ≡ some (length a) =
        subst (λ k. index_entry old k ≡ some (length a)) named
          (subst (λ t. index_entry t e.id ≡ some (length a)) (sym p)
            (index_entry-at a e b (not_before a e b [] own c p))) in
      let below : drop (start_of old i) old ≡ b =
        simp (filled, at) (ap (drop (suc (length a))) p ∙ drop-after a e b) in
      (
        a ++ e ∷ [],
        b',
        p ∙ sym (append_assoc a (e ∷ []) b) ∙ ap (λ t. (a ++ e ∷ []) ++ t) (sym below),
        p' ∙ sym (append_assoc a' (e' ∷ []) b') ∙ ap (λ t. t ++ b') same,
        subst (All (λ x. contains x.id (ids target) ≡ false)) (sym below) apart,
        sym (last_id-snoc a e ∙ named),
      )

entries_below-IsBranch :
    {m : Dict Entry} {id other : String} (old target : List Entry)
    → ((k : String) (x : Entry) → lookup k m ≡ some x → x.id ≡ k)
    → Chain m id old
    → Chain m other target
    → IsBranch old target (entries_below old target)
entries_below-IsBranch [] target own c d = ([], target, refl, refl, tt, refl)
entries_below-IsBranch (x ∷ old) target own c d =
    common-IsBranch own c d (last_common (x ∷ old) (ids target))
      (last_common-Splits (x ∷ old) (ids target))

paths-IsBranch :
    (s : Session) (target : String)
    → IsValid s
    → known s.entries target ≡ true
    → IsBranch
        (path_to_leaf s s.leaf_id)
        (path_to_leaf s target)
        (entries_below (path_to_leaf s s.leaf_id) (path_to_leaf s target))
unfolding path_to_leaf
paths-IsBranch s target v h =
    let (old, c) = v.rooted s.leaf_id v.leaf in
    let (new, d) = v.rooted target h in
    subst (λ x. IsBranch x (path_to_leaf s target) (entries_below x (path_to_leaf s target)))
      (sym (path_in-eq-Chain c))
      (subst (λ y. IsBranch old y (entries_below old y)) (sym (path_in-eq-Chain d))
        (entries_below-IsBranch old new v.own c d))

-- For a valid session and a target that is the empty id or one of its ids,
-- `EntriesForBranchSummary` returns no error: the path to the leaf and the path to the target
-- begin with the same entries, the entries returned are the rest of the path to the leaf, none
-- of them is on the path to the target, and the id returned is that of the last shared entry,
-- empty if there is none.
pub entries_for_branch_summary-IsBranch :
    (s : Session) (target : String)
    → IsValid s
    → known s.entries target ≡ true
    → IsBranch
        (path_to_leaf s s.leaf_id)
        (path_to_leaf s target)
        (entries_for_branch_summary s target)
unfolding entries_for_branch_summary
entries_for_branch_summary-IsBranch s target v h =
    let accepted : not (str_eq target "") && not (has target s.entries) ≡ false =
      ground (arith, h) in
    simp accepted (paths-IsBranch s target v h)
