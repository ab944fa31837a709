-- ===== src/Loghub/Ring/Places.antt =====
-- Places of a ring and of a list, for the proofs on the hub's ring buffer.
use oops.Prelude.{
  ℕ, zero, suc, ◌+◌, ◌-◌, ◌%◌, ◌≤◌, ◌<◌, some, List, [], ◌∷◌, ◌++◌, ◌≡◌, ◌≢◌, ◌⊎◌, inl, inr, refl,
  sym, ap, arith, length, get_elem?, set, drop, ltb, Bool-cases,
}
use native.Mathlib.Nat.{mod-lt, mod-add-mod, mod-eq_of_lt, mod-eq-sub-mod}

-- Two places less than a turn apart are different places of the ring.
pub apart : (j d n : ℕ) → 0 < d → d < n → (j % n) ≢ ((j + d) % n)
apart j d n p q h =
    let low : j % n < n = mod-lt j (omega (arith, q)) in
    let turn : (j + d) % n ≡ (j % n + d) % n = sym (mod-add-mod j n d) in
    elim (Bool-cases (ltb (j % n + d) n)) [
      | inl inside ↦
          let e : (j % n + d) % n ≡ j % n + d = mod-eq_of_lt (ground (arith, inside)) in
          omega (arith, h, turn, e, p)
      | inr around ↦
          let e : (j % n + d) % n ≡ (j % n + d - n) % n = mod-eq-sub-mod (ground (arith, around)) in
          let f : (j % n + d - n) % n ≡ j % n + d - n = mod-eq_of_lt (ground (arith, low, q)) in
          let over : n ≤ j % n + d = ground (arith, around) in omega (arith, h, turn, e, f, q, over)
    ]

pub get_elem?-set_same :
    {T : Type 0} (xs : List T) (i : ℕ) (v : T) → i < length xs → get_elem? (set xs i v) i ≡ some v
get_elem?-set_same [] i v h = absurd (omega (arith, h))
get_elem?-set_same (x ∷ xs) zero v h = refl
get_elem?-set_same (x ∷ xs) (suc i) v h = get_elem?-set_same xs i v (omega (arith, h))

pub get_elem?-set_other :
    {T : Type 0} (xs : List T) (i : ℕ) (v : T) (j : ℕ)
    → i ≢ j
    → get_elem? (set xs i v) j ≡ get_elem? xs j
get_elem?-set_other [] i v j n = refl
get_elem?-set_other (x ∷ xs) zero v zero n = absurd (n refl)
get_elem?-set_other (x ∷ xs) zero v (suc j) n = refl
get_elem?-set_other (x ∷ xs) (suc i) v zero n = refl
get_elem?-set_other (x ∷ xs) (suc i) v (suc j) n = get_elem?-set_other xs i v j (λ e. n (ap suc e))

pub length-set : {T : Type 0} (xs : List T) (i : ℕ) (v : T) → length (set xs i v) ≡ length xs
length-set [] i v = refl
length-set (x ∷ xs) zero v = refl
length-set (x ∷ xs) (suc i) v = ap suc (length-set xs i v)

pub get_elem?-end :
    {T : Type 0} (xs : List T) (v : T) (j : ℕ) {x : T}
    → get_elem? (xs ++ v ∷ []) j ≡ some x
    → (get_elem? xs j ≡ some x) × (j < length xs) ⊎ ((v ≡ x) × (j ≡ length xs))
get_elem?-end [] v zero h = inr (cc, refl)
get_elem?-end [] v (suc j) h = cc
get_elem?-end (y ∷ xs) v zero h = inl (h, omega arith)
get_elem?-end (y ∷ xs) v (suc j) h = elim (get_elem?-end xs v j h) [
  | inl (e, l) ↦ inl (e, omega (arith, l))
  | inr (e, l) ↦ inr (e, ap suc l)
]

pub drop-get_elem? :
    {T : Type 0} (xs : List T) (i : ℕ)
    → i < length xs
    → (x : T) × (get_elem? xs i ≡ some x) × (drop i xs ≡ x ∷ drop (suc i) xs)
drop-get_elem? [] i h = absurd (omega (arith, h))
drop-get_elem? (x ∷ xs) zero h = (x, refl, refl)
drop-get_elem? (x ∷ xs) (suc i) h =
    let (y, p, q) = drop-get_elem? xs i (omega (arith, h)) in (y, p, q)
