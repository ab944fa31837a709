-- ===== src/Prelude/Lists.antt =====
-- Lists measured by native numbers, under the library's names, and lists of texts read as sets.
use Prim.Native.Nat.{ℕ, zero, suc, ◌+◌, ◌-◌, ◌≤◌, ◌<◌, min}
use Prim.Native.String.{String}
use mathlib.Core.Path.{◌≡◌, refl, ap, subst}
use mathlib.Core.Bool.{Bool, true, false, ◌||◌, ◌&&◌, not}
use mathlib.Core.List.{List, [], ◌∷◌, ◌++◌}
use mathlib.Core.Option.{Option, none, some}
use native.Mathlib.Omega.{arith}
use text.Mathlib.TextEquality.{eq_iff}
use oops.Prelude.Tests.{str_eq, if◌then◌else◌}

module _ {ℓ} {A : Type ℓ} where
  abbrev pub length : List A → ℕ
  length [] = 0
  length (x ∷ xs) = suc (length xs)

  abbrev pub get_elem? : List A → ℕ → Option A
  get_elem? [] i = none
  get_elem? (x ∷ xs) zero = some x
  get_elem? (x ∷ xs) (suc i) = get_elem? xs i

  -- A write out of bounds changes nothing.
  abbrev pub set : List A → ℕ → A → List A
  set [] i v = []
  set (x ∷ xs) zero v = v ∷ xs
  set (x ∷ xs) (suc i) v = x ∷ set xs i v

  abbrev pub take : ℕ → List A → List A
  take zero xs = []
  take (suc n) [] = []
  take (suc n) (x ∷ xs) = x ∷ take n xs

  abbrev pub drop : ℕ → List A → List A
  drop zero xs = xs
  drop (suc n) [] = []
  drop (suc n) (x ∷ xs) = drop n xs

  abbrev pub replicate : ℕ → A → List A
  replicate zero a = []
  replicate (suc n) a = a ∷ replicate n a

  abbrev pub find : (A → Bool) → List A → Option A
  find p [] = none
  find p (x ∷ xs) = if p x then some x else find p xs

  abbrev pub keep : (A → Bool) → List A → List A
  keep p [] = []
  keep p (x ∷ xs) = let rest = keep p xs in if p x then x ∷ rest else rest

module _ {ℓ} {A : Type ℓ} where
  pub length-append : (xs ys : List A) → length (xs ++ ys) ≡ length xs + length ys
  length-append [] ys = omega arith
  length-append (x ∷ xs) ys = omega (arith, length-append xs ys)

  pub length-take : (n : ℕ) (xs : List A) → length (take n xs) ≡ min n (length xs)
  length-take zero xs = omega arith
  length-take (suc n) [] = omega arith
  length-take (suc n) (x ∷ xs) = omega (arith, length-take n xs)

  pub length-drop : (n : ℕ) (xs : List A) → length (drop n xs) ≡ length xs - n
  length-drop zero xs = omega arith
  length-drop (suc n) [] = omega arith
  length-drop (suc n) (x ∷ xs) = omega (arith, length-drop n xs)

  pub take-append-drop : (n : ℕ) (xs : List A) → take n xs ++ drop n xs ≡ xs
  take-append-drop zero xs = refl
  take-append-drop (suc n) [] = refl
  take-append-drop (suc n) (x ∷ xs) = ap (λ l. x ∷ l) (take-append-drop n xs)

  pub drop-all : (xs : List A) → drop (length xs) xs ≡ []
  drop-all [] = refl
  drop-all (x ∷ xs) = drop-all xs

-- A predicate on every element, by recursion.
abbrev pub All {ℓ κ} : {A : Type ℓ} → (A → Type κ) → List A → Type κ
All P [] = Unit
All P (x ∷ xs) = P x × All P xs

pub All-append {ℓ κ} :
    {A : Type ℓ} (P : A → Type κ) (front back : List A)
    → All P front
    → All P back
    → All P (front ++ back)
All-append P [] back p q = q
All-append P (a ∷ front) back p q = (p.0, All-append P front back p.1 q)

-- Go's `map[string]bool` used as a set: `contains` is the read, `add` the write of `true`.
abbrev pub contains : String → List String → Bool
contains k [] = false
contains k (j ∷ js) = str_eq j k || contains k js

abbrev pub add : String → List String → List String
add k ks = if contains k ks then ks else k ∷ ks

contains_same :
    (k j : String) (ks : List String)
    → str_eq k j ≡ true
    → contains k ks ≡ true
    → contains j ks ≡ true
contains_same k j ks e h = subst (λ i. contains i ks ≡ true) ((eq_iff k j).0 e) h

pub contains-add :
    (k j : String) (ks : List String) → contains j (add k ks) ≡ (str_eq k j || contains j ks)
contains-add k j ks = ground (arith, contains_same k j ks)

-- The texts are pairwise different.
abbrev pub distinct : List String → Bool
distinct [] = true
distinct (k ∷ ks) = not (contains k ks) && distinct ks

abbrev pub all_in : List String → List String → Bool
all_in expected [] = true
all_in expected (id ∷ ids) = contains id expected && all_in expected ids

-- Without any `k`.
abbrev erase : String → List String → List String
erase k [] = []
erase k (j ∷ js) = let rest = erase k js in if str_eq j k then rest else j ∷ rest

contains-erase :
    (k j : String) (js : List String)
    → contains j (erase k js) ≡ (contains j js && not (str_eq k j))
contains-erase k j [] = refl
contains-erase k j (i ∷ js) =
    ground (arith, contains-erase k j js, eq_iff i k, eq_iff k j, eq_iff i j)

length-erase_le : (k : String) (js : List String) → length (erase k js) ≤ length js
length-erase_le k [] = omega arith
length-erase_le k (i ∷ js) = ground (arith, length-erase_le k js)

length-erase :
    (k : String) (js : List String) → contains k js ≡ true → length (erase k js) < length js
length-erase k (i ∷ js) h = ground (arith, length-erase k js, length-erase_le k js)
length-erase k [] h = cc

all_in-erase :
    (k : String) (js ids : List String)
    → contains k ids ≡ false
    → all_in js ids ≡ true
    → all_in (erase k js) ids ≡ true
all_in-erase k js [] f h = refl
all_in-erase k js (id ∷ ids) f h =
    ground (arith, contains-erase k id js, all_in-erase k js ids, eq_iff id k, eq_iff k id)

-- Different members of a list are not more than the list has.
pub pigeonhole :
    (js ids : List String) → distinct ids ≡ true → all_in js ids ≡ true → length ids ≤ length js
pigeonhole js [] d h = omega arith
pigeonhole js (id ∷ ids) d h =
    ground (arith, length-erase id js, all_in-erase id js ids, pigeonhole (erase id js) ids)

pub contains-append :
    (k : String) (xs ys : List String) → contains k (xs ++ ys) ≡ (contains k xs || contains k ys)
contains-append k [] ys = refl
contains-append k (x ∷ xs) ys = ground (arith, contains-append k xs ys)

pub distinct-snoc :
    (xs : List String) (k : String)
    → distinct xs ≡ true
    → contains k xs ≡ false
    → distinct (xs ++ k ∷ []) ≡ true
distinct-snoc [] k d f = refl
distinct-snoc (x ∷ xs) k d f =
    ground (arith, distinct-snoc xs k, contains-append x xs (k ∷ []), eq_iff x k, eq_iff k x)

pub All-snoc {ℓ κ} :
    {A : Type ℓ} (P : A → Type κ) (xs : List A) (x : A) → All P (xs ++ x ∷ []) → All P xs × P x
All-snoc P [] x h = (tt, h.0)
All-snoc P (y ∷ ys) x h = let t = All-snoc P ys x h.1 in ((h.0, t.0), t.1)
