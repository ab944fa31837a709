-- ===== src/Loghub/Ring.antt =====
-- internal/loghub/hub.go: proofs on the ring buffer.
mod Places
use oops.Prelude.{
  ℕ, zero, suc, ◌+◌, ◌-◌, ◌%◌, ◌≤◌, ◌<◌, some, List, [], ◌∷◌, ◌++◌, false, ◌≡◌, ◌≢◌, ◌⊎◌, inl, inr,
  refl, sym, ap, ◌∙◌, arith, length, get_elem?, set, drop, replicate, ltb, ◌==◌, length-append,
  Bool-cases, subst, if◌then◌else◌, drop-all,
}
use native.Mathlib.Nat.{mod-lt, mod-add-mod, mod-eq_of_lt, mod-eq-sub-mod}
use oops.Loghub.{
  Hub, Options, Subscribed, new_with_options, push, window, snapshot, snapshot_size, subscribe,
  cancel, receive, close,
}
use oops.Loghub.Ring.Places.{
  apart, get_elem?-set_same, get_elem?-set_other, length-set, get_elem?-end, drop-get_elem?,
}

-- The newest of the entries `xs` stand in the ring.
pub record Holds {T : Type 0} (h : Hub T) (xs : List T) : Type 0 where
  pub at : 0 < length h.history → h.pos ≡ length xs
  pub fits : h.count ≤ length h.history
  pub short : h.count ≤ length xs
  pub full : (h.count ≡ length xs) ⊎ (h.count ≡ length h.history)
  pub newest :
      (j : ℕ) (x : T)
      → get_elem? xs j ≡ some x
      → length xs ≤ j + h.count
      → get_elem? h.history (j % length h.history) ≡ some x

module _ {T : Type 0} (entry : T) (h : Hub T) (going : h.closed ≡ false)
    (p : 0 < length h.history) where
  push-history : (push entry h).history ≡ set h.history (h.pos % length h.history) entry
  unfolding push
  push-history = ground (arith, going, p)

  push-pos : (push entry h).pos ≡ h.pos + 1
  unfolding push
  push-pos = ground (arith, going, p)

  push-count :
      ((push entry h).count ≡ h.count + 1) × (h.count < length h.history)
      ⊎ (((push entry h).count ≡ h.count) × (length h.history ≤ h.count))
  unfolding push
  push-count = ground (arith, going, p)

  push-length : length (push entry h).history ≡ length h.history
  push-length = ap length push-history ∙ length-set h.history (h.pos % length h.history) entry

  -- The new entry overwrites none of those that stay.
  push-newest :
      (xs : List T)
      → Holds h xs
      → (j : ℕ) (x : T) → get_elem? (xs ++ entry ∷ []) j ≡ some x
      → length (xs ++ entry ∷ []) ≤ j + (push entry h).count
      → get_elem? (set h.history (h.pos % length h.history) entry) (j % length h.history) ≡ some x
  push-newest xs v j x l near = elim (get_elem?-end xs entry j l) [
    | inr (same, last) ↦
        let here : h.pos ≡ j = v.at p ∙ sym last in
        subst
          (λ i.
            get_elem? (set h.history (h.pos % length h.history) entry) (i % length h.history)
            ≡ some x)
          here
          (get_elem?-set_same h.history (h.pos % length h.history) entry (mod-lt h.pos p)
            ∙ ap some same)
    | inl (old, below) ↦
        let window : length xs + 1 ≤ j + (push entry h).count =
          omega (arith, near, length-append xs (entry ∷ [])) in
        let kept : length xs ≤ j + h.count = ground (arith, window, push-count) in
        let turn : length xs - j < length h.history =
          ground (arith, window, push-count, v.fits, below) in
        let end : h.pos ≡ j + (length xs - j) = omega (arith, v.at p, below) in
        let other : (h.pos % length h.history) ≢ (j % length h.history) = λ e.
          apart j (length xs - j) (length h.history) (omega (arith, below)) turn
            (sym e ∙ ap (λ i. i % length h.history) end) in
        get_elem?-set_other h.history (h.pos % length h.history) entry (j % length h.history) other
        ∙ v.newest j x old kept
  ]

  push-Holds : (xs : List T) → Holds h xs → Holds (push entry h) (xs ++ entry ∷ [])
  push-Holds xs v =
      let longer = length-append xs (entry ∷ []) in
      record {
        at = λ q. push-pos ∙ omega (arith, v.at p, longer);
        fits = ground (arith, push-count, push-length, v.fits);
        short = ground (arith, push-count, longer, v.short);
        full = ground (arith, push-count, push-length, longer, v.full, v.short, v.fits);
        newest = λ j x l near.
            ap (λ n. get_elem? (push entry h).history (j % n)) push-length
            ∙ ap (λ m. get_elem? m (j % length h.history)) push-history
            ∙ push-newest xs v j x l near;
      }

-- A hub without history keeps nothing.
push-empty-Holds :
    {T : Type 0} (entry : T) (h : Hub T) (xs : List T)
    → h.closed ≡ false
    → length h.history ≡ 0
    → Holds h xs
    → Holds (push entry h) (xs ++ entry ∷ [])
unfolding push
push-empty-Holds entry h xs going z v =
    let same : ((push entry h).history ≡ h.history) × ((push entry h).count ≡ h.count) =
      ground (arith, going, z) in
    let none_kept : h.count ≡ 0 = omega (arith, v.fits, z) in
    record {
      at = λ q. absurd (omega (arith, q, ap length same.0, z));
      fits = omega (arith, same.1, none_kept);
      short = omega (arith, same.1, none_kept);
      full = inr (same.1 ∙ none_kept ∙ sym z ∙ sym (ap length same.0));
      newest = λ j x l near. elim (get_elem?-end xs entry j l) [
        | inl (old, below) ↦
            absurd (omega (arith, near, same.1, none_kept, below, length-append xs (entry ∷ [])))
        | inr (e, last) ↦
            absurd (omega (arith, near, same.1, none_kept, last, length-append xs (entry ∷ [])))
      ];
    }

-- Reading the ring gives the newest entries in order.
window-drop :
    {T : Type 0} (h : Hub T) (xs : List T)
    → Holds h xs
    → (n start : ℕ) → start + n ≡ length xs
    → length xs ≤ start + h.count
    → window h.history start n ≡ some (drop start xs)
unfolding window
window-drop h xs v zero start e near =
    let end : start ≡ length xs = omega (arith, e) in
    ap some (sym (ap (λ i. drop i xs) end ∙ drop-all xs))
window-drop h xs v (suc n) start e near =
    let (x, l, d) = drop-get_elem? xs start (omega (arith, e)) in
    let rest = window-drop h xs v n (start + 1) (omega (arith, e)) (omega (arith, near)) in
    let one : start + 1 ≡ suc start = omega arith in
    let next : drop (start + 1) xs ≡ drop (suc start) xs = ap (λ i. drop i xs) one in
    rw (v.newest start x l near, rest, next) (ap some (sym d))

pub snapshot-Holds :
    {T : Type 0} (tail : ℕ) (h : Hub T) (xs : List T)
    → Holds h xs
    → snapshot tail h ≡ some (drop (length xs - snapshot_size tail h) xs)
unfolding snapshot
snapshot-Holds tail h xs v = elim (Bool-cases (h.count == 0)) [
  | inl e ↦
      let z : snapshot_size tail h ≡ 0 = ground (arith, e) in
      let all_of : length xs - snapshot_size tail h ≡ length xs = omega (arith, z) in
      rw e (ap some (sym (ap (λ i. drop i xs) all_of ∙ drop-all xs)))
  | inr e ↦
      let most : snapshot_size tail h ≤ h.count = ground (arith, e) in
      let end : h.pos ≡ length xs = v.at (ground (arith, e, v.fits)) in
      let w =
        window-drop h xs v (snapshot_size tail h) (length xs - snapshot_size tail h)
          (omega (arith, most, v.short)) (omega (arith, most)) in
      rw e (ap (λ i. window h.history (i - snapshot_size tail h) (snapshot_size tail h)) end ∙ w)
]

-- The calls on a hub, with the entries that it was given since it was made, or none once it is closed.
pub data Trace {T : Type 0} (zero_value : T) (options : Options) : List T → Hub T → Type 0 where
  start : Trace zero_value options [] (new_with_options zero_value options)
  pushed :
      (entry : T) {xs : List T} {h : Hub T}
      → Trace zero_value options xs h
      → Trace zero_value options (if h.closed then xs else xs ++ entry ∷ []) (push entry h)
  subscribed :
      (tail : ℕ) {xs : List T} {h : Hub T} {r : Subscribed T × Hub T}
      → Trace zero_value options xs h
      → subscribe tail h ≡ some r
      → Trace zero_value options xs r.1
  cancelled :
      (key : ℕ) {xs : List T} {h : Hub T}
      → Trace zero_value options xs h
      → Trace zero_value options xs (cancel key h)
  was_read :
      (key : ℕ) {xs : List T} {h : Hub T}
      → Trace zero_value options xs h
      → Trace zero_value options xs (receive key h)
  was_closed :
      {xs : List T} {h : Hub T}
      → Trace zero_value options xs h
      → Trace zero_value options (if h.closed then xs else []) (close h)

-- The subscribers are no part of `Holds`.
same_ring-Holds :
    {T : Type 0} (h k : Hub T) (xs : List T)
    → k.history ≡ h.history
    → k.pos ≡ h.pos
    → k.count ≡ h.count
    → Holds h xs
    → Holds k xs
same_ring-Holds h k xs a b c v = record {
  at = λ q. b ∙ v.at (subst (λ l. 0 < length l) a q);
  fits = omega (arith, c, ap length a, v.fits);
  short = omega (arith, c, v.short);
  full = ground (arith, c, ap length a, v.full);
  newest = λ j x l near. rw a (v.newest j x l (omega (arith, near, c)));
}

closed-Holds : {T : Type 0} (h : Hub T) → h.closed ≡ false → Holds (close h) []
unfolding close
closed-Holds h going = simp going (record {
  at = λ q. absurd (omega (arith, q));
  fits = omega arith;
  short = omega arith;
  full = inl refl;
  newest = λ j x l near. cc;
})

subscribe-ring :
    {T : Type 0} (tail : ℕ) (h : Hub T) {r : Subscribed T × Hub T}
    → subscribe tail h ≡ some r
    → (r.1.history ≡ h.history) × (r.1.pos ≡ h.pos) × (r.1.count ≡ h.count)
unfolding subscribe
subscribe-ring tail h e = ground arith

cancel-Holds :
    {T : Type 0} (key : ℕ) (h : Hub T) (xs : List T) → Holds h xs → Holds (cancel key h) xs
unfolding cancel
cancel-Holds key h xs v = same_ring-Holds h (cancel key h) xs refl refl refl v

receive-Holds :
    {T : Type 0} (key : ℕ) (h : Hub T) (xs : List T) → Holds h xs → Holds (receive key h) xs
unfolding receive
receive-Holds key h xs v = same_ring-Holds h (receive key h) xs refl refl refl v

Trace-Holds :
    {T : Type 0} {zero_value : T} {options : Options} {xs : List T} {h : Hub T}
    → Trace zero_value options xs h
    → Holds h xs
Trace-Holds {T} {zero_value} {options} start =
    unfold new_with_options in
    record {
      at = λ q. refl;
      fits = omega arith;
      short = omega arith;
      full = inl refl;
      newest = λ j x l near. cc;
    }
Trace-Holds (pushed entry {xs} {h} t) = elim (Bool-cases h.closed) [
  | inl shut ↦
      let same : push entry h ≡ h = unfold push in ground arith in
      simp shut (subst (λ k. Holds k xs) (sym same) (Trace-Holds t))
  | inr going ↦ elim (Bool-cases (ltb 0 (length h.history))) [
    | inl p ↦ simp going (push-Holds entry h going (ground (arith, p)) xs (Trace-Holds t))
    | inr p ↦ simp going (push-empty-Holds entry h xs going (ground (arith, p)) (Trace-Holds t))
  ]
]
Trace-Holds (subscribed tail {xs} {h} {r} t e) =
    let (a, b, c) = subscribe-ring tail h e in same_ring-Holds h r.1 xs a b c (Trace-Holds t)
Trace-Holds (cancelled key {xs} {h} t) = cancel-Holds key h xs (Trace-Holds t)
Trace-Holds (was_read key {xs} {h} t) = receive-Holds key h xs (Trace-Holds t)
Trace-Holds (was_closed {xs} {h} t) = elim (Bool-cases h.closed) [
  | inl shut ↦
      let same : close h ≡ h = unfold close in ground arith in
      simp shut (subst (λ k. Holds k xs) (sym same) (Trace-Holds t))
  | inr going ↦ simp going (closed-Holds h going)
]

-- After any calls on a hub, `Snapshot` reads the ring without an index out of range and returns
-- the newest of the entries pushed (none once the hub is closed), in order, as many as
-- `snapshot_size` says; and the hub counts either all entries pushed or as many as the ring has
-- places.
pub Trace-snapshot :
    {T : Type 0} {zero_value : T} {options : Options} {xs : List T} {h : Hub T} (tail : ℕ)
    → Trace zero_value options xs h
    → (snapshot tail h ≡ some (drop (length xs - snapshot_size tail h) xs))
      × ((h.count ≡ length xs) ⊎ (h.count ≡ length h.history))
Trace-snapshot {T} {zero_value} {options} {xs} {h} tail t =
    (snapshot-Holds tail h xs (Trace-Holds t), (Trace-Holds t).full)
