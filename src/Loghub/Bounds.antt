-- ===== src/Loghub/Bounds.antt =====
-- internal/loghub/hub.go: proofs on the subscribers.
use oops.Prelude.{
  ℕ, ◌≤◌, List, [], ◌∷◌, Bool, false, ◌≡◌, ◌⊎◌, inl, inr, sym, refl, arith, length, keep, ltb, leb,
  not, ◌==◌, length-append, length-drop, Bool-cases, All, subst, some, Option-cases,
}
use oops.Loghub.{
  Hub, Subscription, Options, Subscribed, new_with_options, send, push, snapshot, subscribe,
  registered, cancel, receive, received_by, close,
}
use oops.Loghub.Ring.{Trace, start, pushed, subscribed, cancelled, was_read, was_closed}

abbrev pub Fits : {T : Type 0} → Subscription T → Type 0
Fits s = length s.queue ≤ s.capacity

pub record IsBounded {T : Type 0} (h : Hub T) : Type 0 where
  pub admitted : length h.subscribers ≤ h.max_subscribers
  pub queued : All Fits h.subscribers

send-Fits :
    {T : Type 0} (entry : T) (subs : List (Subscription T))
    → All Fits subs
    → All Fits (send entry subs) × (length (send entry subs) ≤ length subs)
unfolding send
send-Fits entry [] a = (tt, omega arith)
send-Fits entry (s ∷ rest) a =
    let (fits, fewer) = send-Fits entry rest a.1 in
    elim (Bool-cases (ltb (length s.queue) s.capacity)) [
      | inl room ↦
          simp room
            ((ground (arith, room, length-append s.queue (entry ∷ [])), fits), omega (arith, fewer))
      | inr full ↦ simp full (fits, omega (arith, fewer))
    ]

keep-Fits :
    {T : Type 0} (p : Subscription T → Bool) (subs : List (Subscription T))
    → All Fits subs
    → All Fits (keep p subs) × (length (keep p subs) ≤ length subs)
keep-Fits p [] a = (tt, omega arith)
keep-Fits p (s ∷ rest) a =
    let (fits, fewer) = keep-Fits p rest a.1 in
    elim (Bool-cases (p s)) [
      | inl e ↦ simp e ((a.0, fits), omega (arith, fewer))
      | inr e ↦ simp e (fits, omega (arith, fewer))
    ]

push-IsBounded : {T : Type 0} (entry : T) (h : Hub T) → IsBounded h → IsBounded (push entry h)
unfolding push
push-IsBounded entry h v = elim (Bool-cases h.closed) [
  | inl e ↦ simp e v
  | inr e ↦
      let (fits, fewer) = send-Fits entry h.subscribers v.queued in
      simp e (record { admitted = omega (arith, fewer, v.admitted); queued = fits })
]

subscribe-cases :
    {T : Type 0} (tail : ℕ) (h : Hub T) {r : Subscribed T × Hub T}
    → subscribe tail h ≡ some r
    → (r.1 ≡ h)
      ⊎ ((replay : List T) × (r.1 ≡ registered replay h)
          × (leb h.max_subscribers (length h.subscribers) ≡ false))
unfolding subscribe
subscribe-cases tail h {r} e = elim (Bool-cases h.closed) [
  | inl shut ↦ let p : r.1 ≡ h = ground arith in inl p
  | inr going ↦ elim (Bool-cases (leb h.max_subscribers (length h.subscribers))) [
    | inl full ↦ let p : r.1 ≡ h = ground arith in inl p
    | inr room ↦ elim (Option-cases (snapshot tail h)) [
      | inl panic ↦ absurd (ground arith)
      | inr (replay, l) ↦ let p : r.1 ≡ registered replay h = ground arith in inr (replay, p, room)
    ]
  ]
]

subscribe-IsBounded :
    {T : Type 0} (tail : ℕ) (h : Hub T) {r : Subscribed T × Hub T}
    → subscribe tail h ≡ some r
    → IsBounded h
    → IsBounded r.1
subscribe-IsBounded tail h e v = elim (subscribe-cases tail h e) [
  | inl p ↦ subst IsBounded (sym p) v
  | inr (replay, p, room) ↦
      subst IsBounded (sym p)
        (record { admitted = ground (arith, room); queued = (omega arith, v.queued) })
]

cancel-IsBounded : {T : Type 0} (key : ℕ) (h : Hub T) → IsBounded h → IsBounded (cancel key h)
unfolding cancel
cancel-IsBounded key h v =
    let (fits, fewer) = keep-Fits (λ sub. not (sub.key == key)) h.subscribers v.queued in
    record { admitted = omega (arith, fewer, v.admitted); queued = fits }

received_by-Fits :
    {T : Type 0} (key : ℕ) (subs : List (Subscription T))
    → All Fits subs
    → All Fits (received_by key subs) × (length (received_by key subs) ≡ length subs)
unfolding received_by
received_by-Fits key [] a = (tt, refl)
received_by-Fits key (s ∷ rest) a =
    let (fits, same) = received_by-Fits key rest a.1 in
    elim (Bool-cases (s.key == key)) [
      | inl e ↦ simp e ((omega (arith, a.0, length-drop 1 s.queue), a.1), refl)
      | inr e ↦ simp e ((a.0, fits), omega (arith, same))
    ]

receive-IsBounded : {T : Type 0} (key : ℕ) (h : Hub T) → IsBounded h → IsBounded (receive key h)
unfolding receive
receive-IsBounded key h v =
    let (fits, same) = received_by-Fits key h.subscribers v.queued in
    record { admitted = omega (arith, same, v.admitted); queued = fits }

close-IsBounded : {T : Type 0} (h : Hub T) → IsBounded h → IsBounded (close h)
unfolding close
close-IsBounded h v = elim (Bool-cases h.closed) [
  | inl e ↦ simp e v
  | inr e ↦ simp e (record { admitted = omega arith; queued = tt })
]

new-IsBounded :
    {T : Type 0} (zero_value : T) (options : Options)
    → IsBounded (new_with_options zero_value options)
unfolding new_with_options
new-IsBounded zero_value options = record { admitted = omega arith; queued = tt }

-- After any calls on a hub, no more than `maxSubscribers` are subscribed, and no subscriber has
-- more entries waiting than its queue has room for.
pub Trace-IsBounded :
    {T : Type 0} {zero_value : T} {options : Options} {xs : List T} {h : Hub T}
    → Trace zero_value options xs h
    → IsBounded h
Trace-IsBounded {T} {zero_value} {options} start = new-IsBounded zero_value options
Trace-IsBounded (pushed entry {xs} {h} t) = push-IsBounded entry h (Trace-IsBounded t)
Trace-IsBounded (subscribed tail {xs} {h} t e) = subscribe-IsBounded tail h e (Trace-IsBounded t)
Trace-IsBounded (cancelled key {xs} {h} t) = cancel-IsBounded key h (Trace-IsBounded t)
Trace-IsBounded (was_read key {xs} {h} t) = receive-IsBounded key h (Trace-IsBounded t)
Trace-IsBounded (was_closed {xs} {h} t) = close-IsBounded h (Trace-IsBounded t)
