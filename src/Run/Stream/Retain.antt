-- ===== src/Run/Stream/Retain.antt =====
-- internal/api/run_manager.go: proofs on the loop of `publish` that drops the oldest frames.
use oops.Prelude.{
  ℕ, ◌+◌, ◌-◌, ◌≤◌, ◌<◌, some, List, [], ◌∷◌, ◌++◌, ◌≡◌, ◌⊎◌, inl, inr, refl, sym, ap, ◌∙◌, arith,
  length, leb, length-append, Bool-cases,
}
use mathlib.Core.List.{append_assoc}
use oops.Run.Stream.{RunLimits, RunFrame, size, Retained, is_over, evict, retain, with_frame}

unfoldable pub total : List RunFrame → ℕ
total [] = 0
total (f ∷ rest) = size f + total rest

total-append : (xs ys : List RunFrame) → total (xs ++ ys) ≡ total xs + total ys
unfolding total
total-append [] ys = omega arith
total-append (x ∷ xs) ys = omega (arith, total-append xs ys)

-- The counters count the history.
pub record IsCounted (h : Retained) : Type 0 where
  pub events : h.events ≡ length h.history
  pub bytes : h.bytes ≡ total h.history

pub record IsWithin (limits : RunLimits) (h : Retained) : Type 0 where
  pub events : h.events ≤ limits.max_retained_events
  pub bytes : h.bytes ≤ limits.max_retained_bytes

-- What the loop leaves: the newest frames, and room for one more.
pub record Evicted (limits : RunLimits) (added : ℕ) (history : List RunFrame) (kept : Retained)
    : Type 0 where
  pub counted : IsCounted kept
  pub room_events : kept.events + 1 ≤ limits.max_retained_events
  pub room_bytes : kept.bytes + added ≤ limits.max_retained_bytes
  pub dropped : List RunFrame
  pub newest : dropped ++ kept.history ≡ history

module _ (limits : RunLimits) (added : ℕ) (one : 0 < limits.max_retained_events)
    (fits : added ≤ limits.max_retained_bytes) where
  evict_leaves :
      (history : List RunFrame) (events bytes : ℕ)
      → events ≡ length history
      → bytes ≡ total history
      → (kept : Retained) × (evict limits added history events bytes ≡ some kept)
        × Evicted limits added history kept
  unfolding evict total
  evict_leaves [] events bytes e b = elim (Bool-cases (is_over limits added events bytes)) [
    | inl over ↦ absurd (ground (arith, over, e, b, one, fits))
    | inr fine ↦ (
      record { history = []; events = events; bytes = bytes },
      rw fine refl,
      record {
        counted = record { events = e; bytes = b };
        room_events = ground (arith, e, one);
        room_bytes = ground (arith, b, fits);
        dropped = [];
        newest = refl;
      },
    )
  ]
  evict_leaves (f ∷ history) events bytes e b =
      elim (Bool-cases (is_over limits added events bytes)) [
        | inl over ↦
            let (kept, p, q) =
              evict_leaves history (events - 1) (bytes - size f) (omega (arith, e))
                (omega (arith, b)) in
            (
              kept,
              rw over p,
              record {
                counted = q.counted;
                room_events = q.room_events;
                room_bytes = q.room_bytes;
                dropped = f ∷ q.dropped;
                newest = ap (λ l. f ∷ l) q.newest;
              },
            )
        | inr fine ↦ (
          record { history = f ∷ history; events = events; bytes = bytes },
          rw fine refl,
          record {
            counted = record { events = e; bytes = b };
            room_events = ground (arith, fine);
            room_bytes = ground (arith, fine);
            dropped = [];
            newest = refl;
          },
        )
      ]

-- What `publish` keeps: the newest frames and, where it fits, the new one.
pub record Kept (limits : RunLimits) (frame : RunFrame) (h k : Retained) : Type 0 where
  pub counted : IsCounted k
  pub within : IsWithin limits k
  pub dropped : List RunFrame
  pub newest :
      (dropped ++ k.history ≡ h.history ++ frame ∷ [])
      ⊎ ((limits.max_retained_bytes < size frame) × (k ≡ h))

pub retain_keeps :
    (limits : RunLimits) (frame : RunFrame) (h : Retained)
    → 0 < limits.max_retained_events
    → IsCounted h
    → IsWithin limits h
    → (k : Retained) × (retain limits frame h ≡ some k) × Kept limits frame h k
unfolding retain
retain_keeps limits frame h one c w =
    elim (Bool-cases (leb (size frame) limits.max_retained_bytes)) [
      | inr large ↦ (
        h,
        rw large refl,
        record {
          counted = c;
          within = w;
          dropped = [];
          newest = inr (ground (arith, large), refl);
        },
      )
      | inl fits ↦
          let (kept, p, q) =
            evict_leaves limits (size frame) one (ground (arith, fits)) h.history h.events h.bytes
              c.events c.bytes in
          (
            with_frame frame kept,
            rw (fits, p) refl,
            record {
              counted = record {
                events = omega (arith, q.counted.events, length-append kept.history (frame ∷ []));
                bytes =
                    unfold total in
                    omega (arith, q.counted.bytes, total-append kept.history (frame ∷ []));
              };
              within = record { events = q.room_events; bytes = q.room_bytes };
              dropped = q.dropped;
              newest = inl (
                  sym (append_assoc q.dropped kept.history (frame ∷ []))
                  ∙ ap (λ l. l ++ frame ∷ []) q.newest);
            },
          )
    ]
