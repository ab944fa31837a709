-- ===== src/Run/Stream/Live.antt =====
-- internal/api/run_manager.go: proofs on the loops over the subscribers of a run.
pub mod Bounded
use oops.Prelude.{
  ℕ, zero, suc, ◌+◌, ◌-◌, ◌≤◌, ◌<◌, List, [], ◌∷◌, ◌++◌, Bool, true, false, not, ◌||◌, ◌&&◌, ◌==◌,
  ltb, ◌≡◌, ◌⊎◌, inl, inr, refl, arith, Bool-cases, All, subst, if◌then◌else◌, ◌∙◌,
}
use mathlib.Core.List.{Permᴰ}
use oops.Run.Stream.{
  RunLimits, RunFrame, RunSubscriber, size, is_full, less, detached, each, attached_count,
  remove_one, enqueue_one, finish_one, acknowledge_one, remove_key,
}

unfoldable pub pending : List RunSubscriber → ℕ
pending [] = 0
pending (s ∷ rest) = s.pending_bytes + pending rest

-- The events and bytes pending for a subscriber are within the limits, and none are pending for
-- one that is detached.
pub record IsBounded (limits : RunLimits) (s : RunSubscriber) : Type 0 where
  pub events : s.pending_events ≤ limits.max_subscriber_queue_events
  pub bytes : s.pending_bytes ≤ limits.max_subscriber_queue_bytes
  pub gone : s.attached ≡ false → (s.pending_events ≡ 0) × (s.pending_bytes ≡ 0)

-- What each loop does with one subscriber, where `others` is pending elsewhere.
abbrev pub Keeps : RunLimits → (ℕ → RunSubscriber → RunSubscriber × ℕ) → Type 0
Keeps limits f =
    (others : ℕ) (s : RunSubscriber)
    → IsBounded limits s
    → others + s.pending_bytes ≤ limits.max_live_queue_bytes
    → IsBounded limits (f (others + s.pending_bytes) s).0
      × ((f (others + s.pending_bytes) s).1
          ≡ others + (f (others + s.pending_bytes) s).0.pending_bytes)
      × ((f (others + s.pending_bytes) s).1 ≤ limits.max_live_queue_bytes)
      × (s.attached ≡ false → (f (others + s.pending_bytes) s).0.attached ≡ false)

module _ (limits : RunLimits) where
  pub remove_one-Keeps : Keeps limits remove_one
  unfolding remove_one
  remove_one-Keeps others s b h = (
    record {
      events = ground (arith, b.events);
      bytes = ground (arith, b.bytes);
      gone = λ q. (ground (arith, b.gone), ground (arith, b.gone));
    },
    ground (arith, b.gone),
    ground (arith, b.gone),
    λ off. ground arith,
  )

  pub enqueue_one-Keeps : (frame : RunFrame) → Keeps limits (enqueue_one limits frame)
  unfolding enqueue_one remove_one
  enqueue_one-Keeps frame others s b h = (
    record {
      events = ground (arith, b.events);
      bytes = ground (arith, b.bytes);
      gone = λ q. (ground (arith, b.gone), ground (arith, b.gone));
    },
    ground (arith, b.gone),
    ground (arith, b.gone),
    λ off. ground arith,
  )

  pub acknowledge_one-Keeps : (key acked : ℕ) → Keeps limits (acknowledge_one key acked)
  unfolding acknowledge_one
  acknowledge_one-Keeps key acked others s b h = (
    record {
      events = ground (arith, b.events);
      bytes = ground (arith, b.bytes);
      gone = λ q. (ground (arith, b.gone), ground (arith, b.gone));
    },
    ground (arith, b.gone),
    ground (arith, b.gone),
    λ off. ground arith,
  )

  pub remove_key-Keeps : (key : ℕ) → Keeps limits (remove_key key)
  unfolding remove_key
  remove_key-Keeps key others s b h = elim (Bool-cases (s.key == key)) [
    | inl e ↦ rw e (remove_one-Keeps others s b h)
    | inr e ↦ rw e (b, refl, h, λ off. off)
  ]

  pub finish_one-Keeps : (frame : RunFrame) → Keeps limits (finish_one limits frame)
  unfolding finish_one
  finish_one-Keeps frame others s b h =
      let t = enqueue_one limits frame (others + s.pending_bytes) s in
      let (bounded, now, most, off) = enqueue_one-Keeps frame others s b h in
      let (bounded', now', most', off') =
        remove_one-Keeps others t.0 bounded
          (subst (λ n. n ≤ limits.max_live_queue_bytes) now most) in
      rw now (bounded', now', most', λ q. off' (off q))

  -- So does a loop over all of them.
  pub each-Keeps :
      (f : ℕ → RunSubscriber → RunSubscriber × ℕ)
      → Keeps limits f
      → (others : ℕ) (subscribers : List RunSubscriber) → All (IsBounded limits) subscribers
      → others + pending subscribers ≤ limits.max_live_queue_bytes
      → All (IsBounded limits) (each f (others + pending subscribers) subscribers).0
        × ((each f (others + pending subscribers) subscribers).1
            ≡ others + pending (each f (others + pending subscribers) subscribers).0)
        × ((each f (others + pending subscribers) subscribers).1 ≤ limits.max_live_queue_bytes)
        × (attached_count (each f (others + pending subscribers) subscribers).0
            ≤ attached_count subscribers)
  unfolding each pending attached_count
  each-Keeps f k others [] b h = (tt, refl, h, omega arith)
  each-Keeps f k others (s ∷ rest) b h =
      let front : others + (s.pending_bytes + pending rest)
          ≡ (others + pending rest) + s.pending_bytes =
        omega arith in
      let (bs, now, most, off) =
        k (others + pending rest) s b.0 (subst (λ n. n ≤ limits.max_live_queue_bytes) front h) in
      let t = f ((others + pending rest) + s.pending_bytes) s in
      let back : t.1 ≡ (others + t.0.pending_bytes) + pending rest = omega (arith, now) in
      let (bs', now', most', fewer) =
        each-Keeps f k (others + t.0.pending_bytes) rest b.1
          (subst (λ n. n ≤ limits.max_live_queue_bytes) back most) in
      rw (front, back) ((bs, bs'), omega (arith, now'), most', ground (arith, fewer, off))

-- What holds of the subscribers in one order holds in any other.
pub Perm-All {κ} :
    (P : RunSubscriber → Type κ) {xs ys : List RunSubscriber} → Permᴰ xs ys → All P xs → All P ys
Perm-All P Permᴰ.nil h = h
Perm-All P (Permᴰ.cons e p) h = (subst P e h.0, Perm-All P p h.1)
Perm-All P (Permᴰ.swap e f) h = (subst P f h.1.0, (subst P e h.0, h.1.1))
Perm-All P (Permᴰ.trans p q) h = Perm-All P q (Perm-All P p h)

pub Perm-pending : {xs ys : List RunSubscriber} → Permᴰ xs ys → pending xs ≡ pending ys
unfolding pending
Perm-pending Permᴰ.nil = refl
Perm-pending (Permᴰ.cons e p) = rw e (omega (arith, Perm-pending p))
Perm-pending (Permᴰ.swap e f) = rw (e, f) (omega arith)
Perm-pending (Permᴰ.trans p q) = Perm-pending p ∙ Perm-pending q

pub Perm-attached_count :
    {xs ys : List RunSubscriber} → Permᴰ xs ys → attached_count xs ≡ attached_count ys
unfolding attached_count
Perm-attached_count Permᴰ.nil = refl
Perm-attached_count (Permᴰ.cons e p) = rw e (ground (arith, Perm-attached_count p))
Perm-attached_count (Permᴰ.swap e f) = rw (e, f) (ground arith)
Perm-attached_count (Permᴰ.trans p q) = Perm-attached_count p ∙ Perm-attached_count q
