-- ===== src/Run/Stream/Live/Bounded.antt =====
-- internal/api/run_manager.go: the calls on a run as steps, and the proofs on every run that
-- they reach.
use oops.Prelude.{
  ℕ, ◌+◌, ◌≤◌, ◌<◌, some, List, [], ◌∷◌, ◌++◌, false, ◌≡◌, inl, inr, refl, arith, length, leb,
  length-append, Bool-cases, All, All-append, subst, ◌∙◌,
}
use mathlib.Core.List.{Permᴰ}
use oops.Run.Stream.{
  RunLimits, RunState, RunFrame, RunSubscriber, retained, new_run, new_subscriber, attached_count,
  each, enqueue_one, subscribe, publish, publish_terminal, acknowledge, remove_subscriber, stored,
  on_subscribers,
}
use oops.Run.Stream.Retain.{IsCounted, IsWithin, retain_keeps, total}
use oops.Run.Stream.Live.{
  IsBounded, Keeps, pending, each-Keeps, enqueue_one-Keeps, finish_one-Keeps, acknowledge_one-Keeps,
  remove_key-Keeps, Perm-All, Perm-pending, Perm-attached_count,
}

-- The subscribers of a run, and the bytes that wait for them.
pub record IsLive (limits : RunLimits) (bytes : ℕ) (subscribers : List RunSubscriber) : Type 0 where
  pub each_bounded : All (IsBounded limits) subscribers
  pub counted : bytes ≡ pending subscribers
  pub bounded : bytes ≤ limits.max_live_queue_bytes
  pub admitted : attached_count subscribers ≤ limits.max_subscribers

-- A run that is done keeps one frame more, the last.
pub record IsRun (limits : RunLimits) (r : RunState) : Type 0 where
  pub subscribers : IsLive limits r.live_queue_bytes r.subscribers
  pub replay : length r.history ≤ limits.max_retained_events + 1
  pub counted : r.done ≡ false → IsCounted (retained r)
  pub within : IsWithin limits (retained r)

-- A map is walked in any order, so the subscribers may change places between two calls.
pub data Step (limits : RunLimits) : RunState → RunState → Type 0 where
  subscribed : (r : RunState) → Step limits r (subscribe limits r).1
  published : (bytes : List ℕ) {r t : RunState} → publish limits bytes r ≡ some t → Step limits r t
  finished : (bytes : List ℕ) (r : RunState) → Step limits r (publish_terminal limits bytes r)
  acknowledged : (key acked : ℕ) (r : RunState) → Step limits r (acknowledge key acked r)
  removed : (key : ℕ) (r : RunState) → Step limits r (remove_subscriber key r)
  reordered :
      (r : RunState) {xs : List RunSubscriber}
      → Permᴰ r.subscribers xs
      → Step limits r (record r { subscribers = xs })

pub data Reach (limits : RunLimits) : RunState → Type 0 where
  start : Reach limits new_run
  then_step : {r t : RunState} → Reach limits r → Step limits r t → Reach limits t

module _ (limits : RunLimits) where
  each-IsLive :
      (f : ℕ → RunSubscriber → RunSubscriber × ℕ) (bytes : ℕ) (subscribers : List RunSubscriber)
      → Keeps limits f
      → IsLive limits bytes subscribers
      → IsLive limits (each f bytes subscribers).1 (each f bytes subscribers).0
  each-IsLive f bytes subscribers k v =
      let zeroed : bytes ≡ 0 + pending subscribers = omega (arith, v.counted) in
      let (b, c, m, a) =
        each-Keeps limits f k 0 subscribers v.each_bounded (omega (arith, v.counted, v.bounded)) in
      rw zeroed (record {
        each_bounded = b;
        counted = omega (arith, c);
        bounded = m;
        admitted = omega (arith, a, v.admitted);
      })

  on_subscribers-IsRun :
      (f : ℕ → RunSubscriber → RunSubscriber × ℕ) (r : RunState)
      → Keeps limits f
      → IsRun limits r
      → IsRun limits (on_subscribers f r)
  on_subscribers-IsRun f r k v = record {
    subscribers = each-IsLive _ r.live_queue_bytes r.subscribers k v.subscribers;
    replay = v.replay;
    counted = v.counted;
    within = v.within;
  }

  pending-snoc :
      (key : ℕ) (xs : List RunSubscriber) → pending (xs ++ new_subscriber key ∷ []) ≡ pending xs
  unfolding pending
  pending-snoc key [] = omega arith
  pending-snoc key (x ∷ xs) = omega (arith, pending-snoc key xs)

  attached_count-snoc :
      (key : ℕ) (xs : List RunSubscriber)
      → attached_count (xs ++ new_subscriber key ∷ []) ≡ attached_count xs + 1
  unfolding attached_count
  attached_count-snoc key [] = ground arith
  attached_count-snoc key (x ∷ xs) = ground (arith, attached_count-snoc key xs)

  subscribe-IsRun : (r : RunState) → IsRun limits r → IsRun limits (subscribe limits r).1
  unfolding subscribe
  subscribe-IsRun r v = elim (Bool-cases r.done) [
    | inl e ↦ simp e v
    | inr going ↦ elim (Bool-cases (leb limits.max_subscribers (attached_count r.subscribers))) [
      | inl e ↦ simp (going, e) v
      | inr room ↦
          simp (going, room)
            (record {
              subscribers = record {
                each_bounded =
                    All-append (IsBounded limits) r.subscribers
                      (new_subscriber (length r.subscribers) ∷ []) v.subscribers.each_bounded
                      (
                        record {
                          events = omega arith;
                          bytes = omega arith;
                          gone = λ q. (refl, refl);
                        },
                        tt,
                      );
                counted = omega (
                  arith,
                  v.subscribers.counted,
                  pending-snoc (length r.subscribers) r.subscribers,
                );
                bounded = v.subscribers.bounded;
                admitted =
                    ground (arith, room, attached_count-snoc (length r.subscribers) r.subscribers);
              };
              replay = v.replay;
              counted = λ q. v.counted going;
              within = v.within;
            })
    ]
  ]

  publish_terminal-IsRun :
      (bytes : List ℕ) (r : RunState)
      → IsRun limits r
      → IsRun limits (publish_terminal limits bytes r)
  unfolding publish_terminal
  publish_terminal-IsRun bytes r v = elim (Bool-cases r.done) [
    | inl e ↦ simp e v
    | inr going ↦
        let frame : RunFrame = record { sequence = r.next_sequence + 1; bytes = bytes } in
        simp going (record {
          subscribers =
              each-IsLive _ r.live_queue_bytes r.subscribers (finish_one-Keeps limits frame)
                v.subscribers;
          replay = omega (
            arith,
            (v.counted going).events,
            v.within.events,
            length-append r.history (frame ∷ []),
          );
          counted = λ q. cc;
          within = record { events = v.within.events; bytes = v.within.bytes };
        })
  ]

  -- If at least one event may be retained and the run is within its limits, `publish` of a
  -- frame of any size never indexes an empty history, and leaves the run within its limits.
  pub publish_total :
      (bytes : List ℕ) (r : RunState)
      → 0 < limits.max_retained_events
      → IsRun limits r
      → (t : RunState) × (publish limits bytes r ≡ some t) × IsRun limits t
  unfolding publish
  publish_total bytes r one v = elim (Bool-cases r.done) [
    | inl e ↦ (r, simp e refl, v)
    | inr going ↦
        let frame : RunFrame = record { sequence = r.next_sequence + 1; bytes = bytes } in
        let (h, p, k) = retain_keeps limits frame (retained r) one (v.counted going) v.within in
        (
          stored r (r.next_sequence + 1) h
              (each (enqueue_one limits frame) r.live_queue_bytes r.subscribers),
          simp (going, p) refl,
          record {
            subscribers =
                each-IsLive _ r.live_queue_bytes r.subscribers (enqueue_one-Keeps limits frame)
                  v.subscribers;
            replay = omega (arith, k.counted.events, k.within.events);
            counted = λ q. k.counted;
            within = k.within;
          },
        )
  ]

  Step-IsRun :
      {r t : RunState}
      → 0 < limits.max_retained_events
      → Step limits r t
      → IsRun limits r
      → IsRun limits t
  Step-IsRun one (subscribed r) v = subscribe-IsRun r v
  Step-IsRun one (published bytes {r} {t} h) v =
      let (t', p, v') = publish_total bytes r one v in
      let e : t' ≡ t = cc in subst (IsRun limits) e v'
  Step-IsRun one (finished bytes r) v = publish_terminal-IsRun bytes r v
  Step-IsRun one (acknowledged key acked r) v =
      unfold acknowledge in on_subscribers-IsRun _ r (acknowledge_one-Keeps limits key acked) v
  Step-IsRun one (reordered r {xs} p) v = record {
    subscribers = record {
      each_bounded = Perm-All (IsBounded limits) p v.subscribers.each_bounded;
      counted = v.subscribers.counted ∙ Perm-pending p;
      bounded = v.subscribers.bounded;
      admitted = omega (arith, Perm-attached_count p, v.subscribers.admitted);
    };
    replay = v.replay;
    counted = v.counted;
    within = v.within;
  }
  Step-IsRun one (removed key r) v =
      unfold remove_subscriber in on_subscribers-IsRun _ r (remove_key-Keeps limits key) v

  -- Whatever sequence of subscriptions, published frames, acknowledgements, removals and a last
  -- frame a run goes through, and in whatever order each of them walks the subscribers, if at
  -- least one event may be retained: the bytes in flight are the sum of the bytes pending at
  -- the subscribers and stay within `MaxLiveQueueBytes`, the events and the bytes pending at
  -- each subscriber stay within its own limits and are none once it is detached, no more than
  -- `MaxSubscribers` are attached, the replay has at most one frame more than
  -- `MaxRetainedEvents`, the counted events and bytes are within the limits, and until the run
  -- is done they count the replay.
  pub Reach-IsRun :
      {r : RunState} → 0 < limits.max_retained_events → Reach limits r → IsRun limits r
  unfolding pending attached_count total
  Reach-IsRun one start = record {
    subscribers = record {
      each_bounded = tt;
      counted = refl;
      bounded = omega arith;
      admitted = omega arith;
    };
    replay = omega arith;
    counted = λ q. record { events = refl; bytes = refl };
    within = record { events = omega arith; bytes = omega arith };
  }
  Reach-IsRun one (then_step r s) = Step-IsRun one s (Reach-IsRun one r)
