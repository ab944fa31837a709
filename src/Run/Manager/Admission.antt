-- ===== src/Run/Manager/Admission.antt =====
-- internal/api/run_manager.go: proofs on the counters of the manager, over every sequence of
-- its calls.
use oops.Prelude.{
  ℕ, zero, suc, ◌+◌, ◌-◌, ◌≤◌, String, some, List, [], ◌∷◌, ◌++◌, Bool, true, false, not, ◌&&◌, ◌≡◌,
  ◌⊎◌, inl, inr, refl, sym, ap, ◌∙◌, arith, length, get_elem?, set, leb, ltb, if◌then◌else◌, ok,
  Bool-cases, Option-cases, has, ◌||◌, insert, remove, subst,
}
use oops.Run.Stream.{RunLimits}
use oops.Run.Manager.{
  Manager, Run, new_run_manager, reserve, is_reserved, release_active, use_reservation, release,
  new_started, activate, with_run, finish_execution, complete, is_listed, expire_after_ttl, quiesce,
}

abbrev pub bit : Bool → ℕ
bit b = if b then 1 else 0

unfoldable pub tally : {A : Type 0} → (A → Bool) → List A → ℕ
tally p [] = 0
tally p (x ∷ rest) = bit (p x) + tally p rest

tally-snoc :
    {A : Type 0} (p : A → Bool) (xs : List A) (x : A)
    → tally p (xs ++ x ∷ []) ≡ tally p xs + bit (p x)
unfolding tally
tally-snoc p [] x = omega arith
tally-snoc p (y ∷ xs) x = omega (arith, tally-snoc p xs x)

tally-set :
    {A : Type 0} (p : A → Bool) (xs : List A) (i : ℕ) (v : A) {x : A}
    → get_elem? xs i ≡ some x
    → tally p (set xs i v) + bit (p x) ≡ tally p xs + bit (p v)
unfolding tally
tally-set p [] i v h = cc
tally-set p (y ∷ xs) zero v {x} h = let e : y ≡ x = cc in rw (sym e) (omega arith)
tally-set p (y ∷ xs) (suc i) v h = omega (arith, tally-set p xs i v h)

abbrev pub reserved : Manager → ℕ
reserved m = tally (λ b. b) m.reservations

abbrev pub executing : Manager → ℕ
executing m = tally (λ (r : Run). r.executing) m.started

abbrev pub expiring : Manager → ℕ
expiring m = tally (λ (r : Run). r.expiring) m.started

pub record IsAdmitted (limits : RunLimits) (m : Manager) : Type 0 where
  pub active : m.active ≡ reserved m + executing m
  pub capacity : m.active ≤ limits.max_active_runs
  pub workers : m.workers ≡ m.active + expiring m
  pub once :
      (j : ℕ) (run : Run)
      → get_elem? m.started j ≡ some run
      → run.expiring ≡ true
      → run.not_completed ≡ false

pub data Step (limits : RunLimits) : Manager → Manager → Type 0 where
  was_reserved : {m n : Manager} → reserve limits m ≡ ok n → Step limits m n
  released : (i : ℕ) (m : Manager) → Step limits m (release i m)
  activated : (i : ℕ) (run_id : String) (m : Manager) → Step limits m (activate i run_id m).1
  execution_finished : (j : ℕ) (m : Manager) → Step limits m (finish_execution j m)
  completed : (j : ℕ) (m : Manager) → Step limits m (complete limits j m)
  expired : (in_time : Bool) (j : ℕ) (m : Manager) → Step limits m (expire_after_ttl in_time j m)
  quiesced : (m : Manager) → Step limits m (quiesce m)

pub data Reach (limits : RunLimits) : Manager → Type 0 where
  start : Reach limits new_run_manager
  then_step : {m n : Manager} → Reach limits m → Step limits m n → Reach limits n

get_elem?-snoc :
    {A : Type 0} (xs : List A) (x : A) (j : ℕ) {y : A}
    → get_elem? (xs ++ x ∷ []) j ≡ some y
    → (get_elem? xs j ≡ some y) ⊎ (x ≡ y)
get_elem?-snoc [] x zero h = inr cc
get_elem?-snoc [] x (suc j) h = cc
get_elem?-snoc (z ∷ xs) x zero h = inl h
get_elem?-snoc (z ∷ xs) x (suc j) h = get_elem?-snoc xs x j h

get_elem?-set :
    {A : Type 0} (xs : List A) (i : ℕ) (v : A) (j : ℕ) {y : A}
    → get_elem? (set xs i v) j ≡ some y
    → (get_elem? xs j ≡ some y) ⊎ (v ≡ y)
get_elem?-set [] i v j h = cc
get_elem?-set (x ∷ xs) zero v zero h = inr cc
get_elem?-set (x ∷ xs) zero v (suc j) h = inl h
get_elem?-set (x ∷ xs) (suc i) v zero h = inl h
get_elem?-set (x ∷ xs) (suc i) v (suc j) h = get_elem?-set xs i v j h

-- `activate` that succeeds.
abbrev started_run : Manager → ℕ → String → Manager
started_run m i run_id = record (use_reservation i m) {
  runs = insert run_id (length m.started) m.runs;
  workers = m.workers + 1 - 1;
  started = m.started ++ new_started run_id ∷ [];
}

module _ (limits : RunLimits) where
  reserve-IsAdmitted :
      (m : Manager) {n : Manager}
      → reserve limits m ≡ ok n
      → IsAdmitted limits m
      → IsAdmitted limits n
  unfolding reserve
  reserve-IsAdmitted m {n} h v =
      let e : ((record m {
        active = m.active + 1;
        workers = m.workers + 1;
        reservations = m.reservations ++ true ∷ [];
      })
            ≡ n)
          × (leb limits.max_active_runs m.active ≡ false) =
        ground arith in
      subst (IsAdmitted limits) e.0 (record {
        active = omega (arith, v.active, tally-snoc (λ b. b) m.reservations true);
        capacity = ground (arith, e.1);
        workers = omega (arith, v.workers);
        once = v.once;
      })

  is_reserved-some :
      (m : Manager) (i : ℕ) → is_reserved m i ≡ true → get_elem? m.reservations i ≡ some true
  is_reserved-some m i h = ground arith

  -- A reservation that is used gives its place back.
  give_back-IsAdmitted :
      (m : Manager) (i : ℕ)
      → is_reserved m i ≡ true
      → IsAdmitted limits m
      → IsAdmitted limits (release_active (use_reservation i m))
  give_back-IsAdmitted m i h v =
      let t : tally (λ b. b) (set m.reservations i false) + 1 ≡ tally (λ b. b) m.reservations + 0 =
        tally-set (λ b. b) m.reservations i false (is_reserved-some m i h) in
      record {
        active = ground (arith, v.active, t);
        capacity = ground (arith, v.capacity);
        workers = ground (arith, v.workers, v.active, t);
        once = v.once;
      }

  release-IsAdmitted : (m : Manager) (i : ℕ) → IsAdmitted limits m → IsAdmitted limits (release i m)
  unfolding release
  release-IsAdmitted m i v = elim (Bool-cases (is_reserved m i)) [
    | inl e ↦ simp e (give_back-IsAdmitted m i e v)
    | inr e ↦ simp e v
  ]

  activate-IsAdmitted :
      (m : Manager) (i : ℕ) (run_id : String)
      → IsAdmitted limits m
      → IsAdmitted limits (activate i run_id m).1
  unfolding activate
  activate-IsAdmitted m i run_id v = elim (Bool-cases (is_reserved m i)) [
    | inr e ↦ simp e v
    | inl e ↦ elim (Bool-cases (m.quiescing || has run_id m.runs)) [
      | inl refused ↦
          let p : (activate i run_id m).1 ≡ release_active (use_reservation i m) = ground arith in
          subst (IsAdmitted limits) (sym p) (give_back-IsAdmitted m i e v)
      | inr fine ↦
          let t = tally-set (λ b. b) m.reservations i false (is_reserved-some m i e) in
          let x = tally-snoc (λ (r : Run). r.executing) m.started (new_started run_id) in
          let y = tally-snoc (λ (r : Run). r.expiring) m.started (new_started run_id) in
          let p : (activate i run_id m).1 ≡ started_run m i run_id = ground arith in
          subst (IsAdmitted limits) (sym p) (record {
            active = omega (arith, v.active, t, x);
            capacity = v.capacity;
            workers = omega (arith, v.workers, y);
            once = λ j run l q. elim (get_elem?-snoc m.started (new_started run_id) j l) [
              | inl old ↦ v.once j run old q
              | inr new ↦
                  let q' : (new_started run_id).expiring ≡ true =
                    ap (λ (r : Run). r.expiring) new ∙ q in
                  cc
            ];
          })
    ]
  ]

  -- The flags of one run change; `e` and `w` say by how much the counters must.
  with_run-IsAdmitted :
      (m : Manager) (j : ℕ) {run : Run} (changed : Run) (active workers : ℕ)
      → get_elem? m.started j ≡ some run
      → active + bit run.executing ≡ m.active + bit changed.executing
      → workers + bit run.expiring + bit run.executing
        ≡ m.workers + bit changed.expiring + bit changed.executing
      → active ≤ limits.max_active_runs
      → (changed.expiring ≡ true → changed.not_completed ≡ false)
      → IsAdmitted limits m
      → IsAdmitted limits (record (with_run j changed m) { active = active; workers = workers })
  with_run-IsAdmitted m j {run} changed active workers l a w c o v =
      let x = tally-set (λ (r : Run). r.executing) m.started j changed l in
      let y = tally-set (λ (r : Run). r.expiring) m.started j changed l in
      record {
        active = omega (arith, v.active, x, a);
        capacity = c;
        workers = omega (arith, v.workers, v.active, x, y, a, w);
        once = λ k r l' q. elim (get_elem?-set m.started j changed k l') [
          | inl old ↦ v.once k r old q
          | inr new ↦
              sym (ap (λ (r : Run). r.not_completed) new) ∙ o (ap (λ (r : Run). r.expiring) new ∙ q)
        ];
      }

  counted_run :
      (m : Manager) (j : ℕ) {run : Run}
      → get_elem? m.started j ≡ some run
      → (bit run.executing ≤ executing m) × (bit run.expiring ≤ expiring m)
  counted_run m j {run} l =
      let idle : Run = record {
        id = "";
        executing = false;
        not_completed = false;
        expiring = false;
      } in
      let x = tally-set (λ (r : Run). r.executing) m.started j idle l in
      let y = tally-set (λ (r : Run). r.expiring) m.started j idle l in
      (omega (arith, x), omega (arith, y))

  finish_execution-IsAdmitted :
      (m : Manager) (j : ℕ) → IsAdmitted limits m → IsAdmitted limits (finish_execution j m)
  unfolding finish_execution
  finish_execution-IsAdmitted m j v = elim (Option-cases (get_elem? m.started j)) [
    | inl e ↦ let p : finish_execution j m ≡ m = ground arith in subst (IsAdmitted limits) (sym p) v
    | inr (run, l) ↦ elim (Bool-cases run.executing) [
      | inr e ↦
          let p : finish_execution j m ≡ m = ground arith in subst (IsAdmitted limits) (sym p) v
      | inl e ↦
          let b = counted_run m j l in
          let p : finish_execution j m ≡ record (with_run j (record run { executing = false }) m) {
            active = m.active - 1;
            workers = m.workers - 1;
          } =
            ground (arith, b, v.active) in
          subst (IsAdmitted limits) (sym p) (
            with_run-IsAdmitted m j (record run { executing = false }) (m.active - 1)
              (m.workers - 1) l (ground (arith, b, v.active, e))
              (ground (arith, b, v.active, v.workers, e)) (omega (arith, v.capacity))
              (v.once j run l) v)
    ]
  ]

  complete-IsAdmitted :
      (m : Manager) (j : ℕ) → IsAdmitted limits m → IsAdmitted limits (complete limits j m)
  unfolding complete
  complete-IsAdmitted m j v = elim (Option-cases (get_elem? m.started j)) [
    | inl e ↦ let p : complete limits j m ≡ m = ground arith in subst (IsAdmitted limits) (sym p) v
    | inr (run, l) ↦ elim (Bool-cases run.not_completed) [
      | inr e ↦
          let p : complete limits j m ≡ m = ground arith in subst (IsAdmitted limits) (sym p) v
      | inl e ↦
          let off : run.expiring ≡ false = ground (arith, v.once j run l) in
          elim (Bool-cases (not m.quiescing && ltb 0 limits.completed_ttl)) [
            | inl timed ↦
                let p : complete limits j m
                    ≡ record (with_run j (record run { not_completed = false; expiring = true })
                        m) { active = m.active; workers = m.workers + 1 } =
                  ground arith in
                subst (IsAdmitted limits) (sym p) (
                  with_run-IsAdmitted m j (record run { not_completed = false; expiring = true })
                    m.active (m.workers + 1) l refl (ground (arith, off)) v.capacity (λ q. refl) v)
            | inr kept ↦
                let p : complete limits j m
                    ≡ record (with_run j (record run { not_completed = false }) m) {
                      active = m.active;
                      workers = m.workers;
                    } =
                  ground arith in
                subst (IsAdmitted limits) (sym p) (
                  with_run-IsAdmitted m j (record run { not_completed = false }) m.active m.workers
                    l refl refl v.capacity (λ q. refl) v)
          ]
    ]
  ]

  expire_after_ttl-IsAdmitted :
      (m : Manager) (in_time : Bool) (j : ℕ)
      → IsAdmitted limits m
      → IsAdmitted limits (expire_after_ttl in_time j m)
  unfolding expire_after_ttl
  expire_after_ttl-IsAdmitted m in_time j v = elim (Option-cases (get_elem? m.started j)) [
    | inl e ↦
        let p : expire_after_ttl in_time j m ≡ m = ground arith in
        subst (IsAdmitted limits) (sym p) v
    | inr (run, l) ↦ elim (Bool-cases run.expiring) [
      | inr e ↦
          let p : expire_after_ttl in_time j m ≡ m = ground arith in
          subst (IsAdmitted limits) (sym p) v
      | inl e ↦
          let b = counted_run m j l in
          let ended = record (with_run j (record run { expiring = false }) m) {
            active = m.active;
            workers = m.workers - 1;
          } in
          let w : IsAdmitted limits ended =
            with_run-IsAdmitted m j (record run { expiring = false }) m.active (m.workers - 1) l
              refl (ground (arith, b, v.workers, e)) v.capacity (λ q. cc) v in
          elim (Bool-cases (in_time && is_listed m run.id j)) [
            | inl listed ↦
                let p : expire_after_ttl in_time j m
                    ≡ record ended { runs = remove run.id m.runs } =
                  ground arith in
                subst (IsAdmitted limits) (sym p) (record {
                  active = w.active;
                  capacity = w.capacity;
                  workers = w.workers;
                  once = w.once;
                })
            | inr other ↦
                let p : expire_after_ttl in_time j m ≡ ended = ground arith in
                subst (IsAdmitted limits) (sym p) w
          ]
    ]
  ]

  Step-IsAdmitted : {m n : Manager} → Step limits m n → IsAdmitted limits m → IsAdmitted limits n
  unfolding quiesce
  Step-IsAdmitted (was_reserved {m} h) v = reserve-IsAdmitted m h v
  Step-IsAdmitted (released i m) v = release-IsAdmitted m i v
  Step-IsAdmitted (activated i run_id m) v = activate-IsAdmitted m i run_id v
  Step-IsAdmitted (execution_finished j m) v = finish_execution-IsAdmitted m j v
  Step-IsAdmitted (completed j m) v = complete-IsAdmitted m j v
  Step-IsAdmitted (expired in_time j m) v = expire_after_ttl-IsAdmitted m in_time j v
  Step-IsAdmitted (quiesced m) v = record {
    active = v.active;
    capacity = v.capacity;
    workers = v.workers;
    once = v.once;
  }

  -- In every state that reservations, releases, activations, finished and completed runs,
  -- expiry and quiescing reach, the active count is the number of unused reservations and of
  -- runs still executing, it is at most `MaxActiveRuns`, the worker count is the active count
  -- and the number of runs that wait to expire, and a run waits to expire only once it is
  -- completed.
  pub Reach-IsAdmitted : {m : Manager} → Reach limits m → IsAdmitted limits m
  unfolding tally
  Reach-IsAdmitted start = record {
    active = refl;
    capacity = omega arith;
    workers = refl;
    once = λ j run l q. cc;
  }
  Reach-IsAdmitted (then_step r s) = Step-IsAdmitted s (Reach-IsAdmitted r)
