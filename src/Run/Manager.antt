-- ===== src/Run/Manager.antt =====
-- internal/api/run_manager.go: the admission of runs. A manager with the reservations that it has given
-- out and the runs that it has started is one system; a reservation or a run is named by its place in
-- the list. `sync.Once` is a flag, `workers` the count of the WaitGroup. Each method is one step:
-- `release` and `activate` let go of the reservation's mutex before they take the manager's, but no other
-- method reads the flag `reserved`.
pub mod Admission
use oops.Prelude.{
  ℕ, suc, ◌+◌, ◌-◌, String, Option, none, some, List, [], ◌∷◌, ◌++◌, Bool, true, false, not, ◌&&◌,
  ◌||◌, length, get_elem?, set, leb, ltb, ◌==◌, if◌then◌else◌, Dict, lookup, insert, remove, has,
  Result, ok, err, ◌>>=◌, ◌>>◌, fail_if,
}
use oops.Run.Stream.{RunLimits}

pub data Error : Type 0 where
  run_capacity run_manager_quiescing run_reservation_used : Error
  run_exists : String → Error

-- `executing` and `not_completed` tell that `executionOnce` and `completedOnce` are not used yet, and
-- `expiring` that a goroutine waits to expire the run.
pub record Run : Type 0 where
  pub id : String
  pub executing : Bool
  pub not_completed : Bool
  pub expiring : Bool

pub record Manager : Type 0 where
  pub runs : Dict ℕ
  pub active : ℕ
  pub quiescing : Bool
  pub workers : ℕ
  pub reservations : List Bool
  pub started : List Run

abbrev pub new_run_manager : Manager
new_run_manager = record {
  runs = [];
  active = 0;
  quiescing = false;
  workers = 0;
  reservations = [];
  started = [];
}

unfoldable pub reserve : RunLimits → Manager → Result Error Manager
reserve limits m = do
  fail_if m.quiescing run_manager_quiescing
  fail_if (leb limits.max_active_runs m.active) run_capacity
  ok (record m {
    active = m.active + 1;
    workers = m.workers + 1;
    reservations = m.reservations ++ true ∷ [];
  })

abbrev pub is_reserved : Manager → ℕ → Bool
is_reserved m i = elim (get_elem? m.reservations i) [ none ↦ false | some reserved ↦ reserved ]

-- `releaseActiveLocked` with `workers.Done`
abbrev pub release_active : Manager → Manager
release_active m = record m {
  active = if ltb 0 m.active then m.active - 1 else m.active;
  workers = m.workers - 1;
}

abbrev pub use_reservation : ℕ → Manager → Manager
use_reservation i m = record m { reservations = set m.reservations i false }

unfoldable pub release : ℕ → Manager → Manager
release i m = if is_reserved m i then release_active (use_reservation i m) else m

abbrev pub new_started : String → Run
new_started id = record { id = id; executing = true; not_completed = true; expiring = false }

-- The manager keeps what the call has changed where it returns an error.
unfoldable pub activate : ℕ → String → Manager → Option Error × Manager
activate i run_id m =
    let used = use_reservation i m in
    if not (is_reserved m i)
    then (some run_reservation_used, m)
    else if m.quiescing
    then (some run_manager_quiescing, release_active used)
    else if has run_id m.runs
    then (some (run_exists run_id), release_active used)
    else (
      none,
      record used {
        runs = insert run_id (length m.started) m.runs;
        workers = m.workers + 1 - 1;
        started = m.started ++ new_started run_id ∷ [];
      },
    )

abbrev pub with_run : ℕ → Run → Manager → Manager
with_run j run m = record m { started = set m.started j run }

unfoldable pub finish_execution : ℕ → Manager → Manager
finish_execution j m = elim (get_elem? m.started j) [
  | none ↦ m
  | some run ↦
      if run.executing then with_run j (record run { executing = false }) (release_active m) else m
]

-- `complete`
unfoldable pub complete : RunLimits → ℕ → Manager → Manager
complete limits j m = elim (get_elem? m.started j) [
  | none ↦ m
  | some run ↦
      if not run.not_completed
      then m
      else if not m.quiescing && ltb 0 limits.completed_ttl
      then record (with_run j (record run { not_completed = false; expiring = true }) m) {
        workers = m.workers + 1;
      }
      else with_run j (record run { not_completed = false }) m
]

-- `m.runs[run.id] == run`
abbrev pub is_listed : Manager → String → ℕ → Bool
is_listed m id j = elim (lookup id m.runs) [ none ↦ false | some k ↦ k == j ]

-- The goroutine `expireAfterTTL` ends: at the end of its time, or because the manager stops.
unfoldable pub expire_after_ttl : Bool → ℕ → Manager → Manager
expire_after_ttl in_time j m = elim (get_elem? m.started j) [
  | none ↦ m
  | some run ↦
      let ended = record (with_run j (record run { expiring = false }) m) {
        workers = m.workers - 1;
      } in
      if not run.expiring
      then m
      else if in_time && is_listed m run.id j
      then record ended { runs = remove run.id m.runs }
      else ended
]

unfoldable pub quiesce : Manager → Manager
quiesce m = record m { quiescing = true }
