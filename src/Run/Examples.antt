-- ===== src/Run/Examples.antt =====
-- A run and a manager with small limits.
use oops.Prelude.{ℕ, some, List, [], ◌∷◌, true, ◌≡◌, refl, ok, arith}
use oops.Run.Stream.{RunLimits, RunState, RunFrame, Retained, new_run, publish, subscribe}
use oops.Run.Stream.Live.Bounded.{
  IsRun, published, subscribed, Reach, Reach-IsRun, start, then_step, publish_total,
}
use oops.Run.Manager
use oops.Run.Manager.{reserve, activate, new_run_manager}
use oops.Run.Manager.Admission

abbrev limits : RunLimits
limits = record {
  max_active_runs = 1;
  max_retained_events = 2;
  max_retained_bytes = 3;
  max_subscribers = 1;
  max_subscriber_queue_events = 1;
  max_subscriber_queue_bytes = 9;
  max_live_queue_bytes = 9;
  completed_ttl = 5;
}

watched : RunState
watched = (subscribe limits new_run).1

watched_reached : Reach limits watched
unfolding watched
watched_reached = then_step start (subscribed new_run)

publish_total_example :
    (t : RunState) × (publish limits (7 ∷ 8 ∷ []) watched ≡ some t) × IsRun limits t
publish_total_example =
    publish_total limits (7 ∷ 8 ∷ []) watched (omega arith)
      (Reach-IsRun limits (omega arith) watched_reached)

told_is : (t : RunState) × (publish limits (7 ∷ 8 ∷ []) watched ≡ some t) × IsRun limits t
told_is =
    publish_total limits (7 ∷ 8 ∷ []) watched (omega arith)
      (Reach-IsRun limits (omega arith) watched_reached)

told : RunState
told = told_is.0

told_reached : Reach limits told
unfolding told
told_reached = then_step watched_reached (published (7 ∷ 8 ∷ []) told_is.1)

Reach-IsRun_example : IsRun limits told
Reach-IsRun_example = Reach-IsRun limits (omega arith) told_reached

abbrev frame : ℕ → List ℕ → RunFrame
frame n bytes = record { sequence = n; bytes = bytes }

-- Two frames are there already: the first has to go.
abbrev two_frames : Retained
two_frames = record { history = frame 1 (7 ∷ []) ∷ frame 2 (8 ∷ []) ∷ []; events = 2; bytes = 2 }

reserved : Manager.Manager
reserved = record new_run_manager { active = 1; workers = 1; reservations = true ∷ [] }

reserved_is : reserve limits new_run_manager ≡ ok reserved
unfolding reserve reserved
reserved_is = refl

running : Manager.Manager
running = (activate 0 "r" reserved).1

running_reached : Admission.Reach limits running
unfolding running
running_reached =
    Admission.then_step (Admission.then_step Admission.start (Admission.was_reserved reserved_is))
      (Admission.activated 0 "r" reserved)

Reach-IsAdmitted_example : Admission.IsAdmitted limits running
Reach-IsAdmitted_example = Admission.Reach-IsAdmitted limits running_reached
