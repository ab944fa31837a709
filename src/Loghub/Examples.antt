-- ===== src/Loghub/Examples.antt =====
-- A hub that keeps two entries and is given three.
use oops.Prelude.{ℕ, ◌-◌, [], ◌∷◌, some, ◌≡◌, ◌⊎◌, refl, length, drop}
use oops.Loghub.{Hub, Options, new_with_options, push, snapshot, snapshot_size, window}
use oops.Loghub.Bounds.{IsBounded, Trace-IsBounded}
use oops.Loghub.Ring.{Trace, start, pushed, Trace-snapshot}

abbrev options : Options
options = record { history_size = 2; max_subscribers = 1; subscriber_queue = 1 }

hub : Hub ℕ
hub = push 3 (push 2 (push 1 (new_with_options 0 options)))

hub-Trace : Trace 0 options (1 ∷ 2 ∷ 3 ∷ []) hub
unfolding hub push new_with_options
hub-Trace = pushed 3 (pushed 2 (pushed 1 start))

hub-snapshot : snapshot 0 hub ≡ some (2 ∷ 3 ∷ [])
unfolding hub push new_with_options snapshot window
hub-snapshot = refl

Trace-snapshot_example :
    (snapshot 1 hub ≡ some (drop (3 - snapshot_size 1 hub) (1 ∷ 2 ∷ 3 ∷ [])))
    × ((hub.count ≡ 3) ⊎ (hub.count ≡ length hub.history))
Trace-snapshot_example = Trace-snapshot 1 hub-Trace

Trace-IsBounded_example : IsBounded hub
Trace-IsBounded_example = Trace-IsBounded hub-Trace
