-- ===== src/Lifecycle/Examples.antt =====
-- internal/lifecycle/autopause.go: the schedules of one task, and a pause whose schedule is replaced.
use pvm.Prelude.{◌≡◌, refl, true, false, none, some, List, [], ◌∷◌}
use pvm.Prelude.Dict.{get, put, del}
use pvm.State.Fsm.{running}
use pvm.Lifecycle.Timers.{Op, arm, cancel, fire, retry, new_manager, arm_locked, claim, step, run}
use pvm.Lifecycle.Stale.{claim-superseded}
use pvm.Lifecycle.Pause.{Task, Outcomes, done}

abbrev armed : List Op
armed = arm "t1" 60 ∷ arm "t2" 60 ∷ []

abbrev later : List Op
later = retry "t1" 1 ∷ fire "t2" 2 ∷ arm "t1" 30 ∷ []

claim-superseded_example :
    claim "t1" 1 (run later (step (cancel "t1") (run armed new_manager)))
    ≡ (run later (step (cancel "t1") (run armed new_manager)), none)
unfolding arm_locked get put del
claim-superseded_example = claim-superseded armed later (cancel "t1") "t1" 1 refl refl

test_claim : (claim "t1" 1 (run armed new_manager)).1 ≡ some 1
unfolding claim arm_locked get put del
test_claim = refl

abbrev idle : Task
idle = record {
  frozen = false;
  disk = record { id = "t1"; status = running; ended_at = 0; transitions = [] };
  charged = true;
  ballooned = false;
}

abbrev smooth : Outcomes
smooth = record {
  load = none;
  save = none;
  save_back = some "no space left on device";
  deep = none;
  released = true;
  freeze = done;
  thaw = done;
  balloon = true;
  now = 5;
}
