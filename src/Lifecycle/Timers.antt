-- ===== src/Lifecycle/Timers.antt =====
-- internal/lifecycle/autopause.go: the idle timers, `New`, `Arm`, `Disarm`, `rearmRetry`, and the check with
-- which a fired callback claims its schedule, the locked part of `pause`.
use pvm.Prelude.{
  ℕ, ◌+◌, String, Option, none, some, List, [], ◌∷◌, ◌==◌, nat_comparable, text_comparable,
  if◌then◌else◌,
}
use pvm.Prelude.Dict.{Dict, get, put, del}

-- `timers` holds the delay of each live timer.
pub record Manager : Type 0 where
  pub timers : Dict String ℕ
  pub gens : Dict String ℕ
  pub epochs : Dict String ℕ
  pub next_gen : ℕ

abbrev pub new_manager : Manager
new_manager = record { timers = []; gens = []; epochs = []; next_gen = 0 }

abbrev pub epoch_value : Option ℕ → ℕ
epoch_value none = 0
epoch_value (some n) = n

-- `m.epochs[taskID]`
abbrev pub epoch_of : Manager → String → ℕ
epoch_of m id = epoch_value (get m.epochs id)

unfoldable pub disarm : String → Manager → Manager
disarm id m = record m {
  epochs = put m.epochs id (epoch_of m id + 1);
  timers = del m.timers id;
  gens = del m.gens id;
}

-- A delay of 0 stands for every `d <= 0`.
unfoldable pub arm_locked : String → ℕ → Manager → Manager
unfolding disarm
arm_locked id d m = if d == 0 then disarm id m else (record (disarm id m) {
  next_gen = m.next_gen + 1;
  gens = put (disarm id m).gens id (m.next_gen + 1);
  timers = put (disarm id m).timers id d;
})

-- `pauseRetryDelay`, in nanoseconds.
abbrev pub retry_delay : ℕ
retry_delay = 30000000000

unfoldable pub rearm_retry : String → ℕ → Manager → Manager
unfolding arm_locked
rearm_retry id epoch m = if epoch_of m id == epoch then arm_locked id retry_delay m else m

abbrev pub claim_live : String → ℕ → Option ℕ → Manager → Manager × Option ℕ
claim_live id gen none m = (m, none)
claim_live id gen (some cur) m =
    if cur == gen
    then ((record m { timers = del m.timers id; gens = del m.gens id }), some (epoch_of m id))
    else (m, none)

-- The callback of the timer with generation `gen`: the epoch with which it goes on, or `none` when it is
-- superseded.
unfoldable pub claim : String → ℕ → Manager → Manager × Option ℕ
claim id gen m = claim_live id gen (get m.gens id) m

-- What takes the lock: `Arm` and `Reset`, `Disarm`, a fired callback, and the retry of a pause.
pub data Op : Type 0 where
  arm : String → ℕ → Op
  cancel : String → Op
  fire : String → ℕ → Op
  retry : String → ℕ → Op

abbrev pub step : Op → Manager → Manager
step (arm id d) m = arm_locked id d m
step (cancel id) m = disarm id m
step (fire id gen) m = (claim id gen m).0
step (retry id epoch) m = rearm_retry id epoch m

abbrev pub run : List Op → Manager → Manager
run [] m = m
run (op ∷ ops) m = run ops (step op m)
