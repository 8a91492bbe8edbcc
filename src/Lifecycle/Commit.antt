-- ===== src/Lifecycle/Commit.antt =====
-- internal/lifecycle/autopause.go: what a pause leaves behind.
use pvm.Prelude.{
  ℕ, ◌+◌, ◌≡◌, ◌≢◌, ◌⊎◌, String, Bool, true, false, Option, none, some, text_comparable, Result, ok,
}
use pvm.Prelude.Dict.{get}
use pvm.State.Fsm.{ContainerState, Status, Error, running, suspended}
use pvm.Lifecycle.Timers.{Manager, epoch_of}
use pvm.Lifecycle.Pause.{Task, Outcomes}

-- What a pause of a running task may leave: a frozen task is suspended on the disk, and its schedule was
-- current to the end; so is a suspended task, unless the write that takes it back failed; and a task that
-- runs on has a new timer, or its schedule had been replaced.
pub record IsSettled (id : String) (epoch : ℕ) (o : Outcomes) (m1 m2 : Manager) (r : Manager × Task)
    : Type 0 where
  pub frozen_means :
      r.1.frozen ≡ true → (r.1.disk.status ≡ suspended) × (o.released ≡ true → r.1.charged ≡ false)
  pub suspended_means :
      r.1.disk.status ≡ suspended
      → ((epoch_of m2 id ≡ epoch) × (o.released ≡ true → r.1.charged ≡ false))
        ⊎ (o.save_back ≢ none)
  pub running_means :
      r.1.disk.status ≡ running
      → (epoch_of m1 id ≢ epoch)
        ⊎ (epoch_of m2 id ≢ epoch)
        ⊎ (get r.0.gens id ≡ some (m2.next_gen + 1))

-- A transition to `to` that goes through.
record Moves (to : Status) (r : Result Error ContainerState) : Type 0 where
  state : ContainerState
  made : r ≡ ok state
  status : state.status ≡ to

-- The task that the freeze finds, where the pause has got as far: without a deep pause, or after one that
-- failed.
abbrev pub Falls : Option (Bool × Task) → Type 0
Falls none = Unit
Falls (some (true, w)) = ⊥
Falls (some (false, w)) = (w.frozen ≡ false) × (w.disk.status ≡ running)
