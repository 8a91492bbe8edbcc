-- ===== src/Lifecycle/Pause.antt =====
-- internal/lifecycle/autopause.go: `pause` after it has claimed its schedule, `commitPause`, `abortPause`.
-- What the cgroup, the disk and the other files of the package answer is in `Outcomes`. The lock is free
-- between its sections, so each of them has its own `Manager`.
use pvm.Prelude.{
  ◌&&◌, not, ℕ, String, Bool, true, false, Option, none, some, ◌==◌, nat_comparable, if◌then◌else◌,
  ite, Result, ok, err, ◌>>=◌,
}
use pvm.State.Fsm.{
  ContainerState, Error, status_discrete, running, suspended, resuming, system, transition,
}
use pvm.Lifecycle.Timers.{Manager, epoch_of, rearm_retry}

-- `Freeze` or `Thaw` of a cgroup. `missing` is `ErrNotExist`.
pub data Cgroup : Type 0 where
  done missing failed : Cgroup

-- Of one task: whether its cgroup is frozen, its state on the disk, whether the pool charges for it and
-- whether its memory was ballooned.
pub record Task : Type 0 where
  pub frozen : Bool
  pub disk : ContainerState
  pub charged : Bool
  pub ballooned : Bool

-- `load`, `save` and `save_back` are the errors of the state's file: a `SaveState` that fails has not renamed
-- its copy into place. `deep` is
-- whether `DeepPause` succeeds and what it leaves, when it is wanted. `released` is whether `SuspendByTask` gives the memory
-- back: `releaseQuota` drops its error, and after a write that failed the pool still charges. `now` is the clock.
pub record Outcomes : Type 0 where
  pub load : Option String
  pub save : Option String
  pub save_back : Option String
  pub deep : Option (Bool × Task)
  pub released : Bool
  pub freeze : Cgroup
  pub thaw : Cgroup
  pub balloon : Bool
  pub now : ℕ

abbrev pub thawed : Cgroup → Task → Task
thawed done w = record w { frozen = false }
thawed _ w = w

abbrev pub save_state : Option String → ContainerState → Task → Task
save_state none st w = record w { disk = st }
save_state (some x) st w = w

-- `abortPause`
unfoldable pub abort_pause : String → ℕ → Outcomes → Manager → Task → Manager × Task
abort_pause id epoch o m w = (rearm_retry id epoch m, thawed o.thaw w)

abbrev pub back_to_running : Outcomes → ContainerState → Result Error ContainerState
back_to_running o st = do
  mid ←
      transition st resuming system "autopause rollback: schedule replaced during commit" o.now
        o.now
  transition mid running system "autopause rollback: schedule replaced during commit" o.now o.now

abbrev pub put_back : Outcomes → Result Error ContainerState → Task → Task
put_back o (ok st) w = thawed o.thaw (save_state o.save_back st w)
put_back o (err x) w = thawed o.thaw w

-- What `commitPause` does once Suspended is on the disk: the second check of the epoch, with the manager
-- as it is then.
abbrev pub settle_pause : String → ℕ → Outcomes → ContainerState → Manager → Task → Manager × Task
settle_pause id epoch o st m w =
    if epoch_of m id == epoch
    then (m, record w { ballooned = o.balloon; charged = w.charged && not o.released })
    else (m, put_back o (back_to_running o st) w)

abbrev pub save_pause :
    String → ℕ → Outcomes → Option String → ContainerState → Manager → Task → Manager × Task
save_pause id epoch o (some x) st m w = abort_pause id epoch o m w
save_pause id epoch o none st m w = settle_pause id epoch o st m (save_state none st w)

abbrev pub pause_moved :
    String → ℕ → Outcomes → Result Error ContainerState → Manager → Task → Manager × Task
pause_moved id epoch o (err x) m w = abort_pause id epoch o m w
pause_moved id epoch o (ok st) m w = save_pause id epoch o o.save st m w

-- `commitPause`, with the manager at its first check and at the lock after that.
unfoldable pub commit_pause :
    String → ℕ → Outcomes → ContainerState → Manager → Manager → Task → Manager × Task
commit_pause id epoch o st m1 m2 w =
    if epoch_of m1 id == epoch
    then pause_moved id epoch o (transition st suspended system "idle timeout" o.now o.now) m2 w
    else (m2, thawed o.thaw w)

-- `st` is the state that was loaded before the deep pause.
abbrev pub frozen_pause :
    String → ℕ → Outcomes → Cgroup → ContainerState → Manager → Manager → Task → Manager × Task
frozen_pause id epoch o failed st m1 m2 w = (rearm_retry id epoch m2, w)
frozen_pause id epoch o missing st m1 m2 w = commit_pause id epoch o st m1 m2 w
frozen_pause id epoch o done st m1 m2 w =
    commit_pause id epoch o st m1 m2 (record w { frozen = true })

abbrev pub pick_pause :
    String → ℕ → Outcomes → Option (Bool × Task) → Manager → Manager → Task → Manager × Task
pick_pause id epoch o (some (true, w')) m1 m2 w = (m2, w')
pick_pause id epoch o (some (false, w')) m1 m2 w = frozen_pause id epoch o o.freeze w.disk m1 m2 w'
pick_pause id epoch o none m1 m2 w = frozen_pause id epoch o o.freeze w.disk m1 m2 w

abbrev pub loaded_pause :
    String → ℕ → Outcomes → Option String → Manager → Manager → Task → Manager × Task
loaded_pause id epoch o (some x) m1 m2 w = (m2, w)
loaded_pause id epoch o none m1 m2 w =
    ite (status_discrete w.disk.status running) (pick_pause id epoch o o.deep m1 m2 w) (m2, w)

-- `pause` with the epoch that its claim gave.
unfoldable pub pause_claimed : String → ℕ → Outcomes → Manager → Manager → Task → Manager × Task
pause_claimed id epoch o m1 m2 w = loaded_pause id epoch o o.load m1 m2 w
