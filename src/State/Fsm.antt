-- ===== src/State/Fsm.antt =====
-- internal/state/manager.go: the states, the table of edges, and `Transition`.
use pvm.Prelude.{
  ℕ, String, Bool, true, false, List, [], ◌∷◌, ◌++◌, ite, nat_comparable, ◌==◌, Result, ok, err,
  if◌then◌else◌,
}

pub data Status : Type 0 where
  pending provisioning ready running suspended resuming review completed failed quarantined : Status
  destroy stopped exited : Status

unfoldable pub status_discrete : Discrete Status
status_discrete = hlevel

unfoldable pub terminal : Status → Bool
terminal destroy = true
terminal stopped = true
terminal exited = true
terminal _ = false

pub data Actor : Type 0 where
  agent controller human system : Actor

pub record Transition : Type 0 where
  pub from : Status
  pub to : Status
  pub actor : Actor
  pub reason : String
  pub at : ℕ

-- The fields that the state machine reads and writes.
pub record ContainerState : Type 0 where
  pub id : String
  pub status : Status
  pub ended_at : ℕ
  pub transitions : List Transition

unfoldable pub allowed : Status → List Status
allowed pending = provisioning ∷ destroy ∷ failed ∷ quarantined ∷ []
allowed provisioning = ready ∷ failed ∷ quarantined ∷ destroy ∷ []
allowed ready = running ∷ suspended ∷ failed ∷ quarantined ∷ destroy ∷ []
allowed running = suspended ∷ review ∷ failed ∷ quarantined ∷ destroy ∷ []
allowed suspended = resuming ∷ review ∷ failed ∷ quarantined ∷ destroy ∷ []
allowed resuming = running ∷ failed ∷ quarantined ∷ destroy ∷ []
allowed review = completed ∷ failed ∷ quarantined ∷ destroy ∷ []
allowed failed = provisioning ∷ quarantined ∷ destroy ∷ []
allowed quarantined = failed ∷ destroy ∷ []
allowed completed = destroy ∷ []
allowed _ = []

unfoldable pub listed : List Status → Status → Bool
listed [] to = false
listed (t ∷ ts) to = ite (status_discrete t to) true (listed ts to)

unfoldable pub can_transition : Status → Status → Bool
unfolding allowed listed status_discrete
can_transition from to = ite (status_discrete from to) true (listed (allowed from) to)

pub data Error : Type 0 where
  terminal_state invalid_transition : Error

-- `to == StatusDestroy || to == StatusStopped || to == StatusExited || to == StatusCompleted`
unfoldable pub ends : Status → Bool
ends destroy = true
ends stopped = true
ends exited = true
ends completed = true
ends _ = false

-- `now` and `end` are the two readings of `time.Now()`. An error changes nothing.
unfoldable pub transition :
    ContainerState → Status → Actor → String → ℕ → ℕ → Result Error ContainerState
unfolding terminal ends
transition s to actor reason now end =
    if terminal s.status
    then err terminal_state
    else if can_transition s.status to
    then ok (record s {
      transitions = s.transitions ++ row ∷ [];
      status = to;
      ended_at = if ends to then (if s.ended_at == 0 then end else s.ended_at) else s.ended_at;
    })
    else err invalid_transition
  where
    row : Transition
    row = record { from = s.status; to = to; actor = actor; reason = reason; at = now }
