-- ===== src/State/Examples.antt =====
-- The theorems about the state machine at a task that has started, and tests of the table.
use pvm.Prelude.{◌≡◌, ◌⊎◌, refl, inl, List, [], ◌∷◌, err}
use pvm.State.Fsm.{
  pending, provisioning, completed, quarantined, destroy, controller, ContainerState,
  can_transition, terminal, invalid_transition, transition,
}
use pvm.State.Trail.{Linked, Request, step, run, IsSealed, run-Linked, run-IsSealed, isolate_cases}

abbrev fresh : ContainerState
fresh = record { id = "t1"; status = pending; ended_at = 0; transitions = [] }

abbrev sealed : ContainerState
sealed = record { id = "t1"; status = completed; ended_at = 40; transitions = [] }

abbrev provision : Request
provision = record { to = provisioning; actor = controller; reason = "start"; now = 5; end = 6 }

abbrev cleanup : Request
cleanup = record { to = destroy; actor = controller; reason = "done"; now = 7; end = 8 }

abbrev asked : List Request
asked = provision ∷ record provision { to = completed } ∷ cleanup ∷ []

-- The second request is refused: nothing leads from provisioning to completed.
run-asked : (run fresh asked).status ≡ destroy
unfolding run step transition can_transition
run-asked = refl

run-Linked_example : Linked pending (run fresh asked).transitions (run fresh asked).status
run-Linked_example = run-Linked pending fresh asked refl

run-IsSealed_example : IsSealed (run sealed asked)
run-IsSealed_example = run-IsSealed sealed asked (inl refl)

isolate_cases_example :
    ((step sealed (record cleanup { to = destroy })).status ≡ destroy)
    × (((step sealed (record cleanup { to = quarantined })).status ≡ quarantined)
        ⊎ ((completed ≡ completed)
            × (transition sealed quarantined controller "done" 7 8 ≡ err invalid_transition)))
isolate_cases_example = isolate_cases sealed cleanup (unfold terminal in refl)
