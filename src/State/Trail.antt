-- ===== src/State/Trail.antt =====
-- What the recorded rows of internal/state/manager.go say about the states that a task went through.
use pvm.Prelude.{
  ℕ, String, ◌≡◌, ◌⊎◌, refl, true, false, not, List, [], length, length-append, ◌+◌, ◌∷◌, ◌++◌,
  arith, Result, ok, err, All, inl, inr, sym, nat_comparable, ◌==◌, ◌<◌,
}
use mathlib.Core.Logic.{if_neg}
use pvm.State.Fsm.{
  status_discrete, allowed, listed, Status, pending, completed, quarantined, destroy, Actor,
  Transition, ContainerState, terminal, can_transition, ends, Error, invalid_transition, transition,
}

-- A status of a list.
abbrev pub Among : Status → List Status → Type 0
Among t [] = ⊥
Among t (x ∷ xs) = (x ≡ t) ⊎ Among t xs

-- Each row starts where the one before it ended, and leads to the same state or along an edge of the table,
-- from no final state.
abbrev pub Linked : Status → List Transition → Status → Type 0
Linked s [] t = s ≡ t
Linked s (r ∷ rs) t =
    (r.from ≡ s)
    × (terminal r.from ≡ false)
    × ((r.from ≡ r.to) ⊎ Among r.to (allowed r.from))
    × Linked r.to rs t

pub record Request : Type 0 where
  pub to : Status
  pub actor : Actor
  pub reason : String
  pub now : ℕ
  pub end : ℕ

abbrev pub after : ContainerState → Result Error ContainerState → ContainerState
after s (ok t) = t
after s (err e) = s

unfoldable pub step : ContainerState → Request → ContainerState
step s r = after s (transition s r.to r.actor r.reason r.now r.end)

unfoldable pub run : ContainerState → List Request → ContainerState
run s [] = s
run s (r ∷ rs) = run (step s r) rs

Linked-snoc :
    (s t : Status) (rs : List Transition) (r : Transition)
    → Linked s rs t
    → r.from ≡ t
    → terminal r.from ≡ false
    → (r.from ≡ r.to) ⊎ Among r.to (allowed r.from)
    → Linked s (rs ++ r ∷ []) r.to
Linked-snoc s t [] r l f a c = ground arith
Linked-snoc s t (x ∷ rs) r l f a c = (l.0, l.1, l.2, Linked-snoc x.to t rs r l.3 f a c)

listed-Among : (ts : List Status) (t : Status) → listed ts t ≡ true → Among t ts
unfolding listed
listed-Among [] t h = cc
listed-Among (x ∷ xs) t h = elim (status_discrete t x) [
  | yes same ↦ inl (sym same)
  | no other ↦ inr (listed-Among xs t (rw (if_neg (status_discrete x t) (λ z. other (sym z))) at h))
]

-- What `canTransition` allows.
can_transition-edge : (s t : Status) → can_transition s t ≡ true → (s ≡ t) ⊎ Among t (allowed s)
unfolding can_transition
can_transition-edge s t h = elim (status_discrete s t) [
  | yes same ↦ inl same
  | no other ↦ inr (listed-Among (allowed s) t (rw (if_neg (status_discrete s t) other) at h))
]

step-Linked :
    (o : Status) (s : ContainerState) (r : Request)
    → Linked o s.transitions s.status
    → Linked o (step s r).transitions (step s r).status
unfolding step transition
step-Linked o s r l = ground (
  arith,
  can_transition-edge s.status r.to,
  Linked-snoc o s.status s.transitions
      (record { from = s.status; to = r.to; actor = r.actor; reason = r.reason; at = r.now }) l,
)

-- Whatever `Transition` is asked for, as long as nothing else writes the status, the rows of a task are one
-- walk, from the status that the task had at first to the one that it has now, each row from a state that is
-- not final to itself or along an edge of the table.
pub run-Linked :
    (o : Status) (s : ContainerState) (rs : List Request)
    → Linked o s.transitions s.status
    → Linked o (run s rs).transitions (run s rs).status
unfolding run
run-Linked o s [] l = l
run-Linked o s (r ∷ rs) l = run-Linked o (step s r) rs (step-Linked o s r l)

can_destroy : (s : Status) → terminal s ≡ false → can_transition s destroy ≡ true
unfolding can_transition terminal
can_destroy pending h = refl
can_destroy _ h = ground arith

-- Completed, or destroyed after it.
abbrev pub IsSealed : ContainerState → Type 0
IsSealed s = (s.status ≡ completed) ⊎ (s.status ≡ destroy)

completed_next : (t : Status) → can_transition completed t ≡ true → (t ≡ completed) ⊎ (t ≡ destroy)
unfolding can_transition
completed_next pending h = ground arith
completed_next _ h = ground arith

-- `EndedAt` is set exactly in the four states that end a task.
abbrev pub IsStamped : ContainerState → Type 0
IsStamped s = ends s.status ≡ not (s.ended_at == 0)

ends_next :
    (s t : Status) → terminal s ≡ false → can_transition s t ≡ true → ends s ≡ true → ends t ≡ true
unfolding can_transition terminal ends
ends_next pending t h c e = ground arith
ends_next _ t h c e = ground arith

step-IsStamped : (s : ContainerState) (r : Request) → 0 < r.end → IsStamped s → IsStamped (step s r)
unfolding step transition
step-IsStamped s r h i = ground (arith, ends_next s.status r.to)

-- Along any history with clock readings that are not the zero time, `EndedAt` is set exactly while a
-- task is completed, destroyed, stopped or exited, if it was so at first.
pub run-IsStamped :
    (s : ContainerState) (rs : List Request)
    → All (λ r. 0 < r.end) rs
    → IsStamped s
    → IsStamped (run s rs)
unfolding run
run-IsStamped s [] h i = i
run-IsStamped s (r ∷ rs) h i = run-IsStamped (step s r) rs h.1 (step-IsStamped s r h.0 i)

step-IsSealed : (s : ContainerState) (r : Request) → IsSealed s → IsSealed (step s r)
unfolding step transition
step-IsSealed s r h = ground (arith, completed_next r.to)

-- A sealed task, completed or destroyed, stays so whatever `Transition` is asked for, as long as nothing
-- else writes the status.
pub run-IsSealed : (s : ContainerState) (rs : List Request) → IsSealed s → IsSealed (run s rs)
unfolding run
run-IsSealed s [] h = h
run-IsSealed s (r ∷ rs) h = run-IsSealed (step s r) rs (step-IsSealed s r h)

can_quarantine_cases :
    (s : Status)
    → terminal s ≡ false
    → (can_transition s quarantined ≡ true)
      ⊎ ((s ≡ completed) × (can_transition s quarantined ≡ false))
unfolding can_transition terminal
can_quarantine_cases pending h = ground arith
can_quarantine_cases _ h = ground arith

-- From every state that is not final a task can be destroyed, and it can be quarantined from all of
-- them but completed, where `Transition` refuses.
pub isolate_cases :
    (s : ContainerState) (r : Request)
    → terminal s.status ≡ false
    → ((step s (record r { to = destroy })).status ≡ destroy)
      × (((step s (record r { to = quarantined })).status ≡ quarantined)
          ⊎ ((s.status ≡ completed)
              × (transition s quarantined r.actor r.reason r.now r.end ≡ err invalid_transition)))
unfolding step transition
isolate_cases s r h =
    (ground (arith, can_destroy s.status), ground (arith, can_quarantine_cases s.status h))

same_allowed : (s : Status) → can_transition s s ≡ true
unfolding can_transition
same_allowed pending = refl
same_allowed _ = refl

-- Asking for the state that a task is in already, unless it is final, adds a row to the trail.
pub length-repeat :
    (s : ContainerState) (r : Request)
    → terminal s.status ≡ false
    → length (step s (record r { to = s.status })).transitions ≡ length s.transitions + 1
unfolding step transition
length-repeat s r h = ground (
  arith,
  same_allowed s.status,
  length-append s.transitions (
      record { from = s.status; to = s.status; actor = r.actor; reason = r.reason; at = r.now }
      ∷ []),
)
