-- ===== src/Lifecycle/Stale.antt =====
-- internal/lifecycle/autopause.go: a schedule that was replaced, cancelled or claimed.
use pvm.Prelude.{
  ℕ, ◌+◌, ◌≤◌, ◌≡◌, ◌≢◌, ◌⊎◌, refl, String, Option, none, some, List, [], ◌∷◌, ◌==◌, nat_comparable,
  text_comparable, inl, inr, Bool-cases, beq_refl, subst, arith, ap, sym, ◌∙◌, some-injective,
}
use pvm.Prelude.Dict.{Dict, get, put, del, get-put, get-put_self, get-del}
use pvm.Lifecycle.Timers.{
  Manager, Op, arm, cancel, fire, retry, new_manager, disarm, arm_locked, rearm_retry, claim,
  claim_live, step, run, retry_delay, epoch_of,
}

-- Generation `gen` was given out, and it is not the live one of the task.
record IsStale (id : String) (gen : ℕ) (m : Manager) : Type 0 where
  issued : gen ≤ m.next_gen
  dead : get m.gens id ≢ some gen

-- Every live generation was given out.
abbrev IsIssued : Manager → Type 0
IsIssued m = (id : String) (gen : ℕ) → get m.gens id ≡ some gen → gen ≤ m.next_gen

kept_by_del :
    (d : Dict String ℕ) (k id : String) (gen : ℕ)
    → get (del d k) id ≡ some gen
    → get d id ≡ some gen
kept_by_del d k id gen p = elim (Bool-cases (k == id)) [
  | inl same ↦ let q = get-del d k id in cc (rw same at q)
  | inr other ↦ let q = get-del d k id in cc (rw other at q)
]

-- What a task's live generation can be after an `Arm` of `k`.
live_after_put :
    (d : Dict String ℕ) (k id : String) (n gen : ℕ)
    → get (put (del d k) k n) id ≡ some gen
    → (gen ≡ n) ⊎ (get d id ≡ some gen)
live_after_put d k id n gen p = elim (Bool-cases (k == id)) [
  | inl same ↦ let q = get-put (del d k) k id n in inl (some-injective _ _ (sym p ∙ rw same at q))
  | inr other ↦
      let q = get-put (del d k) k id n in inr (kept_by_del d k id gen (cc (rw other at q)))
]

arm_locked-IsIssued : (k : String) (d : ℕ) (m : Manager) → IsIssued m → IsIssued (arm_locked k d m)
unfolding arm_locked disarm
arm_locked-IsIssued k d m h id gen = elim (Bool-cases (d == 0)) [
  | inl off ↦ rw off (λ p. h id gen (kept_by_del m.gens k id gen p))
  | inr on ↦ rw on (λ p. elim (live_after_put m.gens k id (m.next_gen + 1) gen p) [
    | inl new ↦ omega (arith, new)
    | inr old ↦ omega (arith, h id gen old)
  ])
]

rearm_retry-IsIssued :
    (k : String) (e : ℕ) (m : Manager) → IsIssued m → IsIssued (rearm_retry k e m)
unfolding rearm_retry
rearm_retry-IsIssued k e m h = elim (Bool-cases (epoch_of m k == e)) [
  | inl same ↦ rw same (arm_locked-IsIssued k retry_delay m h)
  | inr moved ↦ rw moved h
]

claim_live-IsIssued :
    (k : String) (g : ℕ) (o : Option ℕ) (m : Manager) → IsIssued m → IsIssued (claim_live k g o m).0
claim_live-IsIssued k g none m h = h
claim_live-IsIssued k g (some cur) m h = elim (Bool-cases (cur == g)) [
  | inl same ↦ rw same (λ id gen p. h id gen (kept_by_del m.gens k id gen p))
  | inr other ↦ rw other h
]

step-IsIssued : (op : Op) (m : Manager) → IsIssued m → IsIssued (step op m)
unfolding disarm claim
step-IsIssued (arm k d) m h = arm_locked-IsIssued k d m h
step-IsIssued (cancel k) m h = λ id gen p. h id gen (kept_by_del m.gens k id gen p)
step-IsIssued (fire k g) m h = claim_live-IsIssued k g (get m.gens k) m h
step-IsIssued (retry k e) m h = rearm_retry-IsIssued k e m h

new-IsIssued : IsIssued new_manager
unfolding get
new-IsIssued id gen p = absurd (ground (arith, p))

run-IsIssued : (ops : List Op) (m : Manager) → IsIssued m → IsIssued (run ops m)
run-IsIssued [] m h = h
run-IsIssued (op ∷ ops) m h = run-IsIssued ops (step op m) (step-IsIssued op m h)

arm_locked-IsStale :
    (k : String) (d : ℕ) (id : String) (gen : ℕ) (m : Manager)
    → IsStale id gen m
    → IsStale id gen (arm_locked k d m)
unfolding arm_locked disarm
arm_locked-IsStale k d id gen m s = elim (Bool-cases (d == 0)) [
  | inl off ↦
      rw off record { issued = s.issued; dead = λ p. s.dead (kept_by_del m.gens k id gen p) }
  | inr on ↦ rw on record {
    issued = omega (arith, s.issued);
    dead = λ p. elim (live_after_put m.gens k id (m.next_gen + 1) gen p) [
      | inl new ↦ absurd (omega (arith, new, s.issued))
      | inr old ↦ s.dead old
    ];
  }
]

claim_live-IsStale :
    (k : String) (g : ℕ) (o : Option ℕ) (id : String) (gen : ℕ) (m : Manager)
    → IsStale id gen m
    → IsStale id gen (claim_live k g o m).0
claim_live-IsStale k g none id gen m s = s
claim_live-IsStale k g (some cur) id gen m s = elim (Bool-cases (cur == g)) [
  | inl same ↦
      rw same record { issued = s.issued; dead = λ p. s.dead (kept_by_del m.gens k id gen p) }
  | inr other ↦ rw other s
]

step-IsStale :
    (op : Op) (id : String) (gen : ℕ) (m : Manager) → IsStale id gen m → IsStale id gen (step op m)
unfolding disarm claim rearm_retry
step-IsStale (arm k d) id gen m s = arm_locked-IsStale k d id gen m s
step-IsStale (cancel k) id gen m s = record {
  issued = s.issued;
  dead = λ p. s.dead (kept_by_del m.gens k id gen p);
}
step-IsStale (fire k g) id gen m s = claim_live-IsStale k g (get m.gens k) id gen m s
step-IsStale (retry k e) id gen m s = elim (Bool-cases (epoch_of m k == e)) [
  | inl same ↦ rw same (arm_locked-IsStale k retry_delay id gen m s)
  | inr moved ↦ rw moved s
]

run-IsStale :
    (ops : List Op) (id : String) (gen : ℕ) (m : Manager)
    → IsStale id gen m
    → IsStale id gen (run ops m)
run-IsStale [] id gen m s = s
run-IsStale (op ∷ ops) id gen m s = run-IsStale ops id gen (step op m) (step-IsStale op id gen m s)

-- The steps that end the schedule `gen` of a task: an `Arm` or a `Reset`, a `Disarm`, its own callback.
abbrev pub Ends : String → ℕ → Op → Type 0
Ends id gen (arm k d) = k ≡ id
Ends id gen (cancel k) = k ≡ id
Ends id gen (fire k g) = (k ≡ id) × (g ≡ gen)
Ends id gen (retry k e) = ⊥

deleted : (d : Dict String ℕ) (k : String) → get (del d k) k ≡ none
deleted d k = let q = get-del d k k in rw beq_refl at q

claim_live_over-IsStale :
    (id : String) (gen : ℕ) (o : Option ℕ) (m : Manager)
    → get m.gens id ≡ o
    → IsIssued m
    → gen ≤ m.next_gen
    → IsStale id gen (claim_live id gen o m).0
claim_live_over-IsStale id gen none m p h i = record { issued = i; dead = λ q. cc }
claim_live_over-IsStale id gen (some cur) m p h i = elim (Bool-cases (cur == gen)) [
  | inl same ↦ rw same record { issued = i; dead = λ q. let z = deleted m.gens id in cc }
  | inr other ↦ rw other record {
    issued = i;
    dead = λ q. let z = some-injective _ _ (sym p ∙ q) in ground (arith, other, z);
  }
]

armed_over-IsStale :
    (id : String) (d gen : ℕ) (m : Manager) → gen ≤ m.next_gen → IsStale id gen (arm_locked id d m)
unfolding arm_locked disarm
armed_over-IsStale id d gen m i = elim (Bool-cases (d == 0)) [
  | inl off ↦ rw off record { issued = i; dead = λ q. let z = deleted m.gens id in cc }
  | inr on ↦ rw on record {
    issued = omega (arith, i);
    dead = λ q.
        let z = get-put_self (del m.gens id) id (m.next_gen + 1) in
        let w = some-injective _ _ (sym z ∙ q) in absurd (omega (arith, w, i));
  }
]

step_over-IsStale :
    (op : Op) (id : String) (gen : ℕ) (m : Manager)
    → Ends id gen op
    → IsIssued m
    → gen ≤ m.next_gen
    → IsStale id gen (step op m)
unfolding disarm claim
step_over-IsStale (arm k d) id gen m e h i =
    subst (λ (x : String). IsStale id gen (arm_locked x d m)) (sym e)
      (armed_over-IsStale id d gen m i)
step_over-IsStale (cancel k) id gen m e h i =
    subst (λ (x : String). IsStale id gen (disarm x m)) (sym e)
      record { issued = i; dead = λ q. let z = deleted m.gens id in cc }
step_over-IsStale (fire k g) id gen m e h i =
    subst (λ (x : String). IsStale id gen (claim x g m).0) (sym e.0)
      (subst (λ (x : ℕ). IsStale id gen (claim id x m).0) (sym e.1)
        (claim_live_over-IsStale id gen (get m.gens id) m refl h i))
step_over-IsStale (retry k n) id gen m e h i = absurd e

claim_live_other :
    (id : String) (gen : ℕ) (o : Option ℕ) (m : Manager)
    → o ≢ some gen
    → claim_live id gen o m ≡ (m, none)
claim_live_other id gen none m p = refl
claim_live_other id gen (some cur) m p = elim (Bool-cases (cur == gen)) [
  | inl same ↦ absurd (p (ap some ((nat_comparable.equal_iff cur gen).0 same)))
  | inr other ↦ rw other refl
]

-- Once a live schedule of a task has ended, by an `Arm`, a `Reset` or a `Disarm` of the task or since its
-- callback has claimed it, a callback of that schedule does nothing, whatever calls for any tasks came
-- before the end and come after it.
pub claim-superseded :
    (before after : List Op) (op : Op) (id : String) (gen : ℕ)
    → get (run before new_manager).gens id ≡ some gen
    → Ends id gen op
    → claim id gen (run after (step op (run before new_manager)))
      ≡ (run after (step op (run before new_manager)), none)
unfolding claim
claim-superseded before after op id gen p e =
    let m = run before new_manager in
    let h = run-IsIssued before new_manager new-IsIssued in
    let s = run-IsStale after id gen (step op m) (step_over-IsStale op id gen m e h (h id gen p)) in
    claim_live_other id gen (get (run after (step op m)).gens id) (run after (step op m)) s.dead
