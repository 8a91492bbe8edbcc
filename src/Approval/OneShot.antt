-- ===== src/Approval/OneShot.antt =====
-- internal/approval/store.go: what `ClaimFor` promises. One approved ticket unlocks one execution.
use pvm.Prelude.{
  ℕ, ◌+◌, ◌≤◌, String, ◌≡◌, refl, sym, subst, ◌∙◌, ◌⊎◌, inl, inr, Bool, true, false, Option, none,
  some, List, [], ◌∷◌, arith, ◌==◌, text_comparable, eq_iff, beq_refl, if◌then◌else◌, Result, ok,
  err, Option-cases,
}
use pvm.Prelude.Dict.{get, find, find-get, Distinct, get-put_self}
use pvm.Json.{Json}
use pvm.Fsjson
use pvm.Approval.Ticket.{Ticket, Manager, Env, tickets-persist_locked}
use pvm.Approval.Claims.{claimable, claim_for, burn, confirm_claim}
use pvm.Approval.Advance.{Op, creates, claims, Moved, IsGrant, claimable-IsGrant}
use pvm.Approval.Steps.{FreshFor, step, step-Evolves, Advance-id, Advance-Burnt, Burnt}

abbrev is_claim : String → Option String → Bool
is_claim id none = false
is_claim id (some k) = k == id

is_claim-cases : (id : String) (o : Option String) → (is_claim id o ≡ false) ⊎ (o ≡ some id)
is_claim-cases id none = inl refl
is_claim-cases id (some k) = ground (arith, eq_iff k id)

-- A ticket is stored under its id.
abbrev pub KeyedAt : String → Option Ticket → Type 0
KeyedAt k none = Unit
KeyedAt k (some t) = t.id ≡ k

pub record IsSound (m : Manager) : Type 0 where
  pub distinct : Distinct m.tickets
  pub keyed : (k : String) → KeyedAt k (get m.tickets k)

Moved-KeyedAt :
    (e : Env) (op : Op) (k : String) (o p : Option Ticket)
    → Moved e op k o p
    → KeyedAt k o
    → KeyedAt k p
Moved-KeyedAt e op k none none h i = tt
Moved-KeyedAt e op k none (some u) h i = h.0
Moved-KeyedAt e op k (some t) none h i = tt
Moved-KeyedAt e op k (some t) (some u) h i = Advance-id e op k t u h ∙ i

Moved-Burnt :
    (e : Env) (op : Op) (k : String) (o p : Option Ticket) → Moved e op k o p → Burnt o → Burnt p
Moved-Burnt e op k none p h b = absurd b
Moved-Burnt e op k (some t) none h b = absurd h
Moved-Burnt e op k (some t) (some u) h b = Advance-Burnt e op k t u h b

confirm_claim-some :
    (r : Result Fsjson.Error (Unit {0})) (m : Manager) (k : String) (t : Ticket) (id : String)
    → (confirm_claim r m k t).1 ≡ some id
    → (t.id ≡ id) × ((confirm_claim r m k t).0 ≡ m)
confirm_claim-some (ok _) m k t id h = (ground arith, refl)
confirm_claim-some (err x) m k t id h = cc

burn-some :
    (e : Env) (m : Manager) (k : String) (t : Ticket) (id : String)
    → t.id ≡ k
    → (burn e m k t).1 ≡ some id
    → (k ≡ id) × (get (burn e m k t).0.tickets k ≡ some (record t { consumed = true }))
unfolding burn
burn-some e m k t id i h =
    let (same, kept) = confirm_claim-some _ _ k t id h in
    (sym i ∙ same, rw (kept, tickets-persist_locked) (get-put_self m.tickets k _))

module _ (marshal : Json → Option String) where
  pub step-IsSound :
      (e : Env) (m : Manager) (op : Op)
      → IsSound m
      → FreshFor m op
      → IsSound (step marshal e m op).0
  step-IsSound e m op s f =
      let ev = step-Evolves marshal e m op s.distinct f in
      record {
        distinct = ev.distinct s.distinct;
        keyed = λ k. Moved-KeyedAt e op k _ _ (ev.at k) (s.keyed k);
      }

  pub claim_for-missing :
      (e : Env) (m : Manager) (task tool : String) (params : Json)
      → find (claimable marshal task tool params) m.tickets ≡ none
      → claim_for marshal e m task tool params ≡ (m, none)
  unfolding claim_for
  claim_for-missing e m task tool params h = rw (h, claim_for)

  pub claim_for-found :
      (e : Env) (m : Manager) (task tool : String) (params : Json) (k : String) (t : Ticket)
      → find (claimable marshal task tool params) m.tickets ≡ some (k, t)
      → claim_for marshal e m task tool params ≡ burn e m k t
  unfolding claim_for
  claim_for-found e m task tool params k t h = rw (h, claim_for)

  -- In a store that holds each ticket once, under its id, a claim that succeeds names a ticket that
  -- was approved for this task, tool and params and not used before, and leaves it used.
  pub claim_for-claims :
      (e : Env) (m : Manager) (task tool : String) (params : Json) (id : String)
      → IsSound m
      → (claim_for marshal e m task tool params).1 ≡ some id
      → (t : Ticket) × (get m.tickets id ≡ some t)
        × IsGrant marshal task tool params t
        × (get (claim_for marshal e m task tool params).0.tickets id
            ≡ some (record t { consumed = true }))
  claim_for-claims e m task tool params id s h =
      elim (Option-cases (find (claimable marshal task tool params) m.tickets)) [
        | inl missing ↦ cc (claim_for-missing e m task tool params missing)
        | inr ((k, t), found) ↦
            let (g, c) =
              find-get (claimable marshal task tool params) m.tickets k t s.distinct found in
            let burnt = claim_for-found e m task tool params k t found in
            let (same, used) =
              burn-some e m k t id (subst (KeyedAt k) g (s.keyed k)) (rw burnt at h) in
            (
              t,
              rw (← same) g,
              claimable-IsGrant marshal task tool params t c,
              rw (← same, burnt) used,
            )
      ]

  -- How often a history unlocks an execution on one ticket.
  pub unlocks : Manager → List (Env × Op) → String → ℕ
  unlocks m [] id = 0
  unlocks m ((e, op) ∷ ops) id =
      let rest = unlocks (step marshal e m op).0 ops id in
      if is_claim id (step marshal e m op).1 then rest + 1 else rest

  -- Every id that `randID` gives along a history is new to the store.
  abbrev pub FreshRun : Manager → List (Env × Op) → Type 0
  FreshRun m [] = Unit
  FreshRun m ((e, op) ∷ ops) = FreshFor m op × FreshRun (step marshal e m op).0 ops

  step-unlocks :
      (e : Env) (m : Manager) (op : Op) (id : String)
      → IsSound m
      → (step marshal e m op).1 ≡ some id
      → (t : Ticket) × (get m.tickets id ≡ some t)
        × (t.consumed ≡ false)
        × Burnt (get (step marshal e m op).0.tickets id)
  unfolding step
  step-unlocks e m (claims task tool params) id s h =
      let (t, g, c, u) = claim_for-claims e m task tool params id s h in
      (t, g, c.fresh, rw u (c.granted, refl))
  step-unlocks e m (creates r t) id s h = cc
  step-unlocks e m _ id s h = cc

  Burnt-unlocks :
      (m : Manager) (ops : List (Env × Op)) (id : String)
      → IsSound m
      → FreshRun m ops
      → Burnt (get m.tickets id)
      → unlocks m ops id ≡ 0
  unfolding unlocks
  Burnt-unlocks m [] id s f b = refl
  Burnt-unlocks m ((e, op) ∷ ops) id s f b =
      let ev = step-Evolves marshal e m op s.distinct f.0 in
      let rest =
        Burnt-unlocks (step marshal e m op).0 ops id (step-IsSound e m op s f.0) f.1
          (Moved-Burnt e op id _ _ (ev.at id) b) in
      elim (is_claim-cases id (step marshal e m op).1) [
        | inl no_claim ↦ rw no_claim rest
        | inr claim ↦
            let (t, g, n, _) = step-unlocks e m op id s claim in
            let used : Burnt (some t) = subst Burnt g b in absurd (cc (used.1, n))
      ]

  -- Starting from a store that holds each ticket once, under its id, whatever calls are made in
  -- whatever order, one ticket unlocks at most one execution, if `randID` never gives an id that the
  -- store holds.
  pub unlocks-le-one :
      (m : Manager) (ops : List (Env × Op)) (id : String)
      → IsSound m
      → FreshRun m ops
      → unlocks m ops id ≤ 1
  unfolding unlocks
  unlocks-le-one m [] id s f = omega arith
  unlocks-le-one m ((e, op) ∷ ops) id s f =
      let next = step-IsSound e m op s f.0 in
      elim (is_claim-cases id (step marshal e m op).1) [
        | inl no_claim ↦ rw no_claim (unlocks-le-one (step marshal e m op).0 ops id next f.1)
        | inr claim ↦
            let (t, g, n, b) = step-unlocks e m op id s claim in
            let none_left = Burnt-unlocks (step marshal e m op).0 ops id next f.1 b in
            rw (claim, beq_refl, none_left) (omega arith)
      ]
