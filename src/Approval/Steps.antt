-- ===== src/Approval/Steps.antt =====
-- internal/approval: the manager's calls in any order, and what holds along every history.
use pvm.Prelude.{
  ◌≤◌, String, ◌≡◌, ◌≢◌, refl, sym, subst, some-injective, ◌∙◌, true, false, Option, none, some,
  arith, text_comparable,
}
use pvm.Prelude.Dict.{get, Distinct}
use pvm.Json.{Json}
use pvm.Approval.Ticket.{pending, approved, Ticket, Manager, Env}
use pvm.Approval.Manager.{create, decide, list_pending}
use pvm.Approval.Claims.{edit, claim_for, mark_consumed, expire_pending, amend}
use pvm.Approval.Advance.{
  Op, creates, decides, lists, edits, claims, marks, expires, Advance, kept, decided, lapsed,
  amended, used, Moved, Evolves, Fresh,
}
use pvm.Approval.Evolution.{
  create-Evolves, decide_found-Evolves, edit_found-Evolves, claim_for-Evolves, mark_found-Evolves,
  list_pending-Evolves, expire_pending-Evolves,
}

abbrev pub FreshFor : Manager → Op → Type 0
FreshFor m (creates rand t) = Fresh m rand
FreshFor m _ = Unit

module _ (marshal : Json → Option String) where
  -- The manager after a call, and the ticket that a claim unlocked.
  unfoldable pub step : Env → Manager → Op → Manager × Option String
  step e m (creates rand t) = ((create marshal e rand m t).0, none)
  step e m (decides id yes? by) = ((decide e m id yes? by).0, none)
  step e m (lists task clock) = ((list_pending task clock m).0, none)
  step e m (edits id params reason by) = ((edit e m id params reason by).0, none)
  step e m (claims task tool params) = claim_for marshal e m task tool params
  step e m (marks id) = (mark_consumed e m id, none)
  step e m (expires clock) = ((expire_pending e clock m).0, none)

  pub step-Evolves :
      (e : Env) (m : Manager) (op : Op)
      → Distinct m.tickets
      → FreshFor m op
      → Evolves e op m.tickets (step e m op).0.tickets
  unfolding step decide edit mark_consumed
  step-Evolves e m (creates rand t) d f = create-Evolves e _ marshal rand m t f
  step-Evolves e m (decides id yes? by) d f =
      decide_found-Evolves e _ m id (get m.tickets id) yes? by refl refl
  step-Evolves e m (lists task clock) d f = list_pending-Evolves e _ task clock m
  step-Evolves e m (edits id params reason by) d f =
      edit_found-Evolves e _ m id (get m.tickets id) params reason by refl refl
  step-Evolves e m (claims task tool params) d f =
      claim_for-Evolves e _ marshal m task tool params d
  step-Evolves e m (marks id) d f = mark_found-Evolves e _ m id (get m.tickets id) refl
  step-Evolves e m (expires clock) d f = expire_pending-Evolves e _ clock m

-- A ticket becomes approved by the call of `Decide` that approves it, and by no other call.
Advance-approved :
    (e : Env) (op : Op) (k : String) (t u : Ticket)
    → Advance e op k t u
    → t.state ≢ approved
    → u.state ≡ approved
    → (by : String) × (op ≡ decides k true by)
      × (t.state ≡ pending)
      × (e.now ≤ t.deadline)
      × (u.params ≡ t.params)
unfolding amend
Advance-approved e op k t u (kept h) n a = absurd (n (ground arith))
Advance-approved e op k t u (decided true by o p l h) n a = (by, o, p, l, rw h)
Advance-approved e op k t u (decided false by o p l h) n a = ground arith
Advance-approved e op k t u (lapsed now p l h) n a = ground arith
Advance-approved e op k t u (amended params reason by o p h) n a = ground arith
Advance-approved e op k t u (used p h) n a = absurd (n p)

-- What a decision fixes: an approved ticket keeps all that the human saw, and its state.
pub record Frozen (t u : Ticket) : Type 0 where
  pub id : u.id ≡ t.id
  pub task_id : u.task_id ≡ t.task_id
  pub tool : u.tool ≡ t.tool
  pub params : u.params ≡ t.params
  pub target : u.target ≡ t.target
  pub state : u.state ≡ t.state

Advance-Frozen :
    (e : Env) (op : Op) (k : String) (t u : Ticket)
    → Advance e op k t u
    → t.state ≡ approved
    → Frozen t u
Advance-Frozen e op k t u (kept h) a = ground arith
Advance-Frozen e op k t u (decided yes? by o p l h) a = ground arith
Advance-Frozen e op k t u (lapsed now p l h) a = ground arith
Advance-Frozen e op k t u (amended params reason by o p h) a = ground arith
Advance-Frozen e op k t u (used p h) a = ground arith

pub Advance-id : (e : Env) (op : Op) (k : String) (t u : Ticket) → Advance e op k t u → u.id ≡ t.id
unfolding amend
Advance-id e op k t u (kept h) = ground arith
Advance-id e op k t u (decided yes? by o p l h) = ground arith
Advance-id e op k t u (lapsed now p l h) = ground arith
Advance-id e op k t u (amended params reason by o p h) = ground arith
Advance-id e op k t u (used p h) = ground arith

-- Approved, and used.
abbrev pub Burnt : Option Ticket → Type 0
Burnt none = ⊥
Burnt (some t) = (t.state ≡ approved) × (t.consumed ≡ true)

pub Advance-Burnt :
    (e : Env) (op : Op) (k : String) (t u : Ticket)
    → Advance e op k t u
    → Burnt (some t)
    → Burnt (some u)
Advance-Burnt e op k t u (kept h) b = ground arith
Advance-Burnt e op k t u (decided yes? by o p l h) b = ground arith
Advance-Burnt e op k t u (lapsed now p l h) b = ground arith
Advance-Burnt e op k t u (amended params reason by o p h) b = ground arith
Advance-Burnt e op k t u (used p h) b = ground arith

Moved-some :
    (e : Env) (op : Op) (k : String) (t : Ticket) (o : Option Ticket)
    → Moved e op k (some t) o
    → (u : Ticket) × (o ≡ some u) × Advance e op k t u
Moved-some e op k t none h = absurd h
Moved-some e op k t (some u) h = (u, refl, h)

module _ (marshal : Json → Option String) (e : Env) (m : Manager) (op : Op) (k : String)
    (t : Ticket) where
  step-some :
      Distinct m.tickets
      → FreshFor m op
      → get m.tickets k ≡ some t
      → (u : Ticket) × (get (step marshal e m op).0.tickets k ≡ some u) × Advance e op k t u
  step-some d f g = Moved-some e op k t _ (
      subst (λ o. Moved e op k o (get (step marshal e m op).0.tickets k)) g
        ((step-Evolves marshal e m op d f).at k))

  -- A stored ticket that was not approved is approved after a call only if the call was a decision
  -- to approve it, while it was pending and not after its deadline, and with the params that it had;
  -- in a store without duplicate ids, if `randID` gives a new one.
  pub step-approved :
      (u : Ticket)
      → Distinct m.tickets
      → FreshFor m op
      → get m.tickets k ≡ some t
      → t.state ≢ approved
      → get (step marshal e m op).0.tickets k ≡ some u
      → u.state ≡ approved
      → (by : String) × (op ≡ decides k true by)
        × (t.state ≡ pending)
        × (e.now ≤ t.deadline)
        × (u.params ≡ t.params)
  step-approved u d f g n h a =
      let (w, s, v) = step-some d f g in
      Advance-approved e op k t u (subst (Advance e op k t) (some-injective w u (sym s ∙ h)) v) n a

  -- An approved ticket keeps its id, task, tool, params, target and state through every call, in a
  -- store without duplicate ids, if `randID` gives a new one.
  pub step-Frozen :
      Distinct m.tickets
      → FreshFor m op
      → get m.tickets k ≡ some t
      → t.state ≡ approved
      → (u : Ticket) × (get (step marshal e m op).0.tickets k ≡ some u) × Frozen t u
  step-Frozen d f g a = let (u, s, v) = step-some d f g in (u, s, Advance-Frozen e op k t u v a)
