-- ===== src/Approval/Advance.antt =====
-- internal/approval: what a call may do to a ticket that is in the store.
use pvm.Prelude.{
  ℕ, ◌≤◌, ◌<◌, String, ◌≡◌, inl, inr, Bool, true, false, Option, none, some, arith, text_comparable,
  if◌then◌else◌, Result, ok, err, ltb, Bool-cases, Option-cases, eq_iff, ap, sym, ◌∙◌, ◌==◌,
}
use pvm.Prelude.Dict.{Dict, get, map_values, Distinct}
use pvm.Json.{Json}
use pvm.Approval.Ticket.{
  State, pending, approved, rejected, expired, Ticket, Error, Manager, Env, is_pending, is_approved,
  tickets-persist_locked,
}
use pvm.Approval.Manager.{open_window, same_params}
use pvm.Approval.Claims.{claimable, expire_pending, expire_overdue, count_overdue}

-- The calls that can change the store, with the random id or the clock that they read.
pub data Op : Type 0 where
  creates : Option String → Ticket → Op
  decides : String → Bool → String → Op
  lists : String → (String → ℕ) → Op
  edits : String → Option Json → String → String → Op
  claims : String → String → Json → Op
  marks : String → Op
  expires : (String → ℕ) → Op

-- The params of an edit, when it has some.
abbrev pub chosen : Json → Option Json → Json
chosen old none = old
chosen old (some new) = new

-- A call on the ticket stored under `k`: it stays, or takes one step of its life.
pub data Advance (e : Env) (op : Op) (k : String) (t u : Ticket) : Type 0 where
  kept : u ≡ t → Advance e op k t u
  decided :
      (yes? : Bool) (by : String)
      → op ≡ decides k yes? by
      → t.state ≡ pending
      → e.now ≤ t.deadline
      → u ≡ record t {
        state = if yes? then approved else rejected;
        decided_by = by;
        decided_at = e.later;
      }
      → Advance e op k t u
  lapsed :
      (now : ℕ)
      → t.state ≡ pending
      → t.deadline < now
      → u ≡ record t { state = expired }
      → Advance e op k t u
  amended :
      (params : Option Json) (reason by : String)
      → op ≡ edits k params reason by
      → t.state ≡ pending
      → u ≡ record t {
        params = chosen t.params params;
        rollback = if reason == "" then t.rollback else reason;
        edited_by = by;
        edited_at = some e.now;
      }
      → Advance e op k t u
  used : t.state ≡ approved → u ≡ record t { consumed = true } → Advance e op k t u

abbrev pub Moved : Env → Op → String → Option Ticket → Option Ticket → Type 0
Moved e op k none none = Unit
Moved e op k none (some u) = (u.id ≡ k) × (u.state ≡ pending)
Moved e op k (some t) none = ⊥
Moved e op k (some t) (some u) = Advance e op k t u

-- Every ticket of the store moves by a step.
pub record Evolves (e : Env) (op : Op) (d d' : Dict String Ticket) : Type 0 where
  pub at : (k : String) → Moved e op k (get d k) (get d' k)
  pub distinct : Distinct d → Distinct d'

-- `randID` gives an id that the store does not hold.
abbrev pub Fresh : Manager → Option String → Type 0
Fresh m none = Unit
Fresh m (some id) = get m.tickets id ≡ none

abbrev pub Starts : Result Error Ticket → Type 0
Starts (err x) = Unit
Starts (ok t) = t.state ≡ pending

pub open_window-Starts : (now : ℕ) (t : Ticket) → Starts (open_window now t)
unfolding open_window
open_window-Starts now t = ground arith

pub is_pending→eq : (s : State) → is_pending s ≡ true → s ≡ pending
is_pending→eq s h = ground arith

pub is_approved→eq : (s : State) → is_approved s ≡ true → s ≡ approved
is_approved→eq s h = ground arith

-- A ticket that a human approved for exactly this task, tool and params, and that was not used: both params
-- have one encoding.
pub record IsGrant (marshal : Json → Option String) (task tool : String) (params : Json)
    (t : Ticket) : Type 0 where
  pub same_task : t.task_id ≡ task
  pub same_tool : t.tool ≡ tool
  pub granted : t.state ≡ approved
  pub fresh : t.consumed ≡ false
  pub same_text : (text : String) × (marshal t.params ≡ some text) × (marshal params ≡ some text)

same_params→ :
    (marshal : Json → Option String) (a b : Json)
    → same_params marshal a b ≡ true
    → (text : String) × (marshal a ≡ some text) × (marshal b ≡ some text)
unfolding same_params
same_params→ marshal a b h = elim (Option-cases (marshal a)) [
  | inl none? ↦ cc (rw none? at h)
  | inr (x, p) ↦ elim (Option-cases (marshal b)) [
    | inl none? ↦ cc (rw (p, none?) at h)
    | inr (y, q) ↦
        let same : x ≡ y = (eq_iff x y).0 (rw (p, q) at h) in (x, p, q ∙ ap some (sym same))
  ]
]

pub claimable-IsGrant :
    (marshal : Json → Option String) (task tool : String) (params : Json) (t : Ticket)
    → claimable marshal task tool params t ≡ true
    → IsGrant marshal task tool params t
unfolding claimable
claimable-IsGrant marshal task tool params t h = record {
  same_task = ground (arith, h, eq_iff t.task_id task);
  same_tool = ground (arith, h, eq_iff t.tool tool);
  granted = ground (arith, h);
  fresh = ground (arith, h);
  same_text = same_params→ marshal t.params params (ground (arith, h));
}

pub claimable→ :
    (marshal : Json → Option String) (task tool : String) (params : Json) (t : Ticket)
    → claimable marshal task tool params t ≡ true
    → (t.state ≡ approved) × (t.consumed ≡ false)
unfolding claimable
claimable→ marshal task tool params t h = ground arith

pub expired_tickets :
    (e : Env) (clock : String → ℕ) (m : Manager)
    → (expire_pending e clock m).0.tickets ≡ map_values (expire_overdue clock) m.tickets
unfolding expire_pending
expired_tickets e clock m = elim (Bool-cases (ltb 0 (count_overdue clock m.tickets))) [
  | inl some? ↦ rw (some?, expire_pending) (rw tickets-persist_locked)
  | inr none? ↦ rw (none?, expire_pending)
]
