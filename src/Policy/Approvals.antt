-- ===== src/Policy/Approvals.antt =====
-- The gateway of internal/policy/gateway.go with the claim that `ensureGatewayRuntime` of
-- internal/api/exec_runtime.go wires to it: `ClaimFor` of internal/approval/store.go.
use pvm.Prelude.{
  String, ◌≡◌, refl, sym, subst, true, Option, none, some, Result, str_append, text_comparable,
}
use pvm.Prelude.Dict.{get}
use pvm.Json.{Json, obj}
use pvm.Audit.Record
use pvm.Approval.Ticket.{Ticket, Manager, Env}
use pvm.Approval.Claims.{claim_for}
use pvm.Approval.Advance.{IsGrant}
use pvm.Approval.OneShot.{IsSound, claim_for-claims}
use pvm.Policy.Gateway.{approve, ToolRequest, ToolResponse, Rule, Hooks, Gateway, decide, audit}
use pvm.Policy.Execute.{unlocked, ask, act_on, execute, claimed}
use pvm.Policy.Verdicts.{call_approved-world}

-- Nothing happened outside, or an unused ticket approved for this task, tool and args was used up.
pub data IsUnlocked {X : Type 0} (marshal : Json → Option String) (task : String)
    (req : ToolRequest) (m : Manager) (x : X) (w : Manager × X) : Type 0 where
  still : w.1 ≡ x → IsUnlocked marshal task req m x w
  used_up :
      (id : String) (t : Ticket)
      → get m.tickets id ≡ some t
      → IsGrant marshal task req.name (obj req.args) t
      → get w.0.tickets id ≡ some (record t { consumed = true })
      → IsUnlocked marshal task req m x w

module _ {X : Type 0} (marshal : Json → Option String) (e : Env) (task : String)
    (call : ToolRequest → X → X × Result String ToolResponse) where
  abbrev run_outside : ToolRequest → Manager × X → (Manager × X) × Result String ToolResponse
  run_outside req (m, x) = let (x', r) = call req x in ((m, x'), r)

  abbrev claim_ticket : ToolRequest → Manager × X → (Manager × X) × Option String
  claim_ticket req (m, x) =
      let (m', o) = claim_for marshal e m task req.name (obj req.args) in ((m', x), o)

  -- The hooks of a task: the tickets are the manager's, and the executor acts on the rest of the world. The
  -- hook on approvals, which counts them in a metric, is left out.
  unfoldable pub wired : Hooks (Manager × X)
  wired = record {
    executor = some run_outside;
    approval_check = some claim_ticket;
    on_approved = none;
  }

  module _ (redact : String → String) (g : Gateway (Manager × X)) (req : ToolRequest) (m : Manager)
      (x : X) (s : IsSound m) where
    claimed-IsUnlocked :
        (r : Rule) (o : Option String)
        → (claim_for marshal e m task req.name (obj req.args)).1 ≡ o
        → IsUnlocked marshal task req m x
            (claimed redact
              (record g { hooks = wired })
              req
              r
              (((claim_for marshal e m task req.name (obj req.args)).0, x), o)).0
    unfolding wired unlocked ask
    claimed-IsUnlocked r none q = still refl
    claimed-IsUnlocked r (some id) q =
        let m' = (claim_for marshal e m task req.name (obj req.args)).0 in
        let (t, found, fits, used) =
          claim_for-claims marshal e m task req.name (obj req.args) id s q in
        subst (IsUnlocked marshal task req m x)
          (sym (
            call_approved-world (record g { hooks = wired }) req redact
              (audit redact (record g { hooks = wired }) req Record.allow
                (str_append "unlocked by approved ticket " id))
              id (m', x) run_outside))
          (used_up id t found fits used)

    -- When the rules ask for approval, a request that is executed by a gateway with this claim has an
    -- effect outside the approval manager, whose store holds each ticket once under its id, only by using up a ticket that was approved for exactly its
    -- task, tool and args and not used before.
    pub execute-IsUnlocked :
        (decide g.rules req).0 ≡ approve
        → IsUnlocked marshal task req m x (execute redact (record g { hooks = wired }) req (m, x)).0
    unfolding execute act_on wired
    execute-IsUnlocked h =
        rw (h, act_on)
          (claimed-IsUnlocked (decide g.rules req).1
            (claim_for marshal e m task req.name (obj req.args)).1 refl)
