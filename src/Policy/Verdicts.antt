-- ===== src/Policy/Verdicts.antt =====
-- `Execute` of internal/policy/gateway.go: when the executor runs.
use pvm.Prelude.{
  String, ◌≡◌, refl, sym, ◌⊎◌, inl, inr, Option, none, some, Result, ok, err, str_append, subst,
}
use pvm.Audit.Record.{Record}
use pvm.Audit.Record
use pvm.Policy.Gateway.{
  Action, allow, constrain, approve, deny, other, ToolRequest, ToolResponse, Rule, Gateway, decide,
  audit,
}
use pvm.Policy.Execute.{
  unlocked, ask, run, act_on, execute, finish_run, finish_approved, call_approved, notify_approved,
  claimed, approval,
}

module _ {ℓ} {S : Type ℓ} (g : Gateway S) (req : ToolRequest) where
  -- What a request may do to the world, by the action that `Decide` names: nothing; run the executor, if
  -- the action is allow or constrain; for approve, look for a ticket that is not there; or claim one,
  -- tell the hook of it, and run the executor, if there is one.
  pub data Touches (s : S) : Action → S → Type ℓ where
    untouched : (a : Action) → Touches s a s
    ran :
        (call : ToolRequest → S → S × Result String ToolResponse) (a : Action)
        → (a ≡ allow) ⊎ (a ≡ constrain)
        → g.hooks.executor ≡ some call
        → Touches s a (call req s).0
    refused :
        (check : ToolRequest → S → S × Option String)
        → g.hooks.approval_check ≡ some check
        → (check req s).1 ≡ none
        → Touches s approve (check req s).0
    dry :
        (check : ToolRequest → S → S × Option String) (ticket : String)
        → g.hooks.approval_check ≡ some check
        → (check req s).1 ≡ some ticket
        → Touches s approve (notify_approved g.hooks.on_approved ticket (check req s).0)
    unlocked_by :
        (check : ToolRequest → S → S × Option String) (ticket : String)
        (call : ToolRequest → S → S × Result String ToolResponse)
        → g.hooks.approval_check ≡ some check
        → (check req s).1 ≡ some ticket
        → g.hooks.executor ≡ some call
        → Touches s approve
            (call req (notify_approved g.hooks.on_approved ticket (check req s).0)).0

  finish_run-world :
      (redact : String → String) (dec : Record.Decision) (word : String)
      (p : S × Result String ToolResponse)
      → (finish_run redact g req dec word p).0 ≡ p.0
  finish_run-world redact dec word (s, ok resp) = refl
  finish_run-world redact dec word (s, err text) = refl

  run-Touches :
      (redact : String → String) (dec : Record.Decision) (word : String) (a : Action) (s : S)
      (o : Option (ToolRequest → S → S × Result String ToolResponse))
      → (a ≡ allow) ⊎ (a ≡ constrain)
      → g.hooks.executor ≡ o
      → Touches s a (run redact g req dec word o s).0
  unfolding run
  run-Touches redact dec word a s none k q = untouched a
  run-Touches redact dec word a s (some call) k q =
      subst (Touches s a) (sym (finish_run-world redact dec word (call req s))) (ran call a k q)

  pub call_approved-world :
      (redact : String → String) (h : Gateway S) (ticket : String) (s : S)
      (call : ToolRequest → S → S × Result String ToolResponse)
      → (call_approved redact h req ticket (some call) s).0 ≡ (call req s).0
  call_approved-world redact h ticket s call = go (call req s)
    where
      go : (p : S × Result String ToolResponse) → (finish_approved redact h req p).0 ≡ p.0
      go (s, ok resp) = refl
      go (s, err text) = refl

  ticketed :
      (redact : String → String) (h : Gateway S) (ticket : String) (s : S)
      (check : ToolRequest → S → S × Option String)
      (e : Option (ToolRequest → S → S × Result String ToolResponse))
      → g.hooks.approval_check ≡ some check
      → (check req s).1 ≡ some ticket
      → g.hooks.executor ≡ e
      → Touches s approve
          (call_approved redact h req ticket e
            (notify_approved g.hooks.on_approved ticket (check req s).0)).0
  ticketed redact h ticket s check none c t q = dry check ticket c t
  ticketed redact h ticket s check (some call) c t q =
      subst (Touches s approve)
        (sym (
          call_approved-world redact h ticket
            (notify_approved g.hooks.on_approved ticket (check req s).0) call))
        (unlocked_by check ticket call c t q)

  claimed-Touches :
      (redact : String → String) (r : Rule) (s : S) (check : ToolRequest → S → S × Option String)
      (o : Option String)
      → g.hooks.approval_check ≡ some check
      → (check req s).1 ≡ o
      → Touches s approve (claimed redact g req r ((check req s).0, o)).0
  unfolding unlocked ask
  claimed-Touches redact r s check none c t = refused check c t
  claimed-Touches redact r s check (some ticket) c t =
      ticketed redact
        (audit redact g req Record.allow (str_append "unlocked by approved ticket " ticket)) ticket
        s check g.hooks.executor c t refl

  approval-Touches :
      (redact : String → String) (r : Rule) (s : S)
      (o : Option (ToolRequest → S → S × Option String))
      → g.hooks.approval_check ≡ o
      → Touches s approve (approval redact g req r o s).0
  unfolding ask
  approval-Touches redact r s none c = untouched approve
  approval-Touches redact r s (some check) c =
      claimed-Touches redact r s check (check req s).1 c refl

  act_on-Touches :
      (redact : String → String) (r : Rule) (a : Action) (s : S)
      → Touches s a (act_on redact g req r a s).0
  unfolding act_on
  act_on-Touches redact r allow s =
      run-Touches redact Record.allow "allow" allow s g.hooks.executor (inl refl) refl
  act_on-Touches redact r constrain s =
      run-Touches redact Record.constrain "constrain" constrain s g.hooks.executor (inr refl) refl
  act_on-Touches redact r approve s = approval-Touches redact r s g.hooks.approval_check refl
  act_on-Touches redact r deny s = untouched deny
  act_on-Touches redact r (other text) s = untouched (other text)

  -- `Execute` lets a request touch the world only as its verdict permits: the executor runs only on allow
  -- or constrain, or on approve after the approval check returned a ticket, once, and after the hook was
  -- told; a denied request, or one with an unknown action, changes nothing.
  pub execute-Touches :
      (redact : String → String) (s : S)
      → Touches s (decide g.rules req).0 (execute redact g req s).0
  unfolding execute
  execute-Touches redact s = act_on-Touches redact (decide g.rules req).1 (decide g.rules req).0 s
