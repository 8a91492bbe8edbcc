-- ===== src/Approval/Branches.antt =====
-- internal/approval: what `Create`, `Edit`, `ClaimFor` and the expiry loops return and leave behind.
use pvm.Prelude.{
  ℕ, ◌+◌, ◌≤◌, ◌<◌, String, ◌≡◌, refl, sym, ap, ◌∙◌, inl, inr, true, false, Option, none, some,
  some-injective, [], ◌∷◌, select, arith, ◌==◌, text_comparable, Result, ok, err, Option-cases,
}
use pvm.Prelude.Dict.{
  Dict, get, put, find, find-get, Distinct, put-put, put_self, get-put_self, map_values,
  get-map_values,
}
use pvm.Json.{Json}
use pvm.Fsjson
use pvm.Approval.Ticket.{
  Error, pending, Ticket, Manager, Env, values, persist_locked-file, tickets-persist_locked,
  tickets-finish, finish, hour,
}
use pvm.Approval.Manager.{
  create, admit_ticket, register, duplicates, open_window, is_listed, expire_listed, open_tickets,
  list_pending,
}
use pvm.Approval.Claims.{
  claimable, claim_for, burn, confirm_claim, edit, edit_found, amend, expire_pending,
  expire_overdue, is_overdue,
}
use pvm.Approval.Advance.{expired_tickets, claimable→}
use pvm.Approval.OneShot.{claim_for-missing, claim_for-found}

-- The part of a new ticket that the caller keeps, and the window of its deadline.
pub record Opened (now : ℕ) (t u : Ticket) : Type 0 where
  pub pends : u.state ≡ pending
  pub from : now ≤ u.deadline
  pub to : u.deadline ≤ now + hour
  pub task : u.task_id ≡ t.task_id
  pub tool : u.tool ≡ t.tool
  pub params : u.params ≡ t.params

open_window-Opened : (now : ℕ) (t u : Ticket) → open_window now t ≡ ok u → Opened now t u
unfolding open_window
open_window-Opened now t u h = ground arith

finish-ok {ℓ} :
    {A : Type ℓ} (r : Result Fsjson.Error (Unit {0})) (f : Manager → Manager) (m : Manager)
    (a b : A)
    → (finish r f m a).1 ≡ ok b
    → a ≡ b
unfolding finish
finish-ok (ok _) f m a b h = ground arith
finish-ok (err e) f m a b h = cc

module _ (marshal : Json → Option String) (e : Env) where
  -- The store holds the ticket that `Create` was given, completed, and held no duplicate of it.
  abbrev pub Admitted : Manager → Ticket → String → Manager → Type 0
  Admitted m t id m' =
      (u : Ticket) × (get m'.tickets id ≡ some u)
      × Opened e.now t u
      × (find (duplicates marshal u) m.tickets ≡ none)

  register-Admitted :
      (m : Manager) (t0 t : Ticket) (id k : String)
      → Opened e.now t0 t
      → find (duplicates marshal t) m.tickets ≡ none
      → (register e m t k).1 ≡ ok id
      → Admitted m t0 id (register e m t k).0
  unfolding register duplicates
  register-Admitted m t0 t id k o f h =
      let same = finish-ok _ _ _ k id h in
      (
        record t { id = k },
        rw (tickets-finish, tickets-persist_locked, ← same) (get-put_self m.tickets k _),
        ground arith,
        f,
      )

  admit_ticket-Admitted :
      (rand : Option String) (m : Manager) (t : Ticket) (r : Result Error Ticket) (id : String)
      → open_window e.now t ≡ r
      → (admit_ticket marshal e rand m r).1 ≡ ok id
      → Admitted m t id (admit_ticket marshal e rand m r).0
  unfolding admit_ticket
  admit_ticket-Admitted rand m t (err x) id w h = cc
  admit_ticket-Admitted none m t (ok u) id w h = absurd (ground arith)
  admit_ticket-Admitted (some k) m t (ok u) id w h =
      elim (Option-cases (find (duplicates marshal u) m.tickets)) [
        | inl fresh ↦
            rw (fresh, admit_ticket)
              (register-Admitted m t u id k (open_window-Opened e.now t u w) fresh
                (rw (fresh, admit_ticket) at h))
        | inr (entry, found) ↦ cc (rw (found, admit_ticket) at h)
      ]

  -- A ticket that `Create` accepts is stored as pending under the id returned, with the caller's
  -- task, tool and params and a deadline between now and an hour from now, and the store held no
  -- ticket that was pending for the same task, tool and params.
  pub create-Admitted :
      (rand : Option String) (m : Manager) (t : Ticket) (id : String)
      → (create marshal e rand m t).1 ≡ ok id
      → Admitted m t id (create marshal e rand m t).0
  unfolding create
  create-Admitted rand m t id h = admit_ticket-Admitted rand m t (open_window e.now t) id refl h

-- A claim that succeeds is on disk; one that does not has changed no ticket.
abbrev pub Durable : Manager → Manager × Option String → Type 0
Durable m (m', none) = m'.tickets ≡ m.tickets
Durable m (m', some id) = m'.file ≡ values m'.tickets

confirm_claim-Durable :
    (r : Result Fsjson.Error (Unit {0})) (m m' : Manager) (k : String) (t : Ticket)
    → m'.tickets ≡ put m.tickets k (record t { consumed = true })
    → get m.tickets k ≡ some t
    → t.consumed ≡ false
    → (r ≡ ok tt → m'.file ≡ values m'.tickets)
    → Durable m (confirm_claim r m' k t)
confirm_claim-Durable (ok tt) m m' k t s g c f = f refl
confirm_claim-Durable (err x) m m' k t s g c f =
    rw (s, put-put) (put_self m.tickets k _ (rw g (ground arith)))

-- With a store on disk, and no id twice in it, a claim that unlocks an execution is in the file before `ClaimFor` returns,
-- and a claim that is refused leaves every ticket as it was, so that it can be tried again.
pub claim_for-Durable :
    (marshal : Json → Option String) (e : Env) (m : Manager) (task tool : String) (params : Json)
    → Distinct m.tickets
    → (m.persist_path == "") ≡ false
    → Durable m (claim_for marshal e m task tool params)
unfolding burn
claim_for-Durable marshal e m task tool params d p =
    elim (Option-cases (find (claimable marshal task tool params) m.tickets)) [
      | inl missing ↦ rw (claim_for-missing marshal e m task tool params missing) refl
      | inr ((k, t), found) ↦
          let (g, c) = find-get (claimable marshal task tool params) m.tickets k t d found in
          let (a, n) = claimable→ marshal task tool params t c in
          rw (claim_for-found marshal e m task tool params k t found) (
            confirm_claim-Durable _ m _ k t (tickets-persist_locked _ _) g n (λ h.
              persist_locked-file e.disk _ p h ∙ ap values (sym (tickets-persist_locked _ _))))
    ]

-- An expired deadline does not stop `Edit`: the ticket counts as pending until some other call
-- has looked at it.
pub edit_overdue :
    (e : Env) (m : Manager) (id : String) (t : Ticket) (params : Option Json) (reason by : String)
    → get m.tickets id ≡ some t
    → t.state ≡ pending
    → t.deadline < e.now
    → (edit e m id params reason by).1 ≡ ok (amend e t params reason by)
unfolding edit edit_found
edit_overdue e m id t params reason by g p late = rw (g, edit) (rw (p, edit_found))

expire_overdue-clears :
    (clock : String → ℕ) (k : String) (t : Ticket)
    → is_overdue clock k (expire_overdue clock k t) ≡ false
unfolding expire_overdue
expire_overdue-clears clock k t = ground arith

-- After `ExpirePending` no ticket is pending past the deadline, by the clock that the round read.
pub expire_pending-clears :
    (e : Env) (clock : String → ℕ) (m : Manager) (k : String) (u : Ticket)
    → get (expire_pending e clock m).0.tickets k ≡ some u
    → is_overdue clock k u ≡ false
unfolding expire_overdue
expire_pending-clears e clock m k u h = elim (Option-cases (get m.tickets k)) [
  | inl missing ↦ cc (rw (expired_tickets, get-map_values, missing) at h)
  | inr (t, g) ↦
      let changed = rw (expired_tickets, get-map_values, g) at h in
      rw (← some-injective _ _ changed) (expire_overdue-clears clock k t)
]

select-open_tickets :
    (task : String) (clock : String → ℕ) (d : Dict String Ticket)
    → open_tickets task clock d
      ≡ select (is_listed task) (values (map_values (expire_listed task clock) d))
unfolding open_tickets map_values expire_listed is_listed
select-open_tickets task clock [] = refl
select-open_tickets task clock ((k, t) ∷ d) = ground (arith, select-open_tickets task clock d)

-- `Pending` returns exactly the tickets of the task, or of all, that are still pending once it has
-- expired those past their deadlines.
pub list_pending_exact :
    (task : String) (clock : String → ℕ) (m : Manager)
    → (list_pending task clock m).1
      ≡ select (is_listed task) (values (list_pending task clock m).0.tickets)
unfolding list_pending
list_pending_exact task clock m = select-open_tickets task clock m.tickets
