-- ===== src/Approval/Evolution.antt =====
-- internal/approval: each call of the manager moves every ticket by a step of its life.
use pvm.Prelude.{
  ℕ, ◌≤◌, String, ◌≡◌, refl, subst, inl, inr, Bool, true, false, ◌&&◌, Option, none, some, arith,
  ◌==◌, text_comparable, eq_iff, Result, ok, err, ltb, ltb→lt, Bool-cases, Option-cases,
}
use pvm.Prelude.Dict.{
  Dict, get, put, find, map_values, get-put, put-put, put-Distinct, map_values-Distinct,
  get-map_values, Distinct, find-get,
}
use mathlib.Core.Option
use pvm.Json.{Json}
use pvm.Fsjson
use pvm.Fsjson.{Disk}
use pvm.Approval.Ticket.{
  pending, approved, Ticket, Error, Manager, Env, tickets-finish, is_pending, is_approved,
  tickets-notify, tickets-persist_locked, tickets-audit_row,
}
use pvm.Approval.Manager.{
  create, admit_ticket, register, duplicates, open_window, decide_found, settle, list_pending,
  expire_listed, is_listed,
}
use pvm.Approval.Claims.{
  edit_found, claimable, claim_for, confirm_claim, confirm_mark, mark_found, expire_pending,
  expire_overdue, is_overdue,
}
use pvm.Approval.Advance.{
  Op, Advance, Moved, Evolves, Fresh, claimable→, expired_tickets, decides, edits, kept, decided,
  lapsed, amended, used, is_pending→eq, is_approved→eq, open_window-Starts, Starts,
}

module _ (e : Env) (op : Op) where
  Moved-refl : (k : String) (o : Option Ticket) → Moved e op k o o
  Moved-refl k none = tt
  Moved-refl k (some t) = kept refl

  Evolves-refl : (d : Dict String Ticket) → Evolves e op d d
  Evolves-refl d = record { at = λ k. Moved-refl k (get d k); distinct = λ h. h }

  Evolves-put :
      (d : Dict String Ticket) (k : String) (u : Ticket)
      → Moved e op k (get d k) (some u)
      → Evolves e op d (put d k u)
  Evolves-put d k u h = record {
    at = λ j. elim (Bool-cases (k == j)) [
      | inl same ↦
          rw (get-put, same) (subst (λ i. Moved e op i (get d i) (some u)) ((eq_iff k j).0 same) h)
      | inr other ↦ rw (get-put, other) (Moved-refl j (get d j))
    ];
    distinct = put-Distinct d k u;
  }

  Moved-map :
      (k : String) (f : Ticket → Ticket) (o : Option Ticket)
      → ((t : Ticket) → Advance e op k t (f t))
      → Moved e op k o (Option.map f o)
  Moved-map k f none h = tt
  Moved-map k f (some t) h = h t

  Evolves-map :
      (d : Dict String Ticket) (f : String → Ticket → Ticket)
      → ((k : String) (t : Ticket) → Advance e op k t (f k t))
      → Evolves e op d (map_values f d)
  Evolves-map d f h = record {
    at = λ k. rw get-map_values (Moved-map k (f k) (get d k) (h k));
    distinct = map_values-Distinct f d;
  }

  settle-Evolves :
      (m : Manager) (id : String) (t : Ticket) (yes? : Bool) (by : String)
      → op ≡ decides id yes? by
      → get m.tickets id ≡ some t
      → t.state ≡ pending
      → e.now ≤ t.deadline
      → Evolves e op m.tickets (settle e m id t yes? by).0.tickets
  unfolding settle
  settle-Evolves m id t yes? by o g p h =
      rw (tickets-finish, tickets-persist_locked)
        (Evolves-put m.tickets id _ (rw g (decided yes? by o p h refl)))

  pub decide_found-Evolves :
      (m : Manager) (id : String) (o : Option Ticket) (yes? : Bool) (by : String)
      → op ≡ decides id yes? by
      → get m.tickets id ≡ o
      → Evolves e op m.tickets (decide_found e m id o yes? by).0.tickets
  unfolding decide_found
  decide_found-Evolves m id none yes? by c g = Evolves-refl m.tickets
  decide_found-Evolves m id (some t) yes? by c g = elim (Bool-cases (is_pending t.state)) [
    | inl p ↦ elim (Bool-cases (ltb t.deadline e.now)) [
      | inl late ↦
          rw (p, late)
            (Evolves-put m.tickets id _
              (rw g (lapsed e.now (is_pending→eq t.state p) (ltb→lt _ _ late) refl)))
      | inr soon ↦
          rw (p, soon) (settle-Evolves m id t yes? by c g (is_pending→eq t.state p) (ground arith))
    ]
    | inr done ↦ rw done (Evolves-refl m.tickets)
  ]

  confirm_claim-Evolves :
      (r : Result Fsjson.Error (Unit {0})) (m m' : Manager) (k : String) (t : Ticket)
      → m'.tickets ≡ put m.tickets k (record t { consumed = true })
      → get m.tickets k ≡ some t
      → t.state ≡ approved
      → t.consumed ≡ false
      → Evolves e op m.tickets (confirm_claim r m' k t).0.tickets
  confirm_claim-Evolves (ok _) m m' k t s g a c =
      rw s (Evolves-put m.tickets k _ (rw g (used a refl)))
  confirm_claim-Evolves (err x) m m' k t s g a c =
      rw (s, put-put) (Evolves-put m.tickets k _ (rw g (kept (ground arith))))

  confirm_mark-Evolves :
      (r : Result Fsjson.Error (Unit {0})) (m m' : Manager) (k : String) (t : Ticket)
      → m'.tickets ≡ put m.tickets k (record t { consumed = true })
      → get m.tickets k ≡ some t
      → t.state ≡ approved
      → Evolves e op m.tickets (confirm_mark r m' k t).tickets
  confirm_mark-Evolves (ok _) m m' k t s g a = rw s (Evolves-put m.tickets k _ (rw g (used a refl)))
  confirm_mark-Evolves (err x) m m' k t s g a =
      rw (s, put-put) (Evolves-put m.tickets k _ (rw g (kept refl)))

  pub claim_for-Evolves :
      (marshal : Json → Option String) (m : Manager) (task tool : String) (params : Json)
      → Distinct m.tickets
      → Evolves e op m.tickets (claim_for marshal e m task tool params).0.tickets
  unfolding claim_for
  claim_for-Evolves marshal m task tool params d =
      elim (Option-cases (find (claimable marshal task tool params) m.tickets)) [
        | inl missing ↦ rw (missing, claim_for) (Evolves-refl m.tickets)
        | inr ((k, t), found) ↦
            let (g, c) = find-get (claimable marshal task tool params) m.tickets k t d found in
            let (a, u) = claimable→ marshal task tool params t c in
            rw (found, claim_for)
              (confirm_claim-Evolves _ m _ k t (tickets-persist_locked _ _) g a u)
      ]

  pub mark_found-Evolves :
      (m : Manager) (k : String) (o : Option Ticket)
      → get m.tickets k ≡ o
      → Evolves e op m.tickets (mark_found e m k o).tickets
  unfolding mark_found
  mark_found-Evolves m k none g = rw tickets-persist_locked (Evolves-refl m.tickets)
  mark_found-Evolves m k (some t) g = elim (Bool-cases (is_approved t.state)) [
    | inl a ↦
        rw a
          (confirm_mark-Evolves _ m _ k t (tickets-persist_locked _ _) g (is_approved→eq t.state a))
    | inr b ↦ rw b (rw tickets-persist_locked (Evolves-refl m.tickets))
  ]

  pub edit_found-Evolves :
      (m : Manager) (id : String) (o : Option Ticket) (params : Option Json) (reason by : String)
      → op ≡ edits id params reason by
      → get m.tickets id ≡ o
      → Evolves e op m.tickets (edit_found e m id o params reason by).0.tickets
  unfolding edit_found
  edit_found-Evolves m id none params reason by c g = Evolves-refl m.tickets
  edit_found-Evolves m id (some t) params reason by c g = elim (Bool-cases (is_pending t.state)) [
    | inl p ↦ rw p (
        rw (tickets-notify, tickets-audit_row, tickets-persist_locked)
          (Evolves-put m.tickets id _
            (rw g (amended params reason by c (is_pending→eq t.state p) refl))))
    | inr done ↦ rw done (Evolves-refl m.tickets)
  ]

  register-Evolves :
      (m : Manager) (t : Ticket) (id : String)
      → get m.tickets id ≡ none
      → t.state ≡ pending
      → Evolves e op m.tickets (register e m t id).0.tickets
  unfolding register
  register-Evolves m t id f p =
      rw (tickets-finish, tickets-persist_locked) (Evolves-put m.tickets id _ (rw f (refl, p)))

  admit_ticket-Evolves :
      (marshal : Json → Option String) (rand : Option String) (m : Manager)
      (r : Result Error Ticket)
      → Fresh m rand
      → Starts r
      → Evolves e op m.tickets (admit_ticket marshal e rand m r).0.tickets
  unfolding admit_ticket
  admit_ticket-Evolves marshal rand m (err x) f p = Evolves-refl m.tickets
  admit_ticket-Evolves marshal none m (ok t) f p =
      elim (Option-cases (find (duplicates marshal t) m.tickets)) [
        | inl fresh ↦ rw (fresh, admit_ticket) (Evolves-refl m.tickets)
        | inr (entry, found) ↦ rw (found, admit_ticket) (Evolves-refl m.tickets)
      ]
  admit_ticket-Evolves marshal (some id) m (ok t) f p =
      elim (Option-cases (find (duplicates marshal t) m.tickets)) [
        | inl fresh ↦ rw (fresh, admit_ticket) (register-Evolves m t id f p)
        | inr (entry, found) ↦ rw (found, admit_ticket) (Evolves-refl m.tickets)
      ]

  pub create-Evolves :
      (marshal : Json → Option String) (rand : Option String) (m : Manager) (t : Ticket)
      → Fresh m rand
      → Evolves e op m.tickets (create marshal e rand m t).0.tickets
  unfolding create
  create-Evolves marshal rand m t f =
      admit_ticket-Evolves marshal rand m (open_window e.now t) f (open_window-Starts e.now t)

  pub list_pending-Evolves :
      (task : String) (clock : String → ℕ) (m : Manager)
      → Evolves e op m.tickets (list_pending task clock m).0.tickets
  unfolding list_pending expire_listed
  list_pending-Evolves task clock m = Evolves-map m.tickets (expire_listed task clock) λ k t.
      elim (Bool-cases (is_listed task t && ltb t.deadline (clock k))) [
        | inl late ↦
            rw late (lapsed (clock k) (is_pending→eq t.state (ground arith)) (ground arith) refl)
        | inr soon ↦ rw soon (kept refl)
      ]

  pub expire_pending-Evolves :
      (clock : String → ℕ) (m : Manager)
      → Evolves e op m.tickets (expire_pending e clock m).0.tickets
  unfolding expire_pending expire_overdue
  expire_pending-Evolves clock m = rw expired_tickets (
      Evolves-map m.tickets (expire_overdue clock) λ k t. elim (Bool-cases (is_overdue clock k t)) [
        | inl late ↦
            rw late (lapsed (clock k) (is_pending→eq t.state (ground arith)) (ground arith) refl)
        | inr soon ↦ rw soon (kept refl)
      ])
