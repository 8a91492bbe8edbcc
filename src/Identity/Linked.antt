-- ===== src/Identity/Linked.antt =====
-- internal/identity/broker.go and persist.go: the index of live tokens over any history of calls.
use pvm.Prelude.{
  ℕ, String, ◌≡◌, not, ◌&&◌, ◌||◌, Option, none, some, List, [], ◌∷◌, ◌==◌, text_comparable,
  nat_comparable, arith, ltb, if◌then◌else◌, Result, ok, err, inl, inr, Bool-cases, Option-cases,
}
use pvm.Prelude.Dict.{get, get-put_self, get-del}
use pvm.Audit.Record.{Record}
use pvm.Fsjson.{Disk}
use pvm.Identity.Broker.{
  Token, has, Content, absent, blank, corrupt, stored, Broker, Error, Codec, Env, unlink, link,
  hand_out, mint, new_token, new_broker, is_none, mint_row, live,
}
use pvm.Identity.Lease.{
  check_token, checked, validate, open_token, linked_revoked, require_scope, scoped, granted,
  first_missing, Reading, merge_file, persist_revocations, started, task_of, replaced, retire,
  renew, refresh, revoke,
}
use pvm.Identity.Forever.{
  Op, mints, validates, forgets, requires, refreshes, revokes, revokes_all, restarts, step, run,
  restart,
}
use pvm.Identity.Index.{
  IsLinked, link-IsLinked, unlink-IsLinked, unlink_minted-IsLinked, append_row-IsLinked,
  persist_locked-IsLinked, revoke-IsLinked, revoke_all_for_task-IsLinked,
}

abbrev Unused : Broker → Option String → Type 0
Unused b none = Unit
Unused b (some id) = get b.task_by_token id ≡ none

hand_out-IsLinked :
    (c : Codec) (e : Env) (b : Broker) (u : Token) (ttl : ℕ) (o : Option String)
    → get b.task_by_token u.id ≡ none
    → IsLinked b
    → IsLinked (hand_out c e b u ttl o).0
unfolding hand_out link
hand_out-IsLinked c e b u ttl none n h = h
hand_out-IsLinked c e b u ttl (some payload) n h =
    elim (Bool-cases (is_none b.ledger || e.append)) [
      | inl takes ↦
          rw (takes, hand_out)
            (append_row-IsLinked e (mint_row c u ttl) _ (link-IsLinked b u.task u.id n h))
      | inr refuses ↦
          rw (refuses, hand_out)
            (unlink_minted-IsLinked (link b u.task u.id) u.task u.id
              (get-put_self b.task_by_token u.id u.task) (link-IsLinked b u.task u.id n h))
    ]

mint-IsLinked :
    (c : Codec) (e : Env) (rand : Option String) (b : Broker) (caller tenant task : String)
    (scope : List String) (ttl : ℕ)
    → Unused b rand
    → IsLinked b
    → IsLinked (mint c e rand b caller tenant task scope ttl).0
unfolding mint new_token
mint-IsLinked c e none b caller tenant task scope ttl n h = h
mint-IsLinked c e (some id) b caller tenant task scope ttl n h =
    hand_out-IsLinked c e b
      (new_token e id caller tenant task scope (if ttl == 0 then b.default_ttl else ttl)) _ _ n h

-- What a validation may do to the index: nothing, or drop a token.
abbrev pub Checks : Broker → Broker → Type 0
Checks b b' = (IsLinked b → IsLinked b') × ((o : Option String) → Unused b o → Unused b' o)

unlink-Unused : (b : Broker) (id : String) (o : Option String) → Unused b o → Unused (unlink b id) o
unfolding unlink
unlink-Unused b id none n = tt
unlink-Unused b id (some k) n = elim (Option-cases (get b.task_by_token id)) [
  | inl missing ↦ rw (missing, unlink) n
  | inr (task, found) ↦ rw (found, unlink) (ground (arith, get-del b.task_by_token id k, n))
]

check_token-Checks : (now : ℕ) (b : Broker) (u : Token) → Checks b (check_token now b u).0
unfolding check_token
check_token-Checks now b u = elim (Bool-cases (has b.revoked u.id)) [
  | inl revoked ↦ rw (revoked, check_token) (λ h. h, λ o n. n)
  | inr free ↦
      elim (Bool-cases (
        linked_revoked b (get b.task_by_token u.id)
        || not (u.task == "") && has b.revoked_tasks u.task)) [
          | inl closed ↦ rw (free, closed, check_token) (λ h. h, λ o n. n)
          | inr still ↦ elim (Bool-cases (ltb u.exp now)) [
            | inr live ↦ rw (free, still, live, check_token) (λ h. h, λ o n. n)
            | inl late ↦
                rw (free, still, late, check_token)
                  (
                    λ h. let k = unlink-IsLinked b u.id h in record { out = k.out; back = k.back },
                    λ o n. unlink-Unused b u.id o n,
                  )
          ]
        ]
]

checked-Checks : (now : ℕ) (b : Broker) (r : Result Error Token) → Checks b (checked now b r).0
checked-Checks now b (err x) = (λ h. h, λ o n. n)
checked-Checks now b (ok u) = check_token-Checks now b u

validate-Checks :
    (c : Codec) (now : ℕ) (b : Broker) (wire : String) → Checks b (validate c now b wire).0
unfolding validate
validate-Checks c now b wire = checked-Checks now b (open_token c wire)

granted-IsLinked :
    (b : Broker) (u : Token) (o : Option String) → IsLinked b → IsLinked (granted b u o).0
granted-IsLinked b u none h = h
granted-IsLinked b u (some want) h = h

scoped-IsLinked :
    (r : Broker × Result Error Token) (required : List String)
    → IsLinked r.0
    → IsLinked (scoped r required).0
scoped-IsLinked (b, err x) required h = h
scoped-IsLinked (b, ok u) required h = granted-IsLinked b u (first_missing u.scope required) h

replaced-IsLinked :
    (fresh : String) (r : Broker × Result Error (Unit {0}))
    → IsLinked r.0
    → IsLinked (replaced fresh r).0
replaced-IsLinked fresh (b, ok _) h = h
replaced-IsLinked fresh (b, err x) h = h

retire-IsLinked :
    (e : Env) (id : String) (r : Broker × Result Error String)
    → IsLinked r.0
    → IsLinked (retire e id r).0
retire-IsLinked e id (b, err x) h = h
retire-IsLinked e id (b, ok fresh) h =
    replaced-IsLinked fresh (revoke e b id) (revoke-IsLinked e b id h)

renew-IsLinked :
    (c : Codec) (e : Env) (rand : Option String) (ttl : ℕ) (r : Broker × Result Error Token)
    → Unused r.0 rand
    → IsLinked r.0
    → IsLinked (renew c e rand ttl r).0
renew-IsLinked c e rand ttl (b, err x) n h = h
renew-IsLinked c e rand ttl (b, ok u) n h =
    retire-IsLinked e u.id _
      (mint-IsLinked c e rand b u.caller u.tenant (task_of b u) u.scope ttl n h)

merge_file-IsLinked : (f : Content) (b : Broker) → IsLinked b → IsLinked (merge_file f b)
unfolding merge_file
merge_file-IsLinked (stored f) b h = record { out = h.out; back = h.back }
merge_file-IsLinked absent b h = h
merge_file-IsLinked blank b h = h
merge_file-IsLinked corrupt b h = record { out = h.out; back = h.back }

started-IsLinked : (r : Broker × Result Error (Unit {0})) → IsLinked r.0 → IsLinked (started r).0
started-IsLinked (b, ok _) h = h
started-IsLinked (b, err x) h = h

persist_revocations-IsLinked :
    (d : Disk) (r : Reading) (b : Broker) (path : String)
    → IsLinked b
    → IsLinked (persist_revocations d r b path).0
unfolding persist_revocations
persist_revocations-IsLinked d r b path h = elim (Bool-cases (path == "")) [
  | inl empty ↦ rw (empty, persist_revocations) h
  | inr given ↦ elim (Bool-cases r.make_dir) [
    | inr no_dir ↦ rw (given, no_dir, persist_revocations) h
    | inl made ↦ elim (Bool-cases r.read) [
      | inr unread ↦
          rw (given, made, unread, persist_revocations) (record { out = h.out; back = h.back })
      | inl read ↦
          rw (given, made, read, persist_revocations)
            (started-IsLinked _ (
              persist_locked-IsLinked d _ (
                merge_file-IsLinked b.file (record b { rev_path = path })
                  (record { out = h.out; back = h.back }))))
    ]
  ]
]

pub new_broker-IsLinked :
    (ledger : Option (List Record)) (ttl : ℕ) (f : Content) → IsLinked (new_broker ledger ttl f)
unfolding new_broker get
new_broker-IsLinked ledger ttl f = record { out = λ id task q. cc; back = λ id task q. cc }

-- `randID` gives no id that the index holds.
abbrev pub FreshFor : Broker → Op → Type 0
FreshFor b (mints rand caller tenant task scope ttl) = Unused b rand
FreshFor b (refreshes rand wire ttl) = Unused b rand
FreshFor b _ = Unit

abbrev pub FreshRun : Codec → Broker → List (Env × Op) → Type 0
FreshRun c b [] = Unit
FreshRun c b ((e, op) ∷ ops) = FreshFor b op × FreshRun c (step c e b op) ops

step-IsLinked :
    (c : Codec) (e : Env) (b : Broker) (op : Op)
    → FreshFor b op
    → IsLinked b
    → IsLinked (step c e b op)
unfolding step require_scope refresh restart
step-IsLinked c e b (mints rand caller tenant task scope ttl) n h =
    mint-IsLinked c e rand b caller tenant task scope ttl n h
step-IsLinked c e b (validates wire) n h = (validate-Checks c e.now b wire).0 h
step-IsLinked c e b (forgets t) n h =
    let k = unlink-IsLinked b t.id h in record { out = k.out; back = k.back }
step-IsLinked c e b (requires wire required) n h =
    scoped-IsLinked (validate c e.now b wire) required ((validate-Checks c e.now b wire).0 h)
step-IsLinked c e b (refreshes rand wire ttl) n h =
    let (kept, unused) = validate-Checks c e.now b wire in
    renew-IsLinked c e rand ttl (validate c e.now b wire) (unused rand n) (kept h)
step-IsLinked c e b (revokes id) n h = revoke-IsLinked e b id h
step-IsLinked c e b (revokes_all task) n h = revoke_all_for_task-IsLinked c e b task h
step-IsLinked c e b (restarts r ledger ttl) n h =
    persist_revocations-IsLinked e.disk r (new_broker ledger ttl b.file) b.rev_path
      (new_broker-IsLinked ledger ttl b.file)

-- Starting from an index that lists a token in the live set of the task that its entry names, and in
-- no other set, as an empty index does, the index stays so over any history of calls and restarts, if
-- `randID` never gives an id that the index holds.
pub run-IsLinked :
    (c : Codec) (b : Broker) (ops : List (Env × Op))
    → FreshRun c b ops
    → IsLinked b
    → IsLinked (run c b ops)
unfolding run
run-IsLinked c b [] n h = h
run-IsLinked c b ((e, op) ∷ ops) n h =
    run-IsLinked c (step c e b op) ops n.1 (step-IsLinked c e b op n.0 h)
