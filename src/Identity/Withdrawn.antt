-- ===== src/Identity/Withdrawn.antt =====
-- internal/identity/broker.go and persist.go: the calls on a broker that denies a token.
use pvm.Prelude.{
  ℕ, String, ◌≡◌, refl, false, not, ◌&&◌, ◌||◌, Option, none, some, List, [], ◌∷◌, ◌==◌,
  text_comparable, arith, ltb, if◌then◌else◌, Result, ok, err, inl, inr, Bool-cases, Option-cases,
  length, nat_comparable,
}
use pvm.Prelude.Dict.{get, put, del, get-del}
use pvm.Identity.Broker.{
  Token, has, members, Broker, Error, Codec, Env, unlink, link, unlink_minted, hand_out, mint,
  new_token, is_none, live, mint_row,
}
use pvm.Identity.Lease.{
  check_token, forget, checked, validate, open_token, linked_revoked, require_scope, scoped,
  granted, bulk_row, first_missing, revoke, revoke_ids, close_task, revoke_all_for_task, replaced,
  retire, renew, refresh,
}
use pvm.Identity.Denied.{
  IsWithdrawn, has-put, has-del, unlink-IsWithdrawn, append_row-IsWithdrawn, denied-more,
  persist_locked-IsWithdrawn,
}

hand_out-IsWithdrawn :
    (t : Token) (c : Codec) (e : Env) (b : Broker) (u : Token) (ttl : ℕ) (o : Option String)
    → IsWithdrawn t b
    → IsWithdrawn t (hand_out c e b u ttl o).0
unfolding hand_out link unlink_minted
hand_out-IsWithdrawn t c e b u ttl none h = h
hand_out-IsWithdrawn t c e b u ttl (some payload) h =
    elim (Bool-cases (is_none b.ledger || e.append)) [
      | inl takes ↦
          rw (takes, hand_out)
            (append_row-IsWithdrawn t e (mint_row c u ttl) (link b u.task u.id) h)
      | inr refuses ↦ rw (refuses, hand_out) h
    ]

pub mint-IsWithdrawn :
    (t : Token) (c : Codec) (e : Env) (rand : Option String) (b : Broker)
    (caller tenant task : String) (scope : List String) (ttl : ℕ)
    → IsWithdrawn t b
    → IsWithdrawn t (mint c e rand b caller tenant task scope ttl).0
unfolding mint
mint-IsWithdrawn t c e none b caller tenant task scope ttl h = h
mint-IsWithdrawn t c e (some id) b caller tenant task scope ttl h =
    hand_out-IsWithdrawn t c e b
      (new_token e id caller tenant task scope (if ttl == 0 then b.default_ttl else ttl)) _ _ h

-- An expired token was not in `revoked`, so that dropping it there changes nothing.
drop-IsWithdrawn :
    (t : Token) (b : Broker) (id : String)
    → has b.revoked id ≡ false
    → IsWithdrawn t b
    → IsWithdrawn t (record b { revoked = del b.revoked id })
drop-IsWithdrawn t b id n h = (
  denied-more t b (record b { revoked = del b.revoked id })
      (λ k p. ground (arith, has-del b.revoked id k n, p)) (λ k p. p) h.0,
  h.1,
  h.2,
)

pub unlink-revoked : (b : Broker) (id : String) → (unlink b id).revoked ≡ b.revoked
unfolding unlink
unlink-revoked b id = elim (Option-cases (get b.task_by_token id)) [
  | inl missing ↦ rw (missing, unlink) refl
  | inr (task, found) ↦ rw (found, unlink) refl
]

pub forget-IsWithdrawn :
    (t : Token) (b : Broker) (u : Token)
    → (u.id == t.id) ≡ false
    → IsWithdrawn t b
    → IsWithdrawn t (forget b u)
forget-IsWithdrawn t b u n h =
    let k = unlink-IsWithdrawn t b u.id h in
    (ground (arith, k.0, get-del (unlink b u.id).revoked u.id t.id, n), k.1, k.2)

pub check_token-IsWithdrawn :
    (t : Token) (now : ℕ) (b : Broker) (u : Token)
    → IsWithdrawn t b
    → IsWithdrawn t (check_token now b u).0
unfolding check_token
check_token-IsWithdrawn t now b u h = elim (Bool-cases (has b.revoked u.id)) [
  | inl revoked ↦ rw (revoked, check_token) h
  | inr free ↦
      elim (Bool-cases (
        linked_revoked b (get b.task_by_token u.id)
        || not (u.task == "") && has b.revoked_tasks u.task)) [
          | inl closed ↦ rw (free, closed, check_token) h
          | inr still ↦ elim (Bool-cases (ltb u.exp now)) [
            | inr live ↦ rw (free, still, live, check_token) h
            | inl late ↦
                rw (free, still, late, check_token)
                  (drop-IsWithdrawn t (unlink b u.id) u.id (rw unlink-revoked free)
                    (unlink-IsWithdrawn t b u.id h))
          ]
        ]
]

pub checked-IsWithdrawn :
    (t : Token) (now : ℕ) (b : Broker) (r : Result Error Token)
    → IsWithdrawn t b
    → IsWithdrawn t (checked now b r).0
checked-IsWithdrawn t now b (err x) h = h
checked-IsWithdrawn t now b (ok u) h = check_token-IsWithdrawn t now b u h

pub validate-IsWithdrawn :
    (t : Token) (c : Codec) (now : ℕ) (b : Broker) (wire : String)
    → IsWithdrawn t b
    → IsWithdrawn t (validate c now b wire).0
unfolding validate
validate-IsWithdrawn t c now b wire h = checked-IsWithdrawn t now b (open_token c wire) h

granted-IsWithdrawn :
    (t : Token) (b : Broker) (u : Token) (o : Option String)
    → IsWithdrawn t b
    → IsWithdrawn t (granted b u o).0
granted-IsWithdrawn t b u none h = h
granted-IsWithdrawn t b u (some want) h = h

scoped-IsWithdrawn :
    (t : Token) (r : Broker × Result Error Token) (required : List String)
    → IsWithdrawn t r.0
    → IsWithdrawn t (scoped r required).0
scoped-IsWithdrawn t (b, err x) required h = h
scoped-IsWithdrawn t (b, ok u) required h =
    granted-IsWithdrawn t b u (first_missing u.scope required) h

pub require_scope-IsWithdrawn :
    (t : Token) (c : Codec) (now : ℕ) (b : Broker) (wire : String) (required : List String)
    → IsWithdrawn t b
    → IsWithdrawn t (require_scope c now b wire required).0
unfolding require_scope
require_scope-IsWithdrawn t c now b wire required h =
    scoped-IsWithdrawn t (validate c now b wire) required (validate-IsWithdrawn t c now b wire h)

put-IsWithdrawn :
    (t : Token) (b : Broker) (id : String)
    → IsWithdrawn t b
    → IsWithdrawn t (record b { revoked = put b.revoked id tt })
put-IsWithdrawn t b id h = (
  denied-more t b (record b { revoked = put b.revoked id tt })
      (λ k p. ground (arith, has-put b.revoked id k, p)) (λ k p. p) h.0,
  h.1,
  h.2,
)

pub revoke-IsWithdrawn :
    (t : Token) (e : Env) (b : Broker) (id : String)
    → IsWithdrawn t b
    → IsWithdrawn t (revoke e b id).0
unfolding revoke
revoke-IsWithdrawn t e b id h =
    append_row-IsWithdrawn t e _ _
      (persist_locked-IsWithdrawn t e.disk _ (unlink-IsWithdrawn t _ id (put-IsWithdrawn t b id h)))

pub revoke_ids-IsWithdrawn :
    (t : Token) (ids : List String) (b : Broker)
    → IsWithdrawn t b
    → IsWithdrawn t (revoke_ids ids b)
unfolding revoke_ids
revoke_ids-IsWithdrawn t [] b h = h
revoke_ids-IsWithdrawn t (id ∷ ids) b h = revoke_ids-IsWithdrawn t ids _ (put-IsWithdrawn t b id h)

close_task-IsWithdrawn :
    (t : Token) (b : Broker) (task : String) → IsWithdrawn t b → IsWithdrawn t (close_task b task)
close_task-IsWithdrawn t b task h = (
  denied-more t b (close_task b task) (λ k p. p)
      (λ k p. ground (arith, has-put b.revoked_tasks task k, p)) h.0,
  h.1,
  h.2,
)

pub revoke_all_for_task-IsWithdrawn :
    (t : Token) (c : Codec) (e : Env) (b : Broker) (task : String)
    → IsWithdrawn t b
    → IsWithdrawn t (revoke_all_for_task c e b task).0
unfolding revoke_all_for_task
revoke_all_for_task-IsWithdrawn t c e b task h =
    let ids = members (live b.active_by_task task) in
    append_row-IsWithdrawn t e (bulk_row c task (length ids)) _ (
      persist_locked-IsWithdrawn t e.disk _
        (close_task-IsWithdrawn t (revoke_ids ids b) task (revoke_ids-IsWithdrawn t ids b h)))

replaced-IsWithdrawn :
    (t : Token) (fresh : String) (r : Broker × Result Error (Unit {0}))
    → IsWithdrawn t r.0
    → IsWithdrawn t (replaced fresh r).0
replaced-IsWithdrawn t fresh (b, ok _) h = h
replaced-IsWithdrawn t fresh (b, err x) h = h

retire-IsWithdrawn :
    (t : Token) (e : Env) (id : String) (r : Broker × Result Error String)
    → IsWithdrawn t r.0
    → IsWithdrawn t (retire e id r).0
retire-IsWithdrawn t e id (b, err x) h = h
retire-IsWithdrawn t e id (b, ok fresh) h =
    replaced-IsWithdrawn t fresh (revoke e b id) (revoke-IsWithdrawn t e b id h)

renew-IsWithdrawn :
    (t : Token) (c : Codec) (e : Env) (rand : Option String) (ttl : ℕ)
    (r : Broker × Result Error Token)
    → IsWithdrawn t r.0
    → IsWithdrawn t (renew c e rand ttl r).0
renew-IsWithdrawn t c e rand ttl (b, err x) h = h
renew-IsWithdrawn t c e rand ttl (b, ok u) h =
    retire-IsWithdrawn t e u.id _ (mint-IsWithdrawn t c e rand b _ _ _ _ ttl h)

pub refresh-IsWithdrawn :
    (t : Token) (c : Codec) (e : Env) (rand : Option String) (b : Broker) (wire : String) (ttl : ℕ)
    → IsWithdrawn t b
    → IsWithdrawn t (refresh c e rand b wire ttl).0
unfolding refresh
refresh-IsWithdrawn t c e rand b wire ttl h =
    renew-IsWithdrawn t c e rand ttl _ (validate-IsWithdrawn t c e.now b wire h)
