-- ===== src/Identity/RoundTrip.antt =====
-- internal/identity/broker.go: what `Validate` answers for a token that `Mint` gave.
use Prim.Native.String.append
use pvm.Prelude.{
  ℕ, ◌+◌, String, ◌≡◌, ap, ◌∙◌, refl, ◌||◌, Option, none, some, List, ◌==◌, text_comparable,
  nat_comparable, eq_refl, arith, ltb, if◌then◌else◌, ok, err, inl, inr, Bool-cases, str_append,
}
use pvm.Prelude.Dict.{get, get-put_self}
use pvm.Audit.Record.{Record}
use pvm.Identity.Broker.{
  Token, has, Broker, token_revoked, token_expired, Codec, Env, append_row, link, hand_out, mint,
  new_token, is_none, mint_row,
}
use pvm.Identity.Lease.{split_dot, open_token, check_token, validate}

-- What the code relies on in base64 and encoding/json, for one token: decoding undoes encoding, and
-- base64 has no dot.
pub record RoundTrips (c : Codec) (t : Token) : Type 0 where
  pub decode-encode : (p : String) → c.marshal t ≡ some p → c.decode (c.encode p) ≡ some p
  pub dotless : (p : String) → c.marshal t ≡ some p → split_dot (c.encode p) ≡ none
  pub unmarshal-marshal : (p : String) → c.marshal t ≡ some p → c.unmarshal p ≡ some t

split_dot-append :
    (a s : String) → split_dot a ≡ none → split_dot (str_append a (str_append "." s)) ≡ some (a, s)
unfolding split_dot
split_dot-append String.[] s h = rw (append.nil, append.cons, append.nil) refl
split_dot-append (String.◌∷◌ x a) s h = rw append.cons (ground (arith, split_dot-append a s))

abbrev wire_of : Codec → String → String
wire_of c p = str_append (c.encode p) (str_append "." (c.sign p))

open_token-wire :
    (c : Codec) (t : Token) (p : String)
    → RoundTrips c t
    → c.marshal t ≡ some p
    → open_token c (wire_of c p) ≡ ok t
unfolding open_token
open_token-wire c t p k m =
    rw (split_dot-append (c.encode p) (c.sign p) (k.dotless p m), open_token)
      (rw (k.decode-encode p m, eq_refl (c.sign p), k.unmarshal-marshal p m) refl)

check_token-minted :
    (now : ℕ) (b : Broker) (t : Token)
    → get b.task_by_token t.id ≡ some t.task
    → (check_token now b t).1 ≡ (
        if has b.revoked t.id || has b.revoked_tasks t.task
        then err token_revoked
        else if ltb t.exp now
        then err token_expired
        else ok t)
unfolding check_token
check_token-minted now b t l = rw (l, check_token) (ground arith)

-- The audit of a token leaves the sets and the index alone.
append_row-sets :
    (e : Env) (r : Record) (b : Broker)
    → ((append_row e r b).revoked ≡ b.revoked)
      × ((append_row e r b).revoked_tasks ≡ b.revoked_tasks)
      × ((append_row e r b).task_by_token ≡ b.task_by_token)
unfolding append_row
append_row-sets e r b = ground arith

hand_out-ok :
    (c : Codec) (e : Env) (b : Broker) (t : Token) (ttl : ℕ) (o : Option String) (wire : String)
    → (hand_out c e b t ttl o).1 ≡ ok wire
    → (p : String) × (o ≡ some p)
      × (wire_of c p ≡ wire)
      × ((hand_out c e b t ttl o).0 ≡ append_row e (mint_row c t ttl) (link b t.task t.id))
unfolding hand_out
hand_out-ok c e b t ttl none wire h = cc
hand_out-ok c e b t ttl (some p) wire h = elim (Bool-cases (is_none b.ledger || e.append)) [
  | inl takes ↦ (p, refl, cc (rw (takes, hand_out) at h), rw (takes, hand_out) refl)
  | inr refuses ↦ cc (rw (refuses, hand_out) at h)
]

handed_out-valid :
    (c : Codec) (e : Env) (b : Broker) (t : Token) (ttl : ℕ) (wire : String) (now : ℕ)
    → RoundTrips c t
    → (hand_out c e b t ttl (c.marshal t)).1 ≡ ok wire
    → (validate c now (hand_out c e b t ttl (c.marshal t)).0 wire).1 ≡ (
        if has b.revoked t.id || has b.revoked_tasks t.task
        then err token_revoked
        else if ltb t.exp now
        then err token_expired
        else ok t)
unfolding validate link
handed_out-valid c e b t ttl wire now k h =
    let (p, m, w, q) = hand_out-ok c e b t ttl (c.marshal t) wire h in
    let (r, s, l) = append_row-sets e (mint_row c t ttl) (link b t.task t.id) in
    rw (q, ← w, open_token-wire c t p k m)
      (check_token-minted now (append_row e (mint_row c t ttl) (link b t.task t.id)) t
          (ap (λ d. get d t.id) l ∙ get-put_self b.task_by_token t.id t.task)
        ∙ rw (r, s) refl)

-- If the decoders undo the encoders for the new token, when `Mint` gives a token, `Validate` then answers
-- `ErrRevoked` for it if its id or its task was revoked before, `ErrExpired` after its ttl, which is
-- the broker's own if none was asked for, and otherwise the token with the caller, tenant, task and
-- scope that it was minted for.
pub validate-mint :
    (c : Codec) (e : Env) (b : Broker) (id caller tenant task : String) (scope : List String)
    (ttl : ℕ) (wire : String) (now : ℕ)
    → RoundTrips c
        (new_token e id caller tenant task scope (if ttl == 0 then b.default_ttl else ttl))
    → (mint c e (some id) b caller tenant task scope ttl).1 ≡ ok wire
    → (validate c now (mint c e (some id) b caller tenant task scope ttl).0 wire).1 ≡ (
        if has b.revoked id || has b.revoked_tasks task
        then err token_revoked
        else if ltb (e.now + (if ttl == 0 then b.default_ttl else ttl)) now
        then err token_expired
        else ok (record {
          id = id;
          caller = caller;
          tenant = tenant;
          task = task;
          scope = scope;
          exp = e.now + (if ttl == 0 then b.default_ttl else ttl);
        }))
unfolding mint new_token
validate-mint c e b id caller tenant task scope ttl wire now k h =
    handed_out-valid c e b
      (new_token e id caller tenant task scope (if ttl == 0 then b.default_ttl else ttl)) _ wire now
      k h
