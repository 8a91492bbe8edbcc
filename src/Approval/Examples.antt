-- ===== src/Approval/Examples.antt =====
-- The theorems about approvals at a store with one approved and one pending ticket, and tests.
use pvm.Prelude.{
  ◌≤◌, String, ◌≡◌, refl, true, false, Option, none, some, List, [], ◌∷◌, ◌==◌, text_comparable,
  eq_iff, ok, Bool-cases, inl, inr,
}
use pvm.Prelude.Dict.{get, put, find, Distinct}
use pvm.Json.{Json, str}
use pvm.Fsjson
use pvm.Fsjson.{Disk}
use pvm.Approval.Ticket.{pending, approved, Ticket, Manager, Env, persist_locked, announce, finish}
use pvm.Approval.Manager.{create, open_window, duplicates, register, decide}
use pvm.Approval.Claims.{claim_for, claimable}
use pvm.Approval.Advance.{IsGrant}
use pvm.Approval.Advance.{Op, claims, marks, decides}
use pvm.Approval.Steps.{step, step-approved, step-Frozen, Frozen}
use pvm.Approval.OneShot.{IsSound, KeyedAt, claim_for-claims, unlocks, unlocks-le-one}
use pvm.Approval.Branches.{claim_for-Durable, Durable}

abbrev text_of : Json → Option String
text_of (str s) = some s
text_of _ = none

abbrev healthy : Disk
healthy = record {
  create = true;
  encode = true;
  sync = true;
  close = true;
  rename = true;
  open_dir = true;
  sync_dir = true;
  close_dir = true;
}

abbrev at_nine : Env
at_nine = record { now = 9; later = 10; disk = healthy }

abbrev in_time : Env
in_time = record at_nine { now = 7 }

abbrev asked : Ticket
asked = record {
  id = "a";
  task_id = "t1";
  target = "prod";
  tool = "deploy";
  params = str "v2";
  evidence = "";
  why = "";
  rollback = "";
  created_at = 1;
  deadline = 8;
  state = pending;
  decided_by = "";
  decided_at = 0;
  consumed = false;
  edited_by = "";
  edited_at = none;
  created_by = "";
  created_by_key_fp = "";
}

abbrev granted : Ticket
granted = record asked { id = "b"; state = approved; decided_by = "ann"; decided_at = 3 }

abbrev store : Manager
store = record {
  tickets = ("a", asked) ∷ ("b", granted) ∷ [];
  ledger = some [];
  persist_path = "/approvals.json";
  webhook_url = "";
  file = [];
  posted = [];
}

store-Distinct : Distinct store.tickets
unfolding get
store-Distinct = (refl, (refl, tt))

store-KeyedAt : (k : String) → KeyedAt k (get store.tickets k)
unfolding get
store-KeyedAt k = elim (Bool-cases ("a" == k)) [
  | inl a ↦ rw a ((eq_iff "a" k).0 a)
  | inr n ↦ elim (Bool-cases ("b" == k)) [
    | inl b ↦ rw (n, b) ((eq_iff "b" k).0 b)
    | inr o ↦ rw (n, o) tt
  ]
]

store-IsSound : IsSound store
store-IsSound = record { distinct = store-Distinct; keyed = store-KeyedAt }

claims_once : (claim_for text_of at_nine store "t1" "deploy" (str "v2")).1 ≡ some "b"
unfolding claim_for find claimable persist_locked Fsjson.write
claims_once = refl

creates_once :
    (create text_of at_nine (some "c") store (record asked { tool = "mail"; deadline = 0 })).1
    ≡ ok "c"
unfolding create open_window find duplicates register finish persist_locked Fsjson.write
creates_once = refl

step-approved_example :
    (by : String) × (decides "a" true "ann" ≡ decides "a" true by)
    × (asked.state ≡ pending)
    × (7 ≤ 8)
    × (asked.params ≡ asked.params)
step-approved_example =
    step-approved text_of in_time store (decides "a" true "ann") "a" asked
      (record asked { state = approved; decided_by = "ann"; decided_at = 10 }) store-Distinct tt
      (unfold get in refl) (λ h. cc h)
      (unfold step decide get put finish persist_locked Fsjson.write announce in refl) refl

step-Frozen_example :
    (u : Ticket) × (get (step text_of at_nine store (marks "b")).0.tickets "b" ≡ some u)
    × Frozen granted u
step-Frozen_example =
    step-Frozen text_of at_nine store (marks "b") "b" granted store-Distinct tt (unfold get in refl)
      refl

claim_for-claims_example :
    (t : Ticket) × (get store.tickets "b" ≡ some t)
    × IsGrant text_of "t1" "deploy" (str "v2") t
    × (get (claim_for text_of at_nine store "t1" "deploy" (str "v2")).0.tickets "b"
        ≡ some (record t { consumed = true }))
claim_for-claims_example =
    claim_for-claims text_of at_nine store "t1" "deploy" (str "v2") "b" store-IsSound claims_once

abbrev twice : List (Env × Op)
twice = (at_nine, claims "t1" "deploy" (str "v2")) ∷ (at_nine, claims "t1" "deploy" (str "v2")) ∷ []

unlocks-le-one_example : unlocks text_of store twice "b" ≤ 1
unlocks-le-one_example = unlocks-le-one text_of store twice "b" store-IsSound (tt, (tt, tt))

claim_for-Durable_example : Durable store (claim_for text_of at_nine store "t1" "deploy" (str "v2"))
claim_for-Durable_example =
    claim_for-Durable text_of at_nine store "t1" "deploy" (str "v2") store-Distinct refl
