-- ===== src/Pool/Mutate.antt =====
-- internal/pool/manager.go: `SetQuota`, `Warm` and `Release`.
use pvm.Prelude.{
  ℕ, suc, String, Bool, true, false, Option, none, some, List, [], ◌∷◌, ◌++◌, length, ◌==◌, leb,
  text_comparable, if◌then◌else◌, Result, ok, err,
}
use pvm.Prelude.Dict.{Dict, get, put, del}
use pvm.Fsjson
use pvm.Pool.Types.{
  ready, Template, Sandbox, Quota, Error, sandbox_not_found, destroy_failed, persist,
  warm_capacity_recheck, warm_persist_failed, Manager, Env, persist_locked, split_first,
}
use pvm.Pool.Counters.{release_quota, rollback_release}
use pvm.Pool.Claim.{unclaim_sandbox, destroy}

abbrev revert_quota : Dict String Quota → String → Option Quota → Dict String Quota
revert_quota quotas tenant none = del quotas tenant
revert_quota quotas tenant (some q) = put quotas tenant q

abbrev pub confirm_quota :
    Result Fsjson.Error (Unit {0})
    → Manager
    → String
    → Option Quota
    → Manager × Result Error (Unit {0})
confirm_quota (ok _) m tenant prev = (m, ok tt)
confirm_quota (err x) m tenant prev =
    (record m { quotas = revert_quota m.quotas tenant prev }, err (persist x))

unfoldable pub set_quota : Env → Manager → String → Quota → Manager × Result Error (Unit {0})
set_quota e m tenant q =
    let (m', r) = persist_locked e.disk (record m { quotas = put m.quotas tenant q }) in
    confirm_quota r m' tenant (get m.quotas tenant)

abbrev pub confirm_warmed :
    Result Fsjson.Error (Unit {0}) → Option Bool → Manager → List Sandbox → String → Manager × Bool
confirm_warmed (ok _) destroyer m old id = (m, true)
confirm_warmed (err x) destroyer m old id =
    (destroy destroyer (record m { pool = old }) id warm_persist_failed, false)

-- The second critical section of a round of `Warm`: was the sandbox kept?
unfoldable pub keep_warm : Env → Option Bool → Manager → Template → String → Manager × Bool
unfolding destroy
keep_warm e destroyer m tmpl id =
    if leb m.capacity (length m.pool)
    then (destroy destroyer m id warm_capacity_recheck, false)
    else (let (m', r) = persist_locked e.disk (record m { pool = m.pool ++ s ∷ [] }) in
        confirm_warmed r destroyer m' m.pool id)
  where
    s : Sandbox
    s = record {
      id = id;
      template = tmpl.name;
      state = ready;
      task_id = "";
      tenant = "";
      cpu = 0;
      mem_mb = 0;
      created_at = e.now;
      claimed_at = 0;
      reserved_mem_mb = 0;
    }

-- One round of the loop: what `Factory` built, if it did, and what other calls did meanwhile.
pub record Round : Type 0 where
  pub env : Env
  pub built : Option String
  pub others : Manager → Manager
  pub destroyer : Option Bool

-- The rounds left, and how many sandboxes were created. A `false` of `keep_warm` is the `break`.
unfoldable pub warm : Manager → Template → List Round → ℕ → Manager × ℕ
unfolding keep_warm
warm m tmpl [] created = (m, created)
warm m tmpl (r ∷ rs) created =
    if leb m.capacity (length m.pool) then (m, created) else elim r.built [
      | none ↦ warm (r.others m) tmpl rs created
      | some id ↦
          let (m', kept?) = keep_warm r.env r.destroyer (r.others m) tmpl id in
          elim kept? [ true ↦ warm m' tmpl rs (suc created) | false ↦ (m', created) ]
    ]

-- A failed write puts the sandbox, and the counters that the release had taken, back.
abbrev pub confirm_release :
    Result Fsjson.Error (Unit {0})
    → Manager
    → List Sandbox
    → Sandbox
    → Manager × Result Error (Unit {0})
    → Manager × Result Error (Unit {0})
confirm_release (ok _) m old s done = done
confirm_release (err x) m old s done =
    (rollback_release (record m { pool = old }) s.tenant s.cpu s.mem_mb, err (persist x))

abbrev pub destroyed : Option Bool → Result Error (Unit {0})
destroyed none = ok tt
destroyed (some true) = ok tt
destroyed (some false) = err destroy_failed

unfoldable pub release_found :
    Env
    → Option Bool
    → Manager
    → List Sandbox
    → Sandbox
    → List Sandbox
    → Bool
    → Manager × Result Error (Unit {0})
release_found e destroyer m before s behind true =
    let (m', r) =
      persist_locked e.disk
        (record (release_quota m s) { pool = before ++ unclaim_sandbox s ∷ behind }) in
    confirm_release r m' m.pool s (m', ok tt)
release_found e destroyer m before s behind false =
    let (m', r) = persist_locked e.disk (record (release_quota m s) { pool = before ++ behind }) in
    confirm_release r m' m.pool s (m', destroyed destroyer)

unfoldable pub release :
    Env → Option Bool → Manager → String → Bool → Manager × Result Error (Unit {0})
unfolding release_found
release e destroyer m id recycle = elim (split_first (λ s. s.id == id) m.pool) [
  | none ↦ (m, err sandbox_not_found)
  | some (before, s, behind) ↦ release_found e destroyer m before s behind recycle
]
