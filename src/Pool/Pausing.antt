-- ===== src/Pool/Pausing.antt =====
-- `Suspend` and `Resume` of internal/pool/manager.go keep the counters equal to what the pool says.
use pvm.Prelude.{
  String, ◌≡◌, refl, true, false, ◌&&◌, List, ◌∷◌, ◌++◌, arith, ◌==◌, text_comparable,
  nat_comparable, inl, inr, Bool-cases, Option-cases, Result, ok, err, ltb,
}
use pvm.Fsjson
use pvm.Pool.Memory.{mem_exceeded}
use pvm.Pool.Types.{
  SandboxState, ready, claimed, paused, warming, destroying, Sandbox, Manager, Env, split_first,
  count, quota_of,
}
use pvm.Pool.Pause.{
  confirm_suspend, suspend_claimed, suspend_found, suspend, confirm_resume, resume_paused,
  resume_found, resume, take_mem, give_mem, pause_sandbox, wake_sandbox,
}
use pvm.Pool.Tally.{held, split_first-eq}
use pvm.Pool.Books.{IsBalanced, Books-lower_mem, Books-raise_mem}
use pvm.Pool.Returns.{found-IsOwned}
use pvm.Pool.Balance.{persist-IsBalanced, pool-persist}

-- A held sandbox has a tenant.
named :
    (m : Manager) (before : List Sandbox) (s : Sandbox) (behind : List Sandbox)
    → m.pool ≡ before ++ s ∷ behind
    → IsBalanced m
    → held s.state ≡ true
    → (s.tenant == "") ≡ false
named m before s behind q b h = let o = (found-IsOwned m before s behind q b).0 in ground (arith, o)

confirm_suspend-IsBalanced :
    (r : Result Fsjson.Error (Unit {0})) (m : Manager) (before : List Sandbox) (s : Sandbox)
    (behind old : List Sandbox)
    → s.state ≡ claimed
    → (s.tenant == "") ≡ false
    → m.pool ≡ before ++ pause_sandbox s ∷ behind
    → old ≡ before ++ s ∷ behind
    → IsBalanced m
    → IsBalanced (confirm_suspend r m old s).0
unfolding take_mem pause_sandbox
confirm_suspend-IsBalanced (ok _) m before s behind old c n p q b = b
confirm_suspend-IsBalanced (err x) m before s behind old c n p q b =
    rw (n, q)
      (Books-raise_mem before behind (pause_sandbox s) s refl (rw c refl) refl refl (rw c refl) refl
        (rw p at b))

suspend_claimed-IsBalanced :
    (e : Env) (m : Manager) (before : List Sandbox) (s : Sandbox) (behind : List Sandbox)
    → m.pool ≡ before ++ s ∷ behind
    → s.state ≡ claimed
    → IsBalanced m
    → IsBalanced (suspend_claimed e m before s behind).0
unfolding suspend_claimed give_mem pause_sandbox
suspend_claimed-IsBalanced e m before s behind q c b =
    let n = named m before s behind q b (rw c refl) in
    confirm_suspend-IsBalanced _ _ before s behind m.pool c n (rw (pool-persist e _, n) refl) q (
      persist-IsBalanced e _ (
        rw n (
          Books-lower_mem before behind s (pause_sandbox s) (rw c refl) refl refl refl refl
            (rw q at b))))

suspend_found-IsBalanced :
    (e : Env) (m : Manager) (before : List Sandbox) (s : Sandbox) (behind : List Sandbox)
    (st : SandboxState)
    → m.pool ≡ before ++ s ∷ behind
    → s.state ≡ st
    → IsBalanced m
    → IsBalanced (suspend_found e m st before s behind).0
unfolding suspend_found
suspend_found-IsBalanced e m before s behind ready q c b = b
suspend_found-IsBalanced e m before s behind claimed q c b =
    suspend_claimed-IsBalanced e m before s behind q c b
suspend_found-IsBalanced e m before s behind paused q c b = b
suspend_found-IsBalanced e m before s behind warming q c b = b
suspend_found-IsBalanced e m before s behind destroying q c b = b

pub suspend-IsBalanced :
    (e : Env) (m : Manager) (id : String) → IsBalanced m → IsBalanced (suspend e m id).0
unfolding suspend
suspend-IsBalanced e m id b = elim (Option-cases (split_first (λ s. s.id == id) m.pool)) [
  | inl none? ↦ rw (none?, suspend) b
  | inr ((before, s, behind), found) ↦
      let (q, hit) = split_first-eq (λ s. s.id == id) m.pool before behind s found in
      rw (found, suspend) (suspend_found-IsBalanced e m before s behind s.state q refl b)
]

paused_free :
    (m : Manager) (before : List Sandbox) (s : Sandbox) (behind : List Sandbox)
    → m.pool ≡ before ++ s ∷ behind
    → IsBalanced m
    → s.state ≡ paused
    → s.mem_mb ≡ 0
paused_free m before s behind q b c =
    let o = (found-IsOwned m before s behind q b).1 in ground (arith, rw c at o)

confirm_resume-IsBalanced :
    (r : Result Fsjson.Error (Unit {0})) (m : Manager) (before : List Sandbox) (s : Sandbox)
    (behind old : List Sandbox)
    → s.state ≡ paused
    → s.mem_mb ≡ 0
    → (s.tenant == "") ≡ false
    → m.pool ≡ before ++ wake_sandbox s ∷ behind
    → old ≡ before ++ s ∷ behind
    → IsBalanced m
    → IsBalanced (confirm_resume r m old s).0
unfolding give_mem wake_sandbox
confirm_resume-IsBalanced (ok _) m before s behind old c z n p q b = b
confirm_resume-IsBalanced (err x) m before s behind old c z n p q b =
    rw (n, q)
      (Books-lower_mem before behind (wake_sandbox s) s refl (rw c refl) refl refl z (rw p at b))

resume_paused-IsBalanced :
    (e : Env) (m : Manager) (before : List Sandbox) (s : Sandbox) (behind : List Sandbox)
    → m.pool ≡ before ++ s ∷ behind
    → s.state ≡ paused
    → IsBalanced m
    → IsBalanced (resume_paused e m before s behind).0
unfolding resume_paused take_mem wake_sandbox
resume_paused-IsBalanced e m before s behind q c b =
    let n = named m before s behind q b (rw c refl) in
    let z = paused_free m before s behind q b c in
    elim (Bool-cases (
      ltb 0 s.reserved_mem_mb
      && mem_exceeded (quota_of m s.tenant).max_memory_mb (count m.mem_mb s.tenant)
          s.reserved_mem_mb)) [
            | inl over ↦ rw (n, over, resume_paused) b
            | inr fits ↦
                rw (n, fits, resume_paused)
                  (confirm_resume-IsBalanced _ _ before s behind m.pool c z n (pool-persist e _) q (
                    persist-IsBalanced e _ (
                      Books-raise_mem before behind s (wake_sandbox s) (rw c refl) refl refl refl
                        refl z (rw q at b))))
          ]

resume_found-IsBalanced :
    (e : Env) (m : Manager) (before : List Sandbox) (s : Sandbox) (behind : List Sandbox)
    (st : SandboxState)
    → m.pool ≡ before ++ s ∷ behind
    → s.state ≡ st
    → IsBalanced m
    → IsBalanced (resume_found e m st before s behind).0
unfolding resume_found
resume_found-IsBalanced e m before s behind ready q c b = b
resume_found-IsBalanced e m before s behind claimed q c b = b
resume_found-IsBalanced e m before s behind paused q c b =
    resume_paused-IsBalanced e m before s behind q c b
resume_found-IsBalanced e m before s behind warming q c b = b
resume_found-IsBalanced e m before s behind destroying q c b = b

pub resume-IsBalanced :
    (e : Env) (m : Manager) (id : String) → IsBalanced m → IsBalanced (resume e m id).0
unfolding resume
resume-IsBalanced e m id b = elim (Option-cases (split_first (λ s. s.id == id) m.pool)) [
  | inl none? ↦ rw (none?, resume) b
  | inr ((before, s, behind), found) ↦
      let (q, hit) = split_first-eq (λ s. s.id == id) m.pool before behind s found in
      rw (found, resume) (resume_found-IsBalanced e m before s behind s.state q refl b)
]
