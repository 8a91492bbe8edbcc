-- ===== src/Pool/Returns.antt =====
-- `Release` of internal/pool/manager.go and its counters against the pool, also where a write of the
-- store fails.
use pvm.Prelude.{
  String, ◌≡◌, refl, Bool, true, false, Option, List, ◌∷◌, ◌++◌, All-remove, ◌==◌, text_comparable,
  nat_comparable, inl, inr, Bool-cases, Option-cases, Result, ok, err,
}
use pvm.Fsjson
use pvm.Pool.Types.{Sandbox, Manager, Env, Error, persist_locked, persist_locked-eq, split_first}
use pvm.Pool.Counters.{rollback_release, release_quota}
use pvm.Pool.Claim.{unclaim_sandbox}
use pvm.Pool.Mutate.{confirm_release, release_found, release}
use pvm.Pool.Tally.{split_first-eq}
use pvm.Pool.Signed.{IsFit, IsFit-remove}
use pvm.Pool.Books.{IsOwned, Books, IsBalanced, Books-idle, Books-skip, Books-raise, Books-lower}
use pvm.Pool.Balance.{persist-IsBalanced}

-- The sandbox at a split belongs to somebody exactly when its tenant has a name.
module _ (m : Manager) (before : List Sandbox) (s : Sandbox) (behind : List Sandbox)
    (q : m.pool ≡ before ++ s ∷ behind) (b : IsBalanced m) where
  pub found-IsOwned : IsOwned s
  found-IsOwned = (All-remove IsOwned before behind s (rw q at b.owned)).0

  -- The counters after a release are those of the pool without the sandbox.
  release_quota-Books :
      IsFit m.pool
      → (let m' = release_quota m s in Books (before ++ behind) m'.running m'.cpu m'.mem_mb)
  unfolding release_quota
  release_quota-Books fit = elim (Bool-cases (s.tenant == "")) [
    | inl nobody ↦
        rw (nobody, release_quota)
          (Books-skip before behind s (rw nobody at found-IsOwned.0) (rw q at b))
    | inr tenant ↦
        rw (tenant, release_quota)
          (Books-lower before behind s s.tenant (rw tenant at found-IsOwned.0) refl
            (IsFit-remove before behind s (rw q at fit)) (rw q at b))
  ]

-- Putting a released sandbox back restores the books.
rollback_release-IsBalanced :
    (m : Manager) (before : List Sandbox) (s : Sandbox) (behind : List Sandbox)
    → IsOwned s
    → Books (before ++ behind) m.running m.cpu m.mem_mb
    → IsBalanced
        (rollback_release (record m { pool = before ++ s ∷ behind }) s.tenant s.cpu s.mem_mb)
unfolding rollback_release
rollback_release-IsBalanced m before s behind o b = elim (Bool-cases (s.tenant == "")) [
  | inl nobody ↦ rw (nobody, rollback_release) (Books-idle before behind s (rw nobody at o.0) o b)
  | inr tenant ↦
      rw (tenant, rollback_release)
        (Books-raise before behind s s.tenant (rw tenant at o.0) refl o b)
]

confirm_release-IsBalanced :
    (r : Result Fsjson.Error (Unit {0})) (m : Manager) (before : List Sandbox) (s : Sandbox)
    (behind old : List Sandbox) (done : Manager × Result Error (Unit {0}))
    → old ≡ before ++ s ∷ behind
    → IsOwned s
    → Books (before ++ behind) m.running m.cpu m.mem_mb
    → IsBalanced done.0
    → IsBalanced (confirm_release r m old s done).0
confirm_release-IsBalanced (ok _) m before s behind old done q o b k = k
confirm_release-IsBalanced (err x) m before s behind old done q o b k =
    rw q (rollback_release-IsBalanced m before s behind o b)

persist-Books :
    (e : Env) (m : Manager) (pool : List Sandbox)
    → Books pool m.running m.cpu m.mem_mb
    → (let m' = (persist_locked e.disk m).0 in Books pool m'.running m'.cpu m'.mem_mb)
persist-Books e m pool b = let (file, q) = persist_locked-eq e.disk m in rw q b

release_found-IsBalanced :
    (e : Env) (d : Option Bool) (m : Manager) (before : List Sandbox) (s : Sandbox)
    (behind : List Sandbox) (recycle? : Bool)
    → m.pool ≡ before ++ s ∷ behind
    → IsFit m.pool
    → IsBalanced m
    → IsBalanced (release_found e d m before s behind recycle?).0
unfolding release_found unclaim_sandbox
release_found-IsBalanced e d m before s behind true q fit b =
    let books = release_quota-Books m before s behind q b fit in
    confirm_release-IsBalanced _ _ before s behind m.pool _ q (found-IsOwned m before s behind q b)
      (persist-Books e _ (before ++ behind) books)
      (persist-IsBalanced e _
        (Books-idle before behind (unclaim_sandbox s) refl (refl, refl) books))
release_found-IsBalanced e d m before s behind false q fit b =
    let books = release_quota-Books m before s behind q b fit in
    confirm_release-IsBalanced _ _ before s behind m.pool _ q (found-IsOwned m before s behind q b)
      (persist-Books e _ (before ++ behind) books) (persist-IsBalanced e _ books)

pub release-IsBalanced :
    (e : Env) (d : Option Bool) (m : Manager) (id : String) (recycle? : Bool)
    → IsFit m.pool
    → IsBalanced m
    → IsBalanced (release e d m id recycle?).0
unfolding release
release-IsBalanced e d m id recycle? fit b =
    elim (Option-cases (split_first (λ s. s.id == id) m.pool)) [
      | inl none? ↦ rw (none?, release) b
      | inr ((before, s, behind), found) ↦
          let (q, hit) = split_first-eq (λ s. s.id == id) m.pool before behind s found in
          rw (found, release) (release_found-IsBalanced e d m before s behind recycle? q fit b)
    ]
