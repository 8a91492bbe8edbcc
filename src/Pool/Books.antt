-- ===== src/Pool/Books.antt =====
-- The three live counters of internal/pool/manager.go against the pool, and how one sandbox more or
-- less changes them.
use pvm.Prelude.{
  ℕ, ◌&&◌, nat_comparable, String, ◌≡◌, refl, sym, ◌∙◌, Bool, true, false, not, List, ◌∷◌, ◌++◌,
  All, All-insert, All-remove, arith, ◌==◌, text_comparable,
}
use pvm.Prelude.Dict.{Dict}
use pvm.Pool.Types.{SandboxState, paused, Sandbox, Manager, count}
use pvm.Pool.Counters.{raise, lower, raise_int, lower_int}
use pvm.Pool.Tally.{
  held, Tally, Tally-idle, Tally-skip, Tally-raise, Tally-lower, Tally-free, Tally-unfree,
  Tally-swap,
}
use pvm.Pool.Signed.{
  IntTally, IntTally-idle, IntTally-skip, IntTally-raise, IntTally-lower, IntTally-swap, IsFit,
}

abbrev pub is_paused : SandboxState → Bool
is_paused paused = true
is_paused _ = false

-- A sandbox has a tenant exactly while it is held, and no memory is charged for a paused one.
abbrev pub IsOwned : Sandbox → Type 0
IsOwned s =
    (held s.state ≡ not (s.tenant == "")) × ((is_paused s.state && not (s.mem_mb == 0)) ≡ false)

abbrev pub one_of : Sandbox → ℕ
one_of s = 1

abbrev pub cpu_of : Sandbox → ℕ
cpu_of s = s.cpu

abbrev pub mem_of : Sandbox → ℕ
mem_of s = s.mem_mb

pub record Books (pool : List Sandbox) (running cpu mem : Dict String ℕ) : Type 0 where
  pub owned : All IsOwned pool
  pub running_sum : Tally running one_of pool
  pub cpu_sum : IntTally cpu cpu_of pool
  pub mem_sum : Tally mem mem_of pool

-- For every tenant the counters are the number, the cpu (modulo 2 ^ 64) and the memory of the
-- sandboxes it holds.
abbrev pub IsBalanced : Manager → Type 0
IsBalanced m = Books m.pool m.running m.cpu m.mem_mb

module _ (before behind : List Sandbox) (s : Sandbox) {running cpu mem : Dict String ℕ} where
  pub Books-idle :
      held s.state ≡ false
      → IsOwned s
      → Books (before ++ behind) running cpu mem
      → Books (before ++ s ∷ behind) running cpu mem
  Books-idle h o b = record {
    owned = All-insert IsOwned before behind s o b.owned;
    running_sum = Tally-idle one_of _ before behind s h b.running_sum;
    cpu_sum = IntTally-idle cpu_of _ before behind s h b.cpu_sum;
    mem_sum = Tally-idle mem_of _ before behind s h b.mem_sum;
  }

  pub Books-skip :
      held s.state ≡ false
      → Books (before ++ s ∷ behind) running cpu mem
      → Books (before ++ behind) running cpu mem
  Books-skip h b = record {
    owned = (All-remove IsOwned before behind s b.owned).1;
    running_sum = Tally-skip one_of _ before behind s h b.running_sum;
    cpu_sum = IntTally-skip cpu_of _ before behind s h b.cpu_sum;
    mem_sum = Tally-skip mem_of _ before behind s h b.mem_sum;
  }

  pub Books-raise :
      (t : String)
      → held s.state ≡ true
      → s.tenant ≡ t
      → IsOwned s
      → Books (before ++ behind) running cpu mem
      → Books
          (before ++ s ∷ behind)
          (raise running t 1)
          (raise_int cpu t s.cpu)
          (raise mem t s.mem_mb)
  Books-raise t h o n b = record {
    owned = All-insert IsOwned before behind s n b.owned;
    running_sum = Tally-raise one_of _ before behind s t 1 h o refl b.running_sum;
    cpu_sum = IntTally-raise cpu_of _ before behind s t h o b.cpu_sum;
    mem_sum = Tally-raise mem_of _ before behind s t s.mem_mb h o refl b.mem_sum;
  }

  pub Books-lower :
      (t : String)
      → held s.state ≡ true
      → s.tenant ≡ t
      → IsFit (before ++ behind)
      → Books (before ++ s ∷ behind) running cpu mem
      → Books (before ++ behind) (lower running t 1) (lower_int cpu t s.cpu) (lower mem t s.mem_mb)
  Books-lower t h o small b = record {
    owned = (All-remove IsOwned before behind s b.owned).1;
    running_sum = Tally-lower one_of _ before behind s t 1 h o refl b.running_sum;
    cpu_sum = IntTally-lower cpu_of _ before behind s t h o (small t) b.cpu_sum;
    mem_sum = Tally-lower mem_of _ before behind s t s.mem_mb h o refl b.mem_sum;
  }

-- A held sandbox gives its memory back and keeps its slot and cpu, or takes memory again.
module _ (before behind : List Sandbox) (s u : Sandbox) {running cpu mem : Dict String ℕ} where
  pub Books-lower_mem :
      held s.state ≡ true
      → held u.state ≡ true
      → u.tenant ≡ s.tenant
      → u.cpu ≡ s.cpu
      → u.mem_mb ≡ 0
      → Books (before ++ s ∷ behind) running cpu mem
      → Books (before ++ u ∷ behind) running cpu (lower mem s.tenant s.mem_mb)
  Books-lower_mem h k o c z b = record {
    owned =
        (let (p, rest) = All-remove IsOwned before behind s b.owned in
          All-insert IsOwned before behind u (rw (o, k) (rw h at p.0), ground (arith, z)) rest);
    running_sum = Tally-swap one_of _ before behind s u (ground arith) (sym o) refl b.running_sum;
    cpu_sum = IntTally-swap cpu_of _ before behind s u (ground arith) (sym o) (sym c) b.cpu_sum;
    mem_sum =
        Tally-free mem_of _ before behind u z
          (Tally-lower mem_of _ before behind s s.tenant s.mem_mb h refl refl b.mem_sum);
  }

  pub Books-raise_mem :
      held s.state ≡ true
      → held u.state ≡ true
      → u.tenant ≡ s.tenant
      → u.cpu ≡ s.cpu
      → is_paused u.state ≡ false
      → s.mem_mb ≡ 0
      → Books (before ++ s ∷ behind) running cpu mem
      → Books (before ++ u ∷ behind) running cpu (raise mem s.tenant u.mem_mb)
  Books-raise_mem h k o c e z b = record {
    owned =
        (let (p, rest) = All-remove IsOwned before behind s b.owned in
          All-insert IsOwned before behind u (rw (o, k) (rw h at p.0), rw e) rest);
    running_sum = Tally-swap one_of _ before behind s u (ground arith) (sym o) refl b.running_sum;
    cpu_sum = IntTally-swap cpu_of _ before behind s u (ground arith) (sym o) (sym c) b.cpu_sum;
    mem_sum =
        Tally-raise mem_of _ before behind u s.tenant u.mem_mb k o refl
          (Tally-unfree mem_of _ before behind s z b.mem_sum);
  }

-- Two balanced managers with the same pool count the same for every tenant.
pub Books-agree :
    (m n : Manager) (t : String)
    → IsBalanced m
    → IsBalanced n
    → m.pool ≡ n.pool
    → (count m.running t ≡ count n.running t)
      × (count m.cpu t ≡ count n.cpu t)
      × (count m.mem_mb t ≡ count n.mem_mb t)
Books-agree m n t a b q = (
  a.running_sum.at t ∙ rw q (sym (b.running_sum.at t)),
  a.cpu_sum.at t ∙ rw q (sym (b.cpu_sum.at t)),
  a.mem_sum.at t ∙ rw q (sym (b.mem_sum.at t)),
)
