-- ===== src/Pool/Examples.antt =====
-- The theorems about the pool at a small pool and its tenant, and tests.
use pvm.Prelude.{
  ◌≤◌, ◌≡◌, subst, refl, true, false, none, some, List, [], ◌∷◌, All, arith, text_comparable,
  nat_comparable, ok, err,
}
use pvm.Prelude.Dict.{get, put}
use pvm.Fsjson
use pvm.Fsjson.{Disk}
use pvm.Pool.Memory.{
  max_int64, scan_digits, unit_of, to_mb, parse_bytes, parse_mem_mb, mem_exceeded, gib, overflow,
}
use pvm.Pool.Types.{
  ready, claimed, Template, Sandbox, Manager, PoolFile, Env, persist_locked, prepend, split_first,
  count, window, quota_of, created_persist_failed,
}
use pvm.Pool.Counters.{
  raise, lower, raise_int, lower_int, minus_int, exceeds_int, prune_hourly, account_claim,
  rollback_claim, remove_last,
}
use pvm.Pool.Claim.{
  refusal, claim_sandbox, claim_warm, seek_warm, check_quota, adopt_quota, begin_claim, destroy,
}
use pvm.Pool.Commit.{second_refusal, new_sandbox, add_created, commit_pruned, commit_claim}
use pvm.Pool.Mutate.{keep_warm}
use pvm.Pool.Signed.{IsFit-small}
use pvm.Pool.Pause.{pause_sandbox, wake_sandbox, give_mem, take_mem, suspend, resume}
use pvm.Pool.Books.{IsOwned, IsBalanced}
use pvm.Pool.Calls.{
  Call, begin, commit, warm_up, give_back, pause, wake, step, run, IsFitRun, run-IsBalanced,
}
use pvm.Pool.Limits.{IsWithin, has_claimed, is_ok}
use pvm.Pool.Granted.{begin_claim-IsWithin, commit_claim-IsWithin}
use pvm.Pool.Restore.{
  Stored, loaded, rebuild, count_restored, merge_quotas, load, restore, enable_persistence,
}
use pvm.Pool.Restart.{fresh-IsBalanced, enable_persistence-IsBalanced, restart-counters}

abbrev healthy : Disk
healthy = record {
  create = true;
  encode = true;
  sync = true;
  close = true;
  rename = true;
  open_dir = true;
  sync_dir = true;
  close_dir = true;
}

abbrev at_nine : Env
at_nine = record { now = 9; disk = healthy }

abbrev full_disk : Env
full_disk = record { now = 9; disk = record healthy { encode = false } }

abbrev base_image : Template
base_image = record {
  name = "base";
  base_image = "base.img";
  kernel = "linux";
  memory = "512M";
  cpu = 2;
}

-- As `NewManager` makes it.
abbrev fresh : Manager
fresh = record {
  pool = [];
  capacity = 2;
  quotas = [];
  running = [];
  cpu = [];
  mem_mb = [];
  hourly = [];
  pending_cleanups = [];
  persist_path = "";
  cleanup_sweeping = false;
  file = record { pool = []; quotas = []; capacity = 0 };
}

abbrev warm_one : Sandbox
warm_one = record {
  id = "s1";
  template = "base";
  state = ready;
  task_id = "";
  tenant = "";
  cpu = 0;
  mem_mb = 0;
  created_at = 1;
  claimed_at = 0;
  reserved_mem_mb = 0;
}

abbrev warmed : Manager
warmed = record fresh { pool = warm_one ∷ []; persist_path = "/pool.json" }

abbrev day : List Call
day =
    warm_up at_nine none base_image "s1"
    ∷ begin at_nine true "acme" base_image "t1"
    ∷ pause at_nine "s1"
    ∷ begin at_nine true "acme" base_image "t2"
    ∷ commit at_nine (some false) "s2" "acme" base_image "t2" 512
    ∷ wake at_nine "s1"
    ∷ give_back at_nine none "s1" true
    ∷ []

-- No cpu in the pool is negative or too large on that day.
day-IsFit : IsFitRun fresh day
unfolding step begin_claim adopt_quota check_quota prune_hourly parse_mem_mb parse_bytes scan_digits
    unit_of to_mb refusal seek_warm split_first prepend claim_warm claim_sandbox account_claim raise
    raise_int exceeds_int count window get put quota_of mem_exceeded persist_locked Fsjson.write
    keep_warm suspend resume commit_claim commit_pruned second_refusal add_created new_sandbox
    destroy pause_sandbox give_mem lower wake_sandbox take_mem
day-IsFit = (
  IsFit-small _ refl,
  (
    IsFit-small _ refl,
    (
      IsFit-small _ refl,
      (IsFit-small _ refl, (IsFit-small _ refl, (IsFit-small _ refl, (IsFit-small _ refl, tt)))),
    ),
  ),
)

run-IsBalanced_example : IsBalanced (run fresh day)
run-IsBalanced_example =
    run-IsBalanced fresh day (tt, (refl, (tt, (refl, (refl, (tt, (tt, tt))))))) day-IsFit
      (fresh-IsBalanced fresh (refl, refl, refl, refl))

small_quota : (quota_of warmed "acme").max_memory_mb ≤ max_int64
unfolding quota_of get
small_quota = omega arith

small_use : count warmed.mem_mb "acme" ≤ max_int64
unfolding count get
small_use = omega arith

warm_claimed : has_claimed (begin_claim at_nine true warmed "acme" base_image "t1").2 ≡ true
unfolding begin_claim adopt_quota check_quota prune_hourly parse_mem_mb parse_bytes scan_digits
    unit_of to_mb refusal seek_warm split_first prepend claim_warm claim_sandbox account_claim raise
    count window get put quota_of mem_exceeded persist_locked Fsjson.write
warm_claimed = refl

begin_claim-IsWithin_example :
    IsWithin
      (quota_of warmed "acme")
      (begin_claim at_nine true warmed "acme" base_image "t1").0
      "acme"
begin_claim-IsWithin_example =
    begin_claim-IsWithin at_nine true warmed "acme" base_image "t1" small_quota small_use
      warm_claimed

abbrev other_image : Template
other_image = record base_image { name = "py"; memory = "1G" }

small_int : (4096 ≤ max_int64) × (0 ≤ max_int64) × (1024 ≤ max_int64)
small_int = omega arith

commit_int :
    ((quota_of warmed "acme").max_memory_mb ≤ max_int64)
    × (count warmed.mem_mb "acme" ≤ max_int64)
    × (1024 ≤ max_int64)
unfolding quota_of count get
commit_int = small_int

created : is_ok (commit_claim at_nine none warmed "s2" "acme" other_image "t1" 1024).2 ≡ true
unfolding commit_claim commit_pruned prune_hourly refusal second_refusal add_created new_sandbox
    account_claim raise raise_int exceeds_int count window get put quota_of mem_exceeded
    persist_locked Fsjson.write
created = refl

commit_claim-IsWithin_example :
    IsWithin
      (quota_of warmed "acme")
      (commit_claim at_nine none warmed "s2" "acme" other_image "t1" 1024).0
      "acme"
commit_claim-IsWithin_example =
    commit_claim-IsWithin at_nine none warmed "s2" "acme" other_image "t1" 1024 commit_int created

test_lost :
    (commit_claim full_disk
      (some false)
      warmed
      "s2"
      "acme"
      other_image
      "t1"
      1024).0.pending_cleanups
    ≡ ("s2", created_persist_failed) ∷ []
unfolding commit_claim commit_pruned prune_hourly refusal second_refusal add_created new_sandbox
    account_claim raise raise_int exceeds_int count window get put quota_of mem_exceeded
    persist_locked Fsjson.write destroy rollback_claim lower lower_int minus_int remove_last
test_lost = refl

abbrev stored_file : PoolFile
stored_file = record {
  pool =
      record warm_one {
        state = claimed;
        task_id = "t1";
        tenant = "acme";
        cpu = 2;
        mem_mb = 512;
        claimed_at = 9;
      }
      ∷ warm_one
      ∷ [];
  quotas = [];
  capacity = 2;
}

abbrev IsOwnedIn : Stored → Type 0
IsOwnedIn (loaded f) = All IsOwned f.pool
IsOwnedIn _ = Unit

-- A manager that has such a pool in memory.
abbrev busy : Manager
busy = (enable_persistence at_nine true fresh "/pool.json" (loaded stored_file)).0

busy-IsBalanced : IsBalanced busy
busy-IsBalanced =
    enable_persistence-IsBalanced at_nine true fresh "/pool.json" (loaded stored_file)
      (refl, refl, refl, refl) (λ f q. subst IsOwnedIn q ((refl, refl), ((refl, refl), tt)))

busy-pool : stored_file.pool ≡ busy.pool
unfolding enable_persistence restore load rebuild count_restored merge_quotas persist_locked
    Fsjson.write
busy-pool = refl

restarted : (enable_persistence at_nine true fresh "/pool.json" (loaded stored_file)).1 ≡ ok tt
unfolding enable_persistence restore load rebuild count_restored merge_quotas persist_locked
    Fsjson.write
restarted = refl

restart-counters_example :
    (let n' = (enable_persistence at_nine true fresh "/pool.json" (loaded stored_file)).0 in
      (n'.pool ≡ busy.pool)
      × (count n'.running "acme" ≡ count busy.running "acme")
      × (count n'.cpu "acme" ≡ count busy.cpu "acme")
      × (count n'.mem_mb "acme" ≡ count busy.mem_mb "acme"))
restart-counters_example =
    restart-counters at_nine busy fresh "/pool.json" stored_file "acme" busy-IsBalanced busy-pool
      (refl, refl, refl, refl) refl refl restarted

test_counted : (count busy.running "acme" ≡ 1) × (count busy.mem_mb "acme" ≡ 512)
unfolding enable_persistence restore load rebuild count_restored merge_quotas persist_locked
    Fsjson.write count raise raise_int get put window
test_counted = (refl, refl)

parse_one_gib : to_mb 1 (some gib) ≡ ok 1024
unfolding to_mb
parse_one_gib = refl

test_parse :
    (parse_mem_mb "512M" ≡ ok 512)
    × (parse_mem_mb "1537kb" ≡ ok 2)
    × (parse_mem_mb "99999999999999999G" ≡ err overflow)
unfolding parse_mem_mb parse_bytes scan_digits unit_of to_mb
test_parse = (refl, refl, refl)
