-- ===== src/Fsjson.antt =====
-- internal/fsjson/fsjson.go: `Write` replaces a file in one rename. What the file system does is an
-- argument, one outcome for each place where `Write` can stop.
use pvm.Prelude.{Bool, ◌≡◌, ◌⊎◌, ◌&&◌, if◌then◌else◌, Result, ok, err, arith}

-- The steps of `Write` that can fail, in their order.
pub record Disk : Type 0 where
  pub create : Bool
  pub encode : Bool
  pub sync : Bool
  pub close : Bool
  pub rename : Bool
  pub open_dir : Bool
  pub sync_dir : Bool
  pub close_dir : Bool

-- `durability`: the new content is in place, and only its confirmation failed.
pub data Error : Type 0 where
  failed durability : Error

-- The file after the write, and the error that the caller gets.
unfoldable pub write {ℓ} : {A : Type ℓ} → Disk → A → A → A × Result Error (Unit {0})
write d old new =
    if d.create && d.encode && d.sync && d.close && d.rename
    then if d.open_dir && d.sync_dir && d.close_dir then (new, ok tt) else (new, err durability)
    else (old, err failed)

-- A write that reports success has replaced the file; an ordinary failure has left it alone; and
-- only the error `ErrDurability` stands for a file that changed although an error came back.
pub write_cases {ℓ} :
    {A : Type ℓ} (d : Disk) (old new : A)
    → ((write d old new ≡ (new, ok tt)) ⊎ (write d old new ≡ (new, err durability)))
      ⊎ (write d old new ≡ (old, err failed))
unfolding write
write_cases d old new = ground arith

pub write-ok {ℓ} :
    {A : Type ℓ} (d : Disk) (old new : A) → (write d old new).1 ≡ ok tt → (write d old new).0 ≡ new
unfolding write
write-ok d old new h = ground arith
