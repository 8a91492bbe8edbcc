-- ===== src/Audit/Ledger.antt =====
-- internal/audit/ledger.go: `Append`, `refreshTailLocked`, the head watermark and `Verify`. The digest
-- (SHA-256 of the framed fields) and the signer are arguments, and a file is the list of its rows, as they
-- decode.
use pvm.Prelude.{
  ℕ, suc, String, Bool, true, false, not, ◌&&◌, Option, none, some, List, [], ◌∷◌, ◌++◌, ◌==◌, ltb,
  nat_comparable, Comparable, length, drop, if◌then◌else◌, Result, ok, err, ◌>>=◌,
}
use pvm.Audit.Record.{Record}

pub record Entry (H : Type 0) : Type 0 where
  pub body : Record
  pub prev_hash : H
  pub this_hash : H
  pub sig : String

-- The ledger file, with the rest of a row that a failed write left at its end, and the `head` file.
pub record File (H : Type 0) : Type 0 where
  pub entries : List (Entry H)
  pub torn : Bool
  pub head : Option (ℕ × H)

-- What an open `Ledger` knows: the tail up to `read_offset` rows, and the watermark to write.
pub record Handle (H : Type 0) : Type 0 where
  pub last_hash : H
  pub seq : ℕ
  pub read_offset : ℕ
  pub head_pending : Option (ℕ × H)

-- How far an `Append` comes.
pub record Disk : Type 0 where
  pub open_file : Bool
  pub lock : Bool
  pub encode : Bool
  pub stat : Bool
  pub write : Bool
  pub truncate : Bool

pub data AppendError : Type 0 where
  opening locking refreshing encoding stating writing rolling_back : AppendError

pub data VerifyError : Type 0 where
  prev_mismatch tampered bad_signature undecodable truncated head_mismatch : VerifyError

-- `Sign` and `Verify` of the key of the root, if signing is on.
pub record Signer (H : Type 0) : Type 0 where
  pub sign : H → String
  pub check : H → String → Bool

-- What the ledger is set up with: the digest of an empty chain, that of a row after another, the signer,
-- the redactor and the task. `recode` is what decoding gives back of a row that was encoded as JSON: integers
-- from 2^53 on are rounded, and bytes that are no UTF-8 replaced.
pub record Setup (H : Type 0) : Type 0 where
  pub empty : H
  pub hash : Record → H → H
  pub signer : Option (Signer H)
  pub redact : Record → Record
  pub recode : Record → Record
  pub task : String

abbrev pub signature : {H : Type 0} → Option (Signer H) → H → String
signature none h = ""
signature (some s) h = s.sign h

abbrev pub signed : {H : Type 0} → Option (Signer H) → H → String → Bool
signed none h sig = true
signed (some s) h sig = s.check h sig

-- The size of the file in rows, a torn one included.
abbrev pub size : {H : Type 0} → File H → ℕ
size f = if f.torn then suc (length f.entries) else length f.entries

-- Decoding rows: the digest and the number of the last one.
unfoldable pub tail_of : {H : Type 0} → H → ℕ → List (Entry H) → H × ℕ
tail_of h n [] = (h, n)
tail_of h n (e ∷ es) = tail_of e.this_hash e.body.seq es

abbrev pub decoded : {H : Type 0} → File H → Handle H → H × ℕ → Handle H × Bool
decoded f l (h, n) =
    if f.torn
    then (record l { last_hash = h; seq = n }, false)
    else (record l { last_hash = h; seq = n; read_offset = size f }, true)

-- A shrunk file is read again, one that grew from where the handle stopped.
unfoldable pub refresh_tail : {H : Type 0} → Setup H → File H → Handle H → Handle H × Bool
unfolding tail_of
refresh_tail c f l =
    if ltb (size f) l.read_offset
    then decoded f (record l { read_offset = 0 }) (tail_of c.empty 0 f.entries)
    else if size f == l.read_offset
    then (l, true)
    else decoded f l (tail_of l.last_hash l.seq (drop l.read_offset f.entries))

unfoldable pub new_entry : {H : Type 0} → Setup H → Handle H → ℕ → Record → Entry H
new_entry c l now r0 =
    let r1 = c.redact (record r0 { seq = suc l.seq; task = c.task }) in
    let r = if r1.at == 0 then record r1 { at = now } else r1 in
    record {
      body = r;
      prev_hash = l.last_hash;
      this_hash = c.hash r l.last_hash;
      sig = signature c.signer (c.hash r l.last_hash);
    }

-- The row of the file that a row to append becomes, as it decodes.
abbrev pub stored_row : {H : Type 0} → Setup H → Entry H → Entry H
stored_row c e = record e { body = c.recode e.body }

abbrev pub written :
    {H : Type 0}
    → File H
    → Handle H
    → Entry H
    → Entry H
    → File H × Handle H × Result AppendError (Unit {0})
written f l e line = (
  record f { entries = f.entries ++ line ∷ [] },
  record l {
    last_hash = e.this_hash;
    seq = suc l.seq;
    read_offset = suc l.read_offset;
    head_pending = some (suc l.seq, e.this_hash);
  },
  ok tt,
)

unfoldable pub write_entry :
    {H : Type 0}
    → Setup H
    → Disk
    → File H
    → Handle H
    → Entry H
    → File H × Handle H × Result AppendError (Unit {0})
write_entry c d f l e =
    if not d.encode
    then (f, l, err encoding)
    else if not d.stat
    then (f, l, err stating)
    else if d.write
    then written f l e (stored_row c e)
    else if d.truncate
    then (f, l, err writing)
    else (record f { torn = true }, l, err rolling_back)

abbrev pub refreshed :
    {H : Type 0}
    → Setup H
    → Disk
    → File H
    → ℕ
    → Record
    → Handle H × Bool
    → File H × Handle H × Result AppendError (Unit {0})
refreshed c d f now r (l, false) = (f, l, err refreshing)
refreshed c d f now r (l, true) = write_entry c d f l (new_entry c l now r)

unfoldable pub append :
    {H : Type 0}
    → Setup H
    → Disk
    → ℕ
    → File H
    → Handle H
    → Record
    → File H × Handle H × Result AppendError (Unit {0})
unfolding refresh_tail new_entry write_entry
append c d now f l r =
    if not d.open_file
    then (f, l, err opening)
    else if not d.lock
    then (f, l, err locking)
    else refreshed c d f now r (refresh_tail c f l)

-- What `writeHeadAtomic` did.
pub data Flushed : Type 0 where
  stored missing_dir failed : Flushed

abbrev pub settle : {H : Type 0} → Flushed → File H → Handle H → ℕ × H → File H × Handle H
settle stored f l mark = (record f { head = some mark }, record l { head_pending = none })
settle missing_dir f l mark = (f, record l { head_pending = none })
settle failed f l mark = (f, l)

-- The flusher: the watermark stays pending where its write failed.
unfoldable pub flush_head : {H : Type 0} → Flushed → File H → Handle H → File H × Handle H
flush_head w f l = elim l.head_pending [ none ↦ (f, l) | some mark ↦ settle w f l mark ]

module _ {H : Type 0} ⦃e : Comparable H⦄ where
  unfoldable pub replay : Setup H → H → ℕ → List (Entry H) → Result VerifyError (ℕ × H)
  replay c prev count [] = ok (count, prev)
  replay c prev count (x ∷ xs) =
      let rest = replay c x.this_hash (suc count) xs in
      if not (x.prev_hash == prev)
      then err prev_mismatch
      else if not (x.this_hash == c.hash x.body prev)
      then err tampered
      else if not (signed c.signer x.this_hash x.sig)
      then err bad_signature
      else rest

  abbrev pub check_head : Option (ℕ × H) → ℕ × H → Result VerifyError ℕ
  check_head none (count, prev) = ok count
  check_head (some (seq, hash)) (count, prev) =
      if ltb count seq
      then err truncated
      else if count == seq && not (prev == hash)
      then err head_mismatch
      else ok count

  unfoldable pub verify : Setup H → File H → Result VerifyError ℕ
  unfolding replay
  verify c f = do
    end ← replay c c.empty 0 f.entries
    if f.torn then err undecodable else check_head f.head end
