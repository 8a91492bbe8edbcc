-- ===== src/Audit/Writers.antt =====
-- Any interleaving of appends and watermark flushes by any number of handles on one ledger file of
-- internal/audit/ledger.go.
use pvm.Prelude.{
  ℕ, ◌≡◌, refl, subst, Bool, true, false, none, some, List, [], ◌∷◌, ◌==◌, nat_comparable, arith,
  if◌then◌else◌, Result, ok, inl, inr, Bool-cases, Option-cases,
}
use pvm.Audit.Record.{Record}
use pvm.Audit.Ledger.{
  Entry, File, Handle, Disk, AppendError, Setup, refresh_tail, new_entry, written, stored_row,
  write_entry, refreshed, append, Flushed, stored, missing_dir, failed, settle, flush_head,
}
use pvm.Audit.Journal.{
  IsMark, IsSynced, IsSound, Relies, Refreshes, Extends, IsSynced-append, IsCurrent-IsSynced,
  refresh_tail-Refreshes, new_entry-IsChained, written-Extends,
}

module _ {H : Type 0} (c : Setup H) where
  write_entry-Extends :
      (d : Disk) (f : File H) (l : Handle H) (x : Entry H)
      → Extends c f (f, l, ok tt)
      → Extends c f (written f l x (stored_row c x))
      → Extends c f (write_entry c d f l x)
  unfolding write_entry
  write_entry-Extends d f l x k w = elim (Bool-cases d.encode) [
    | inr no? ↦ rw (no?, write_entry) k
    | inl a ↦ elim (Bool-cases d.stat) [
      | inr no? ↦ rw (a, no?, write_entry) k
      | inl b ↦ elim (Bool-cases d.write) [
        | inl done ↦ rw (a, b, done, write_entry) w
        | inr no? ↦ elim (Bool-cases d.truncate) [
          | inl cut ↦ rw (a, b, no?, cut, write_entry) k
          | inr kept ↦ rw (a, b, no?, kept, write_entry) k
        ]
      ]
    ]
  ]

  -- The row that a call appends decodes to what it was, whatever its number and time.
  abbrev pub Survives : Record → Type 0
  Survives r =
      (l : Handle H) (now : ℕ) → c.recode (new_entry c l now r).body ≡ (new_entry c l now r).body

  refreshed-Extends :
      Relies c
      → (d : Disk) (f : File H) (now : ℕ) (r : Record) (p : Handle H × Bool) → Survives r
      → IsSound c f
      → Refreshes c f p
      → Extends c f (refreshed c d f now r p)
  refreshed-Extends y d f now r (l, false) v s k = (s, k, inl refl)
  refreshed-Extends y d f now r (l, true) v s (k, whole) =
      write_entry-Extends d f l (new_entry c l now r)
        (s, IsCurrent-IsSynced c f.entries l k, inl refl)
        (written-Extends c f l (new_entry c l now r) (v l now) s k
          (new_entry-IsChained c y l now r))

  append-Extends :
      Relies c
      → (d : Disk) (now : ℕ) (f : File H) (l : Handle H) (r : Record) → Survives r
      → IsSound c f
      → IsSynced c f.entries l
      → Extends c f (append c d now f l r)
  unfolding append
  append-Extends y d now f l r v s k = elim (Bool-cases d.open_file) [
    | inr no? ↦ rw (no?, append) (s, k, inl refl)
    | inl a ↦ elim (Bool-cases d.lock) [
      | inr no? ↦ rw (a, no?, append) (s, k, inl refl)
      | inl b ↦
          rw (a, b, append)
            (refreshed-Extends y d f now r (refresh_tail c f l) v s
              (refresh_tail-Refreshes c f l k))
    ]
  ]

-- The file, and the handles by their numbers.
pub record World (H : Type 0) : Type 0 where
  pub file : File H
  pub handles : ℕ → Handle H

abbrev pub set_handle : {H : Type 0} → (ℕ → Handle H) → ℕ → Handle H → ℕ → Handle H
set_handle hs i l j = if i == j then l else hs j

-- `Open` reads the whole file.
abbrev pub opened : {H : Type 0} → Setup H → File H → Handle H
opened c f =
    (refresh_tail c f
      (record { last_hash = c.empty; seq = 0; read_offset = 0; head_pending = none })).0

pub data Call : Type 0 where
  open_ledger : ℕ → Call
  write_row : ℕ → Disk → ℕ → Record → Call
  write_mark : ℕ → Flushed → Call

unfoldable pub step : {H : Type 0} → Setup H → World H → Call → World H
step c w (open_ledger i) = record w { handles = set_handle w.handles i (opened c w.file) }
step c w (write_row i d now r) =
    let (f, l, _) = append c d now w.file (w.handles i) r in
    record { file = f; handles = set_handle w.handles i l }
step c w (write_mark i o) =
    let (f, l) = flush_head o w.file (w.handles i) in
    record { file = f; handles = set_handle w.handles i l }

unfoldable pub run : {H : Type 0} → Setup H → World H → List Call → World H
run c w [] = w
run c w (x ∷ xs) = run c (step c w x) xs

module _ {H : Type 0} (c : Setup H) where
  abbrev pub IsReady : World H → Type 0
  IsReady w = IsSound c w.file × ((j : ℕ) → IsSynced c w.file.entries (w.handles j))

  set_handle-IsSynced :
      (xs : List (Entry H)) (hs : ℕ → Handle H) (i : ℕ) (l : Handle H)
      → IsSynced c xs l
      → ((j : ℕ) → IsSynced c xs (hs j))
      → (j : ℕ) → IsSynced c xs (set_handle hs i l j)
  set_handle-IsSynced xs hs i l k ks j = elim (Bool-cases (i == j)) [
    | inl this ↦ rw this k
    | inr other ↦ rw other (ks j)
  ]

  Refreshes-IsSynced :
      (f : File H) (p : Handle H × Bool) → Refreshes c f p → IsSynced c f.entries p.0
  Refreshes-IsSynced f (l, true) (k, whole) = IsCurrent-IsSynced c f.entries l k
  Refreshes-IsSynced f (l, false) k = k

  opened-IsSynced : (f : File H) → IsSynced c f.entries (opened c f)
  opened-IsSynced f =
      let l : Handle H = record {
        last_hash = c.empty;
        seq = 0;
        read_offset = 0;
        head_pending = none;
      } in
      Refreshes-IsSynced f (refresh_tail c f l)
        (refresh_tail-Refreshes c f l (omega arith, refl, tt))

  Extends-others :
      (f : File H) (p : File H × Handle H × Result AppendError (Unit {0})) (hs : ℕ → Handle H)
      → Extends c f p
      → ((j : ℕ) → IsSynced c f.entries (hs j))
      → (j : ℕ) → IsSynced c p.0.entries (hs j)
  Extends-others f (f', l', r) hs (s, k, inl same) ks j = rw same (ks j)
  Extends-others f (f', l', r) hs (s, k, inr (x, more)) ks j =
      rw more (IsSynced-append c f.entries x (hs j) (ks j))

  settle-IsSound :
      (o : Flushed) (f : File H) (l : Handle H) (mark : ℕ × H)
      → IsSound c f
      → IsMark c f.entries (some mark)
      → IsSynced c f.entries l
      → (let (f', l') = settle o f l mark in
          IsSound c f' × IsSynced c f'.entries l' × (f'.entries ≡ f.entries))
  settle-IsSound stored f l (s, h) (ch, hm) m (k, t, p) = ((ch, m), (k, t, tt), refl)
  settle-IsSound missing_dir f l mark s m (k, t, p) = (s, (k, t, tt), refl)
  settle-IsSound failed f l mark s m k = (s, k, refl)

  flush_head-IsSound :
      (o : Flushed) (f : File H) (l : Handle H)
      → IsSound c f
      → IsSynced c f.entries l
      → (let (f', l') = flush_head o f l in
          IsSound c f' × IsSynced c f'.entries l' × (f'.entries ≡ f.entries))
  unfolding flush_head
  flush_head-IsSound o f l s (k, t, p) = elim (Option-cases l.head_pending) [
    | inl none? ↦ rw (none?, flush_head) (s, (k, t, rw none? tt), refl)
    | inr (mark, due) ↦ go mark due
  ]
    where
      go :
          (mark : ℕ × H)
          → l.head_pending ≡ some mark
          → (let (f', l') = flush_head o f l in
              IsSound c f' × IsSynced c f'.entries l' × (f'.entries ≡ f.entries))
      go mark due =
          rw (due, flush_head)
            (settle-IsSound o f l mark s (subst (IsMark c f.entries) due p) (k, t, p))

  abbrev pub CallSurvives : Call → Type 0
  CallSurvives (write_row i d now r) = Survives c r
  CallSurvives _ = Unit

  pub step-IsReady :
      Relies c → (w : World H) (x : Call) → CallSurvives x → IsReady w → IsReady (step c w x)
  unfolding step
  step-IsReady y w (open_ledger i) v (s, ks) = (
    s,
    set_handle-IsSynced w.file.entries w.handles i (opened c w.file) (opened-IsSynced w.file) ks,
  )
  step-IsReady y w (write_row i d now r) v (s, ks) =
      let p = append c d now w.file (w.handles i) r in
      let x = append-Extends c y d now w.file (w.handles i) r v s (ks i) in
      (
        x.0,
        set_handle-IsSynced p.0.entries w.handles i p.1 x.1
            (Extends-others w.file p w.handles x ks),
      )
  step-IsReady y w (write_mark i o) v (s, ks) =
      let p = flush_head o w.file (w.handles i) in
      let x = flush_head-IsSound o w.file (w.handles i) s (ks i) in
      (x.0, set_handle-IsSynced p.0.entries w.handles i p.1 x.1 (λ j. rw x.2 (ks j)))
