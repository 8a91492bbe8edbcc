-- ===== src/Audit/Journal.antt =====
-- Several open handles append to one ledger file of internal/audit/ledger.go, in any order.
use pvm.Prelude.{
  ℕ, zero, suc, ◌≤◌, ◌⊎◌, ◌≡◌, refl, sym, ap, subst, ◌∙◌, Bool, true, false, Option, none, some,
  List, [], ◌∷◌, ◌++◌, ◌==◌, ltb, nat_comparable, length, length-append, drop, arith, Result, inl,
  inr, Bool-cases,
}
use pvm.Audit.Record.{Record}
use pvm.Audit.Ledger.{
  Entry, File, Handle, AppendError, Setup, signature, signed, size, tail_of, decoded, refresh_tail,
  new_entry, written, stored_row,
}
use pvm.Audit.Chain.{IsChained, IsChained-append, tail_of-seq, tail_of-append}

drop-length : {A : Type 0} (xs : List A) → drop (length xs) xs ≡ []
drop-length [] = refl
drop-length (x ∷ xs) = drop-length xs

drop-append :
    {A : Type 0} (n : ℕ) (xs ys : List A) → n ≤ length xs → drop n (xs ++ ys) ≡ drop n xs ++ ys
drop-append zero xs ys h = refl
drop-append (suc n) [] ys h = ground (arith, h)
drop-append (suc n) (x ∷ xs) ys h = drop-append n xs ys (omega (arith, h))

module _ {H : Type 0} (c : Setup H) where
  -- A watermark records at most the rows there are, and of the last one the digest.
  abbrev pub IsMark : List (Entry H) → Option (ℕ × H) → Type 0
  IsMark xs none = Unit
  IsMark xs (some (s, h)) = (s ≤ length xs) × (s ≡ length xs → (tail_of c.empty 0 xs).0 ≡ h)

  -- What a handle remembers is a prefix of the rows.
  abbrev pub IsSynced : List (Entry H) → Handle H → Type 0
  IsSynced xs l =
      (l.read_offset ≤ length xs)
      × (tail_of l.last_hash l.seq (drop l.read_offset xs) ≡ tail_of c.empty 0 xs)
      × IsMark xs l.head_pending

  IsMark-append :
      (xs : List (Entry H)) (x : Entry H) (o : Option (ℕ × H))
      → IsMark xs o
      → IsMark (xs ++ x ∷ []) o
  IsMark-append xs x none m = tt
  IsMark-append xs x (some (s, h)) m = (
    ground (arith, m.0, length-append xs (x ∷ [])),
    λ q. ground (arith, m.0, q, length-append xs (x ∷ [])),
  )

  pub IsSynced-append :
      (xs : List (Entry H)) (x : Entry H) (l : Handle H) → IsSynced xs l → IsSynced (xs ++ x ∷ []) l
  IsSynced-append xs x l (k, t, m) = (
    ground (arith, k, length-append xs (x ∷ [])),
    ap (tail_of l.last_hash l.seq) (drop-append l.read_offset xs (x ∷ []) k)
        ∙ tail_of-append c l.last_hash l.seq (drop l.read_offset xs) x
        ∙ sym (tail_of-append c c.empty 0 xs x),
    IsMark-append xs x l.head_pending m,
  )

  tail_of-again :
      (h : H) (n : ℕ) (xs : List (Entry H))
      → (let (g, k) = tail_of h n xs in tail_of g k xs ≡ tail_of h n xs)
  unfolding tail_of
  tail_of-again h n [] = refl
  tail_of-again h n (x ∷ xs) = refl

  -- A handle that has read to the end of the file.
  abbrev pub IsCurrent : List (Entry H) → Handle H → Type 0
  IsCurrent xs l =
      (l.read_offset ≡ length xs)
      × ((l.last_hash, l.seq) ≡ tail_of c.empty 0 xs)
      × IsMark xs l.head_pending

  pub IsCurrent-IsSynced : (xs : List (Entry H)) (l : Handle H) → IsCurrent xs l → IsSynced xs l
  unfolding tail_of
  IsCurrent-IsSynced xs l (k, t, m) = (
    omega arith,
    ap (λ n. tail_of l.last_hash l.seq (drop n xs)) k
        ∙ ap (tail_of l.last_hash l.seq) (drop-length xs)
        ∙ t,
    m,
  )

  -- What refreshing gives.
  abbrev pub Refreshes : File H → Handle H × Bool → Type 0
  Refreshes f (l, true) = IsCurrent f.entries l × (f.torn ≡ false)
  Refreshes f (l, false) = IsSynced f.entries l

  decoded-Refreshes :
      (f : File H) (l : Handle H) (p : H × ℕ)
      → p ≡ tail_of c.empty 0 f.entries
      → l.read_offset ≤ length f.entries
      → tail_of p.0 p.1 (drop l.read_offset f.entries) ≡ tail_of c.empty 0 f.entries
      → IsMark f.entries l.head_pending
      → Refreshes f (decoded f l p)
  decoded-Refreshes f l p q k t m = elim (Bool-cases f.torn) [
    | inl torn ↦ rw torn (k, t, m)
    | inr whole ↦ rw whole ((refl, q, m), refl)
  ]

  pub refresh_tail-Refreshes :
      (f : File H) (l : Handle H) → IsSynced f.entries l → Refreshes f (refresh_tail c f l)
  unfolding refresh_tail tail_of
  refresh_tail-Refreshes f l (k, t, m) = elim (Bool-cases (ltb (size f) l.read_offset)) [
    | inl shrunk ↦
        rw (shrunk, refresh_tail)
          (decoded-Refreshes f (record l { read_offset = 0 }) (tail_of c.empty 0 f.entries) refl
            (omega arith) (tail_of-again c.empty 0 f.entries) m)
    | inr fits ↦ elim (Bool-cases (size f == l.read_offset)) [
      | inl same ↦
          let off : l.read_offset ≡ length f.entries = ground (arith, same, k) in
          let whole : f.torn ≡ false = ground (arith, same, k) in
          rw (fits, same, refresh_tail)
            (
              (
                off,
                sym (
                      ap (tail_of l.last_hash l.seq)
                        (ap (λ n. drop n f.entries) off ∙ drop-length f.entries))
                    ∙ t,
                m,
              ),
              whole,
            )
      | inr grown ↦
          rw (fits, grown, refresh_tail)
            (decoded-Refreshes f l (tail_of l.last_hash l.seq (drop l.read_offset f.entries)) t k
              (tail_of-again l.last_hash l.seq (drop l.read_offset f.entries) ∙ t) m)
    ]
  ]

  -- A file whose rows are a chain, with a watermark of it.
  abbrev pub IsSound : File H → Type 0
  IsSound f = IsChained c c.empty 0 f.entries × IsMark f.entries f.head

  -- The redactor leaves the number alone, and what the signer signs it accepts.
  pub record Relies : Type 0 where
    pub seq_kept : (r : Record) → (c.redact r).seq ≡ r.seq
    pub accepted : (h : H) → signed c.signer h (signature c.signer h) ≡ true

  new_entry-seq :
      Relies → (l : Handle H) (now : ℕ) (r : Record) → (new_entry c l now r).body.seq ≡ suc l.seq
  unfolding new_entry
  new_entry-seq y l now r =
      let k = y.seq_kept (record r { seq = suc l.seq; task = c.task }) in ground (arith, k)

  pub new_entry-IsChained :
      Relies
      → (l : Handle H) (now : ℕ) (r : Record)
      → IsChained c l.last_hash l.seq (new_entry c l now r ∷ [])
  unfolding new_entry
  new_entry-IsChained y l now r =
      (refl, refl, y.accepted (new_entry c l now r).this_hash, new_entry-seq y l now r, tt)

  -- What an append leaves: a sound file that extends the one before, and a handle in step with it.
  abbrev pub Extends : File H → File H × Handle H × Result AppendError (Unit {0}) → Type 0
  Extends f (f', l', r) =
      IsSound f'
      × IsSynced f'.entries l'
      × ((f'.entries ≡ f.entries) ⊎ ((x : Entry H) × (f'.entries ≡ f.entries ++ x ∷ [])))

  appended-Extends :
      (f : File H) (l : Handle H) (x : Entry H)
      → IsSound f
      → IsCurrent f.entries l
      → IsChained c l.last_hash l.seq (x ∷ [])
      → Extends f (written f l x x)
  unfolding tail_of
  appended-Extends f l x (ch, hm) (off, t, m) (p, b, s, q, u) =
      let longer = length-append f.entries (x ∷ []) in
      let tail = tail_of-append c c.empty 0 f.entries x in
      let n : suc l.seq ≡ length (f.entries ++ x ∷ []) =
        omega (arith, longer, ap (λ z. z.1) t, tail_of-seq c c.empty 0 f.entries ch) in
      (
        (
          IsChained-append c c.empty 0 f.entries x ch
              (subst (λ z. IsChained c z.0 z.1 (x ∷ [])) t (p, b, s, q, u)),
          IsMark-append f.entries x f.head hm,
        ),
        IsCurrent-IsSynced (f.entries ++ x ∷ []) (written f l x x).1 (
          omega (arith, off, longer),
          ap (λ k. (x.this_hash, k)) (sym q) ∙ sym tail,
          (omega (arith, n), λ _. ap (λ z. z.0) tail),
        ),
        inr (x, refl),
      )

  -- A row that decodes to what it was.
  pub written-Extends :
      (f : File H) (l : Handle H) (x : Entry H)
      → c.recode x.body ≡ x.body
      → IsSound f
      → IsCurrent f.entries l
      → IsChained c l.last_hash l.seq (x ∷ [])
      → Extends f (written f l x (stored_row c x))
  written-Extends f l x same s k h =
      subst (λ (r : Record). Extends f (written f l x (record x { body = r }))) (sym same)
        (appended-Extends f l x s k h)
