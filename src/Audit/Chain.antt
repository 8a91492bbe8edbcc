-- ===== src/Audit/Chain.antt =====
-- The chain of digests of internal/audit/ledger.go: what `Verify` accepts, and what it proves about the
-- rows.
use pvm.Prelude.{
  ℕ, suc, ◌+◌, ◌≡◌, refl, ap, ◌∙◌, true, List, [], ◌∷◌, ◌++◌, ◌==◌, nat_comparable, Comparable,
  beq_refl, length, arith, ok, inl, inr, Bool-cases,
}
use pvm.Audit.Ledger.{Entry, Setup, signed, tail_of, replay}

module _ {H : Type 0} (c : Setup H) where
  -- Rows that continue a chain after the digest `p` and the number `n`.
  abbrev pub IsChained : H → ℕ → List (Entry H) → Type 0
  IsChained p n [] = Unit
  IsChained p n (x ∷ xs) =
      (x.prev_hash ≡ p)
      × (x.this_hash ≡ c.hash x.body p)
      × (signed c.signer x.this_hash x.sig ≡ true)
      × (x.body.seq ≡ suc n)
      × IsChained x.this_hash (suc n) xs

  -- The digest of rows after `p`.
  abbrev pub digest : H → List (Entry H) → H
  digest p [] = p
  digest p (x ∷ xs) = digest (c.hash x.body p) xs

  pub IsChained-append :
      (p : H) (n : ℕ) (xs : List (Entry H)) (x : Entry H)
      → IsChained p n xs
      → (let (h, k) = tail_of p n xs in IsChained h k (x ∷ []))
      → IsChained p n (xs ++ x ∷ [])
  unfolding tail_of
  IsChained-append p n [] x k h = h
  IsChained-append p n (y ∷ ys) x (a, b, s, q, k) h =
      (a, b, s, q, IsChained-append y.this_hash (suc n) ys x k (rw q at h))

  pub tail_of-seq :
      (p : H) (n : ℕ) (xs : List (Entry H)) → IsChained p n xs → (tail_of p n xs).1 ≡ n + length xs
  unfolding tail_of
  tail_of-seq p n [] k = omega arith
  tail_of-seq p n (y ∷ ys) (a, b, s, q, k) =
      rw q (tail_of-seq y.this_hash (suc n) ys k ∙ omega arith)

  pub tail_of-append :
      (p : H) (n : ℕ) (xs : List (Entry H)) (x : Entry H)
      → tail_of p n (xs ++ x ∷ []) ≡ (x.this_hash, x.body.seq)
  unfolding tail_of
  tail_of-append p n [] x = refl
  tail_of-append p n (y ∷ ys) x = tail_of-append y.this_hash y.body.seq ys x

  module _ ⦃e : Comparable H⦄ where
    pub replay-IsChained :
        (p : H) (n : ℕ) (xs : List (Entry H))
        → IsChained p n xs
        → replay c p n xs ≡ ok (n + length xs, (tail_of p n xs).0)
    unfolding replay tail_of
    replay-IsChained p n [] k = ap (λ m. ok (m, p)) (omega arith)
    replay-IsChained p n (x ∷ xs) (a, b, s, q, k) =
        rw (a, beq_refl p, ← b, beq_refl x.this_hash, s, q)
          (replay-IsChained x.this_hash (suc n) xs k
            ∙ ap (λ m. ok (m, (tail_of x.this_hash (suc n) xs).0)) (omega arith))

    -- What `Verify` replays are the digests of the rows.
    pub replay-ok :
        (p : H) (n : ℕ) (xs : List (Entry H)) (k : ℕ) (h : H)
        → replay c p n xs ≡ ok (k, h)
        → (k ≡ n + length xs) × (digest p xs ≡ h)
    unfolding replay
    replay-ok p n [] k h q = (ground (arith, q), ground (arith, q))
    replay-ok p n (x ∷ xs) k h q = elim (Bool-cases (x.prev_hash == p)) [
      | inr no? ↦ ground (arith, rw no? at q)
      | inl same ↦ elim (Bool-cases (x.this_hash == c.hash x.body p)) [
        | inr no? ↦ ground (arith, rw (same, no?) at q)
        | inl fits ↦ elim (Bool-cases (signed c.signer x.this_hash x.sig)) [
          | inr no? ↦ ground (arith, rw (same, fits, no?) at q)
          | inl by ↦
              let (l, d) = replay-ok x.this_hash (suc n) xs k h (rw (same, fits, by) at q) in
              (l ∙ omega arith, rw ((e.equal_iff x.this_hash (c.hash x.body p)).0 fits) at d)
        ]
      ]
    ]
