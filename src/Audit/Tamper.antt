-- ===== src/Audit/Tamper.antt =====
-- What the digest of the last row of a ledger says about all of them.
use pvm.Prelude.{
  ℕ, ◌≡◌, refl, sym, ◌∙◌, some, List, [], ◌∷◌, nat_comparable, Comparable, length, arith,
  if◌then◌else◌, Result, ok, err,
}
use pvm.Audit.Record.{Record}
use pvm.Audit.Ledger.{Entry, File, Setup, VerifyError, undecodable, check_head, replay, verify}
use pvm.Audit.Chain.{digest, replay-ok}

-- A view of every row.
abbrev pub views : {H V : Type 0} → (Record → V) → List (Entry H) → List V
views view [] = []
views view (x ∷ xs) = view x.body ∷ views view xs

module _ {H V : Type 0} ⦃e : Comparable H⦄ (c : Setup H) (view : Record → V)
    (covers : (r s : Record) (p q : H)
      → c.hash r p ≡ c.hash s q
      → (view r ≡ view s) × (p ≡ q)) where
  digest-injective :
      (p q : H) (xs ys : List (Entry H))
      → length xs ≡ length ys
      → digest c p xs ≡ digest c q ys
      → (p ≡ q) × (views view xs ≡ views view ys)
  digest-injective p q [] [] l d = (d, refl)
  digest-injective p q [] (y ∷ ys) l d = ground (arith, l)
  digest-injective p q (x ∷ xs) [] l d = ground (arith, l)
  digest-injective p q (x ∷ xs) (y ∷ ys) l d =
      let (h, vs) =
        digest-injective (c.hash x.body p) (c.hash y.body q) xs ys (omega (arith, l)) d in
      let (v, same) = covers x.body y.body p q h in (same, rw (v, vs) refl)

  -- With a watermark for exactly the rows that verify, the digest of the rows is the watermark's.
  verify-digest :
      (f : File H) (n : ℕ) (h : H)
      → f.head ≡ some (n, h)
      → verify c f ≡ ok n
      → (length f.entries ≡ n) × (digest c c.empty f.entries ≡ h)
  unfolding verify
  verify-digest f n h w v = go (replay c c.empty 0 f.entries) refl
    where
      go :
          (r : Result VerifyError (ℕ × H))
          → replay c c.empty 0 f.entries ≡ r
          → (length f.entries ≡ n) × (digest c c.empty f.entries ≡ h)
      go (err x) q = ground (arith, rw q at v)
      go (ok (k, d)) q =
          let (l, g) = replay-ok c c.empty 0 f.entries k d q in
          let u : (if f.torn then err undecodable else check_head f.head (k, d)) ≡ ok n =
            rw q at v in
          let t : check_head (some (n, h)) (k, d) ≡ ok n = ground (arith, u, w) in
          (ground (arith, l, t), g ∙ (e.equal_iff d h).0 (ground (arith, t)))

  -- The watermark pins the whole ledger, if the digest of a row determines what it covers of the row and
  -- the digest before it: two ledger files that both pass `Verify`, with as many rows as the same head watermark
  -- records, agree in what the digest covers of every row, in the same order. So a row that was
  -- changed, swapped or replaced after its watermark was written is found.
  pub verify-injective :
      (f g : File H) (n : ℕ) (h : H)
      → f.head ≡ some (n, h)
      → g.head ≡ some (n, h)
      → verify c f ≡ ok n
      → verify c g ≡ ok n
      → views view f.entries ≡ views view g.entries
  verify-injective f g n h a b v w =
      let (l, d) = verify-digest f n h a v in
      let (k, x) = verify-digest g n h b w in
      (digest-injective c.empty c.empty f.entries g.entries (l ∙ sym k) (d ∙ sym x)).1
