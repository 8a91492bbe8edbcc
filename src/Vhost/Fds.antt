-- ===== src/Vhost/Fds.antt =====
-- internal/vhost/vu/mem.go: `setMemTable` owns all the fds that it is passed.
use pvm.Prelude.{
  ℕ, zero, suc, ◌+◌, ◌-◌, ◌*◌, ◌≤◌, ◌≡◌, Bool, List, [], ◌∷◌, ◌++◌, ◌==◌, nat_comparable, ltb,
  arith, if◌then◌else◌, inl, inr, Bool-cases, length,
}
use pvm.Vhost.Memory.{
  Region, Bytes, Table, fds_of, max64, le32, le64, region_of, map_regions, set_mem_table,
  close_table, close_fds,
}

abbrev pub occurrences : ℕ → List ℕ → ℕ
occurrences x [] = 0
occurrences x (y ∷ ys) = let rest = occurrences x ys in if x == y then rest + 1 else rest

occurrences-append :
    (x : ℕ) (ys zs : List ℕ) → occurrences x (ys ++ zs) ≡ occurrences x ys + occurrences x zs
occurrences-append x [] zs = omega arith
occurrences-append x (y ∷ ys) zs = ground (arith, occurrences-append x ys zs)

occurrences-snoc :
    (x : ℕ) (rs : List Region) (r : Region)
    → occurrences x (fds_of (rs ++ r ∷ [])) ≡ occurrences x (fds_of rs) + occurrences x (r.fd ∷ [])
occurrences-snoc x [] r = ground arith
occurrences-snoc x (q ∷ rs) r = ground (arith, occurrences-snoc x rs r)

-- How often an fd is open in the table, or was closed.
abbrev pub held : ℕ → Table → ℕ
held x t = occurrences x t.closed + occurrences x (fds_of t.regions)

held-close_fds :
    (x : ℕ) (fds : List ℕ) (t : Table) → held x (close_fds fds t) ≡ held x t + occurrences x fds
unfolding close_fds
held-close_fds x fds t = omega (arith, occurrences-append x t.closed fds)

held-close_table : (x : ℕ) (t : Table) → held x (close_table t) ≡ held x t
unfolding close_table
held-close_table x t = omega (arith, occurrences-append x t.closed (fds_of t.regions))

held-map_regions :
    (x : ℕ) (mmap : ℕ → ℕ → ℕ → Bool) (p : Bytes) (k i : ℕ) (fds : List ℕ) (t : Table)
    → k ≤ length fds
    → held x (map_regions mmap p k i fds t).0 ≡ held x t + occurrences x fds
unfolding map_regions
held-map_regions x mmap p zero i fds t h = held-close_fds x fds t
held-map_regions x mmap p (suc k) i [] t h = absurd (omega arith)
held-map_regions x mmap p (suc k) i (fd ∷ fds) t h =
    elim (Bool-cases (ltb (max64 - (region_of p i fd).gpa) (region_of p i fd).size)) [
      | inl over ↦
          rw (over, map_regions)
            (omega (arith, held-close_fds x (fd ∷ fds) (close_table t), held-close_table x t))
      | inr fits ↦
          elim (Bool-cases (mmap fd (le64 p.at (8 + i * 32 + 24)) (region_of p i fd).size)) [
            | inr refused ↦
                rw (fits, refused, map_regions)
                  (omega (arith, held-close_fds x (fd ∷ fds) (close_table t), held-close_table x t))
            | inl taken ↦
                rw (fits, taken, map_regions)
                  (ground (
                    arith,
                    held-map_regions x mmap p k (i + 1) fds
                        (record t { regions = t.regions ++ region_of p i fd ∷ [] }) (omega arith),
                    occurrences-snoc x t.regions (region_of p i fd),
                  ))
          ]
    ]

-- Whatever the message says and wherever it fails, after `setMemTable` each fd that came with it, and each
-- that the table had before, is open in the table or was closed, exactly once.
pub held-set_mem_table :
    (x : ℕ) (mmap : ℕ → ℕ → ℕ → Bool) (p : Bytes) (fds : List ℕ) (t : Table)
    → occurrences x (set_mem_table mmap p fds t).0.closed
        + occurrences x (fds_of (set_mem_table mmap p fds t).0.regions)
      ≡ occurrences x t.closed + occurrences x (fds_of t.regions) + occurrences x fds
unfolding set_mem_table
held-set_mem_table x mmap p fds t = elim (Bool-cases (ltb p.len 8)) [
  | inl short ↦ rw (short, set_mem_table) (held-close_fds x fds t)
  | inr header ↦ elim (Bool-cases (ltb (length fds) (le32 p.at 0))) [
    | inl few ↦ rw (header, few, set_mem_table) (held-close_fds x fds t)
    | inr enough ↦ elim (Bool-cases (ltb p.len (8 + le32 p.at 0 * 32))) [
      | inl small ↦ rw (header, enough, small, set_mem_table) (held-close_fds x fds t)
      | inr long ↦
          rw (header, enough, long, set_mem_table)
            (omega (
              arith,
              held-map_regions x mmap p (le32 p.at 0) 0 fds (close_table t)
                  (ground (arith, enough)),
              held-close_table x t,
            ))
    ]
  ]
]
