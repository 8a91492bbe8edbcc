-- ===== src/Policy/Rules.antt =====
-- Which rule `Decide` of internal/policy/gateway.go applies.
use pvm.Prelude.{
  ◌≡◌, ◌⊎◌, inl, inr, true, false, List, [], ◌∷◌, ◌++◌, text_comparable, eq_iff, All, arith,
  Bool-cases,
}
use pvm.Policy.Gateway.{Action, deny, ToolRequest, Rule, matches, decide}

-- A rule that speaks about the request.
pub record IsFor (req : ToolRequest) (r : Rule) : Type 0 where
  pub name : (r.name ≡ req.name) ⊎ (r.name ≡ "*")
  pub effect : (r.effect ≡ "") ⊎ (r.effect ≡ req.effect)

-- A rule that speaks about another tool or another effect.
abbrev pub IsSkipped : ToolRequest → Rule → Type 0
IsSkipped req r = IsFor req r → ⊥

-- The first rule for the request decides, and without one the request is denied.
pub data IsDecided (req : ToolRequest) : List Rule → Action → Type 0 where
  first :
      (before : List Rule) (r : Rule) (behind : List Rule)
      → All (IsSkipped req) before
      → IsFor req r
      → IsDecided req (before ++ r ∷ behind) r.action
  by_default : (rules : List Rule) → All (IsSkipped req) rules → IsDecided req rules deny

matches-IsFor : (req : ToolRequest) (r : Rule) → matches req r ≡ true → IsFor req r
unfolding matches
matches-IsFor req r h = record {
  name = ground (arith, h, eq_iff r.name req.name, eq_iff r.name "*");
  effect = ground (arith, h, eq_iff r.effect "", eq_iff r.effect req.effect);
}

matches-IsSkipped : (req : ToolRequest) (r : Rule) → matches req r ≡ false → IsSkipped req r
unfolding matches
matches-IsSkipped req r h f = ground (
  arith,
  h,
  f.name,
  f.effect,
  eq_iff r.name req.name,
  eq_iff r.name "*",
  eq_iff r.effect "",
  eq_iff r.effect req.effect,
)

skip :
    (req : ToolRequest) (r : Rule) (rules : List Rule) (a : Action)
    → IsSkipped req r
    → IsDecided req rules a
    → IsDecided req (r ∷ rules) a
skip req r _ _ n (first before x behind u f) = first (r ∷ before) x behind (n, u) f
skip req r _ _ n (by_default rules u) = by_default (r ∷ rules) (n, u)

-- `Decide` follows the first rule whose name is the tool's or `*` and whose effect is empty or the
-- request's, every rule before it being for another tool or another effect; so a rule for one effect never authorises another, or a request without an effect; and
-- what no rule is for is denied.
pub decide-IsDecided :
    (rules : List Rule) (req : ToolRequest) → IsDecided req rules (decide rules req).0
unfolding decide
decide-IsDecided [] req = by_default [] tt
decide-IsDecided (r ∷ rs) req = elim (Bool-cases (matches req r)) [
  | inl hit ↦ rw hit (first [] r rs tt (matches-IsFor req r hit))
  | inr miss ↦
      rw miss
        (skip req r rs (decide rs req).0 (matches-IsSkipped req r miss) (decide-IsDecided rs req))
]
