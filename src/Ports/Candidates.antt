-- ===== src/Ports/Candidates.antt =====
-- The ports that a plan tries are those of its range, each once.
use tauri_connector.Ports.Plans.{
  PortPlan, in_range, is_none, with_preferred, ports_from, candidates,
}
use tauri_connector.Prelude.{
  ℕ, zero, suc, ◌+◌, ◌-◌, ◌≡◌, refl, true, not, ◌&&◌, Option, none, some, List, [], ◌∷◌, arith,
  if◌then◌else◌, ltb, leb, ◌==◌, keep, length, Bool-cases, inl, inr,
}

-- how often a port is tried
abbrev pub tries : ℕ → List ℕ → ℕ
tries x ps = length (keep (λ p. p == x) ps)

tries-ports_from :
    (x start n : ℕ)
    → tries x (ports_from start n) ≡ (if leb start x && ltb x (start + n) then 1 else 0)
unfolding ports_from
tries-ports_from x start zero = ground arith
tries-ports_from x start (suc n) = ground (arith, tries-ports_from x (suc start) n)

tries-others :
    (x q : ℕ) (ps : List ℕ)
    → tries x (keep (λ p. not (p == q)) ps) ≡ (if x == q then 0 else tries x ps)
tries-others x q [] = ground arith
tries-others x q (p ∷ ps) = ground (arith, tries-others x q ps)

keep_all : (ps : List ℕ) → keep (λ p. true) ps ≡ ps
keep_all [] = refl
keep_all (p ∷ ps) = ground (arith, keep_all ps)

-- A plan tries each port of its range once and no other, whether a port is preferred or not.
pub tries-candidates :
    (plan : PortPlan) (preferred : Option ℕ) (x : ℕ)
    → tries x (candidates (with_preferred preferred plan)) ≡ (if in_range plan x then 1 else 0)
unfolding candidates with_preferred
tries-candidates plan none x = ground (
  arith,
  keep_all (ports_from plan.start (suc plan.end - plan.start)),
  tries-ports_from x plan.start (suc plan.end - plan.start),
)
tries-candidates plan (some q) x = elim (Bool-cases (is_none plan.exact && in_range plan q)) [
  | inl chosen ↦ rw chosen (
      ground (
        arith,
        tries-others x q (ports_from plan.start (suc plan.end - plan.start)),
        tries-ports_from x plan.start (suc plan.end - plan.start),
      ))
  | inr plain ↦
      rw (plain, keep_all)
        (ground (arith, tries-ports_from x plan.start (suc plan.end - plan.start)))
]
