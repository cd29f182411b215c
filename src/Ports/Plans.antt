-- ===== src/Ports/Plans.antt =====
-- `PortPlan` and `resolve_port`.
use mathlib.Core.Option
use tauri_connector.Ports.Ranges.{
  PortError, in_variable, expected_one, parse_port_range, set_variable, range_from,
}
use tauri_connector.Prelude.{
  ℕ, zero, suc, ◌-◌, String, Bool, true, false, not, ◌&&◌, Option, none, some, List, [], ◌∷◌, ◌++◌,
  if◌then◌else◌, leb, ◌==◌, keep, Text, Result, ok, err, ◌>>=◌,
}

pub record PortPlan : Type 0 where
  pub start : ℕ
  pub end : ℕ
  pub exact : Option String
  pub preferred : Option ℕ

abbrev pub range_plan : ℕ × ℕ → PortPlan
range_plan (start, end) = record { start = start; end = end; exact = none; preferred = none }

abbrev pub exact_plan : ℕ → String → PortPlan
exact_plan port source = record { start = port; end = port; exact = some source; preferred = none }

abbrev pub is_none {ℓ} : {A : Type ℓ} → Option A → Bool
is_none none = true
is_none (some _) = false

abbrev pub in_range : PortPlan → ℕ → Bool
in_range plan p = leb plan.start p && leb p plan.end

unfoldable pub with_preferred : Option ℕ → PortPlan → PortPlan
with_preferred none plan = record plan { preferred = none }
with_preferred (some p) plan = record plan {
  preferred = if is_none plan.exact && in_range plan p then some p else none;
}

-- the `n` ports from `start` on
unfoldable pub ports_from : ℕ → ℕ → List ℕ
ports_from start zero = []
ports_from start (suc n) = start ∷ ports_from (suc start) n

abbrev pub is_preferred : PortPlan → ℕ → Bool
is_preferred plan p = elim plan.preferred [ none ↦ false | some q ↦ p == q ]

-- `preferred`, then the others of `start..=end`
unfoldable pub candidates : PortPlan → List ℕ
unfolding ports_from
candidates plan =
    (elim plan.preferred [ none ↦ [] | some p ↦ p ∷ [] ])
    ++ keep (λ p. not (is_preferred plan p)) (ports_from plan.start (suc plan.end - plan.start))

unfoldable pub exact_port : String → Text → Result PortError ℕ
exact_port name text = elim (parse_port_range text) [
  | err e ↦ err (in_variable name text e)
  | ok (a, b) ↦ if a == b then ok a else err (expected_one name text)
]

abbrev pub Resolved : Type 0
Resolved = PortPlan × Option PortError

abbrev pub nonzero : Option ℕ → Option ℕ
nonzero none = none
nonzero (some p) = if p == 0 then none else some p

-- the plan of a range, where no exact port is set
abbrev pub resolve_range : Result PortError (Option (ℕ × ℕ)) → ℕ × ℕ → Resolved
resolve_range (ok range) fallback = (range_plan (Option.get_or range fallback), none)
resolve_range (err e) fallback = (range_plan fallback, some e)

unfoldable pub resolve_port :
    (String → Option Text)
    → String
    → String
    → Option ℕ
    → Option (ℕ × ℕ)
    → ℕ × ℕ
    → Result PortError Resolved
resolve_port lookup exact_var range_var builder_exact builder_range default =
    elim (nonzero builder_exact) [
      | some port ↦ ok (exact_plan port "ConnectorBuilder", none)
      | none ↦ elim (set_variable lookup exact_var) [
        | some text ↦ exact_port exact_var text >>= λ port. ok (exact_plan port exact_var, none)
        | none ↦
            ok (
              resolve_range (range_from lookup range_var none)
                (Option.get_or builder_range default))
      ]
    ]
