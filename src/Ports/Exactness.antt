-- ===== src/Ports/Exactness.antt =====
-- An exact port variable binds one port or nothing.
use tauri_connector.Ports.Ranges.{
  PortError, u16_max, parse_port_range, set_variable, parse_port_range-bounded,
}
use tauri_connector.Ports.Plans.{PortPlan, exact_port, exact_plan, nonzero, resolve_port}
use tauri_connector.Prelude.{
  ℕ, ◌≡◌, ◌≤◌, String, Option, none, some, Text, ok, arith, refl, ◌∙◌, Result-cases, inl, inr,
}

-- the variable's text is one port, nonzero and of 16 bits
exact_port-reads :
    (name : String) (text : Text) (p : ℕ)
    → exact_port name text ≡ ok p
    → (1 ≤ p) × (p ≤ u16_max) × (parse_port_range text ≡ ok (p, p))
unfolding exact_port
exact_port-reads name text p e = elim (Result-cases (parse_port_range text)) [
  | inl (bad, q) ↦ absurd (ground arith)
  | inr ((a, b), q) ↦
      let bounds = parse_port_range-bounded text a b q in
      let one : a ≡ b = ground arith in
      let same : a ≡ p = ground arith in
      (ground arith, ground arith, rw (← same) (q ∙ rw (← one) refl))
]

-- Where the builder names no exact port and the exact variable is set, a plan that is resolved is
-- of one nonzero port of 16 bits, and as a range the variable's text reads as exactly that port; a
-- range of several ports resolves to no plan.
pub resolve_port-exact :
    (lookup : String → Option Text) (exact_var range_var : String) (builder_exact : Option ℕ)
    (builder_range : Option (ℕ × ℕ)) (default : ℕ × ℕ) (text : Text) (plan : PortPlan)
    (warning : Option PortError)
    → nonzero builder_exact ≡ none
    → set_variable lookup exact_var ≡ some text
    → resolve_port lookup exact_var range_var builder_exact builder_range default
      ≡ ok (plan, warning)
    → (plan.start ≡ plan.end)
      × (1 ≤ plan.start)
      × (plan.end ≤ u16_max)
      × (parse_port_range text ≡ ok (plan.start, plan.end))
unfolding resolve_port
resolve_port-exact lookup exact_var range_var builder_exact builder_range default text plan warning
      free set e =
    elim (Result-cases (exact_port exact_var text)) [
      | inl (bad, q) ↦ absurd (ground arith)
      | inr (p, q) ↦
          let same : exact_plan p exact_var ≡ plan = ground arith in
          let (least, most, reads) = exact_port-reads exact_var text p q in
          rw (← same) (refl, least, most, reads)
    ]
