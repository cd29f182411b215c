-- ===== src/Ports/Tests.antt =====
-- Ranges and plans on sample texts.
use tauri_connector.Ports.Ranges.{u16_max, set_variable, parse_port_range, parse_port_range-bounded}
use tauri_connector.Ports.Plans.{
  PortPlan, exact_plan, exact_port, resolve_port, range_plan, with_preferred, candidates, in_range,
}
use tauri_connector.Ports.Candidates.{tries, tries-candidates}
use tauri_connector.Ports.Exactness.{resolve_port-exact}
use tauri_connector.Prelude.{
  String, Option, str_eq, ℕ, ◌≡◌, ◌≤◌, Text, refl, some, none, [], ◌∷◌, codes, ok, if◌then◌else◌,
}

abbrev text : Text
text = codes " 9700 -9702"

text-reads : parse_port_range text ≡ ok (9700, 9702)
unfolding parse_port_range
text-reads = refl

parse_port_range-bounded_example : (1 ≤ 9700) × (9700 ≤ 9702) × (9702 ≤ u16_max)
parse_port_range-bounded_example = parse_port_range-bounded text 9700 9702 text-reads

abbrev preferred : PortPlan
preferred = with_preferred (some 9701) (range_plan (9700, 9702))

preferred_first : candidates preferred ≡ 9701 ∷ 9700 ∷ 9702 ∷ []
unfolding candidates with_preferred
preferred_first = refl

tries-candidates_example :
    tries 9701 (candidates preferred) ≡ (if in_range (range_plan (9700, 9702)) 9701 then 1 else 0)
tries-candidates_example = tries-candidates (range_plan (9700, 9702)) (some 9701) 9701

-- "P" is set to "9700" and "R" to a range
abbrev variables : String → Option Text
variables name =
    if str_eq name "P" then some (codes "9700") else if str_eq name "R" then some text else none

resolve_port-exact_example :
    (◌≡◌ {A = ℕ} 9700 9700)
    × (1 ≤ 9700)
    × (9700 ≤ u16_max)
    × (parse_port_range (codes "9700") ≡ ok (9700, 9700))
unfolding resolve_port set_variable exact_port parse_port_range
resolve_port-exact_example =
    resolve_port-exact variables "P" "R" none none (9555, 9655) (codes "9700") (exact_plan 9700 "P")
      none refl refl refl
