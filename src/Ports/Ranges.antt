-- ===== src/Ports/Ranges.antt =====
-- `parse_port_range` and `range_from`, over the codes of the text.
use tauri_connector.Prelude.{
  ℕ, ◌+◌, ◌-◌, ◌*◌, ◌≤◌, min, String, ◌≡◌, Bool, not, ◌&&◌, Option, none, some, [], ◌∷◌, arith,
  if◌then◌else◌, ltb, leb, ◌==◌, all, is_empty, is_whitespace, Text, Result, ok, err, ◌>>=◌,
  Option-cases, inl, inr, Bool-cases,
}

-- u16::MAX
abbrev pub u16_max : ℕ
u16_max = 65535

-- The texts of the errors, by their parts.
pub data PortError : Type 0 where
  invalid_port : Text → PortError
  reversed : ℕ → ℕ → PortError
  in_variable : String → Text → PortError → PortError
  expected_one : String → Text → PortError

abbrev pub trim_start : Text → Text
trim_start [] = []
trim_start (c ∷ s) = if is_whitespace c then trim_start s else c ∷ s

abbrev pub trim_end : Text → Text
trim_end [] = []
trim_end (c ∷ s) = if all is_whitespace (c ∷ s) then [] else c ∷ trim_end s

abbrev pub trim : Text → Text
trim s = trim_end (trim_start s)

abbrev pub is_digit : ℕ → Bool
is_digit c = leb b'0' c && leb c b'9'

-- the digits after those that make `n`; `none` on another character or past the bound
unfoldable pub digits : ℕ → Text → Option ℕ
digits n [] = some n
digits n (c ∷ s) =
    let next = n * 10 + (c - b'0') in if is_digit c && leb next u16_max then digits next s else none

-- `s.parse::<u16>()`, which takes a plus sign before the digits
unfoldable pub parse_u16 : Text → Option ℕ
unfolding digits
parse_u16 [] = none
parse_u16 (c ∷ s) = if c == b'+' && not (is_empty s) then digits 0 s else digits 0 (c ∷ s)

-- the closure `port`
unfoldable pub parse_port : Text → Result PortError ℕ
unfolding parse_u16
parse_port s = elim (parse_u16 (trim s)) [
  | none ↦ err (invalid_port (trim s))
  | some p ↦ if p == 0 then err (invalid_port (trim s)) else ok p
]

-- `text.split_once('-')`
abbrev pub split_once : Text → Option (Text × Text)
split_once [] = none
split_once (c ∷ s) = elim (split_once s) [
  | none ↦ if c == b'-' then some ([], s) else none
  | some (a, b) ↦ if c == b'-' then some ([], s) else some (c ∷ a, b)
]

unfoldable pub ordered : ℕ → ℕ → Result PortError (ℕ × ℕ)
ordered start end = if ltb end start then err (reversed start end) else ok (start, end)

unfoldable pub parse_port_range : Text → Result PortError (ℕ × ℕ)
unfolding parse_port ordered
parse_port_range text = elim (split_once text) [
  | some (a, b) ↦ parse_port a >>= λ start. parse_port b >>= λ end. ordered start end
  | none ↦ parse_port text >>= λ p. ordered p p
]

-- START_PORT_SPAN
abbrev pub start_port_span : ℕ
start_port_span = 100

-- the closure `set`: a variable that is set to more than blanks
unfoldable pub set_variable : (String → Option Text) → String → Option Text
set_variable lookup name = elim (lookup name) [
  | none ↦ none
  | some v ↦ if all is_whitespace v then none else some v
]

abbrev pub in_range_variable :
    String → Text → Result PortError (ℕ × ℕ) → Result PortError (Option (ℕ × ℕ))
in_range_variable name text (ok range) = ok (some range)
in_range_variable name text (err e) = err (in_variable name text e)

abbrev pub from_start : String → Text → Result PortError (ℕ × ℕ) → Result PortError (Option (ℕ × ℕ))
from_start name text (err e) = err (expected_one name text)
from_start name text (ok (a, b)) =
    if a == b
    then ok (some (a, min (a + start_port_span) u16_max))
    else err (expected_one name text)

unfoldable pub range_from :
    (String → Option Text) → String → Option String → Result PortError (Option (ℕ × ℕ))
unfolding set_variable parse_port_range
range_from lookup range_var start_var = elim (set_variable lookup range_var) [
  | some text ↦ in_range_variable range_var text (parse_port_range text)
  | none ↦ elim start_var [
    | none ↦ ok none
    | some name ↦ elim (set_variable lookup name) [
      | none ↦ ok none
      | some text ↦ from_start name text (parse_port_range text)
    ]
  ]
]

digits-bounded : (n : ℕ) (s : Text) (p : ℕ) → n ≤ u16_max → digits n s ≡ some p → p ≤ u16_max
unfolding digits
digits-bounded n [] p h e = ground arith
digits-bounded n (c ∷ s) p h e = ground (arith, digits-bounded (n * 10 + (c - b'0')) s p)

parse_u16-bounded : (s : Text) (p : ℕ) → parse_u16 s ≡ some p → p ≤ u16_max
unfolding parse_u16
parse_u16-bounded [] p e = absurd (ground arith)
parse_u16-bounded (c ∷ s) p e = elim (Bool-cases (c == b'+' && not (is_empty s))) [
  | inl plus ↦ digits-bounded 0 s p (omega arith) (ground arith)
  | inr bare ↦ digits-bounded 0 (c ∷ s) p (omega arith) (ground arith)
]

parse_port-bounded : (s : Text) (p : ℕ) → parse_port s ≡ ok p → (1 ≤ p) × (p ≤ u16_max)
unfolding parse_port
parse_port-bounded s p e = ground (arith, parse_u16-bounded (trim s) p)

-- A range that is read has nonzero ports of 16 bits, the first not above the last.
pub parse_port_range-bounded :
    (text : Text) (start end : ℕ)
    → parse_port_range text ≡ ok (start, end)
    → (1 ≤ start) × (start ≤ end) × (end ≤ u16_max)
unfolding parse_port_range ordered
parse_port_range-bounded text start end e = elim (Option-cases (split_once text)) [
  | inl whole ↦ ground (arith, parse_port-bounded text start)
  | inr ((a, b), parts) ↦ ground (arith, parse_port-bounded a start, parse_port-bounded b end)
]
