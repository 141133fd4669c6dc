-- ===== src/Doctor/Version.antt =====
-- Versions in labctl-go/internal/doctor/doctor.go: `numericVersionPattern`, `parseNumericVersion`,
-- `lessThan`, `versionLine`. The pattern's digits are greedy, and giving one back never leads to a
-- match, since a digit is no dot.
pub mod Order
pub mod RoundTrip
use paraflow.Prelude.{
  ℕ, ◌+◌, Bool, true, false, not, Option, none, some, List, [], ◌∷◌, ◌++◌, ltb, ◌==◌, if◌then◌else◌,
  drop,
}
use paraflow.Prelude.Text.{Bytes, codes, is_empty}
use paraflow.Prelude.Strings.{trim_space, has_prefix, cut, split, is_digit, decimal, atoi}
use paraflow.Prelude.Outcome.{Outcome, ok, err, panic, ◌>>=◌}

pub record NumericVersion : Type 0 where
  pub major : ℕ
  pub minor : ℕ
  pub patch : ℕ

-- `[0-9]*`, and what follows it.
unfoldable pub digits : Bytes → Bytes × Bytes
digits [] = ([], [])
digits (c ∷ s) = let (ds, rest) = digits s in if is_digit c then (c ∷ ds, rest) else ([], c ∷ s)

-- The text behind a dot.
abbrev pub behind_dot : Bytes → Option Bytes
behind_dot [] = none
behind_dot (c ∷ s) = if c == b'.' then some s else none

-- The groups of a match; the last is empty where it took no part.
pub record Match : Type 0 where
  pub first : Bytes
  pub second : Bytes
  pub third : Bytes

-- `(?:\.([0-9]+))?`
abbrev pub match_third : Bytes → Bytes
match_third rest = elim (behind_dot rest) [ none ↦ [] | some s ↦ (digits s).0 ]

-- `([0-9]+)\.([0-9]+)(?:\.([0-9]+))?`
unfoldable pub match_numbers : Bytes → Option Match
unfolding digits
match_numbers s =
    let (first, rest) = digits s in
    if is_empty first then none else elim (behind_dot rest) [
      | none ↦ none
      | some t ↦
          let (second, rest') = digits t in
          if is_empty second
          then none
          else some (record { first = first; second = second; third = match_third rest' })
    ]

-- The pattern at the start of a text.
unfoldable pub match_here : Bytes → Option Match
unfolding match_numbers
match_here s =
    if has_prefix s (codes "go")
    then elim (match_numbers (drop 2 s)) [ none ↦ match_numbers s | some m ↦ some m ]
    else match_numbers s

-- `FindStringSubmatch`: the leftmost match.
unfoldable pub find_match : Bytes → Option Match
unfolding match_here
find_match [] = none
find_match (c ∷ s) =
    let later = find_match s in elim (match_here (c ∷ s)) [ none ↦ later | some m ↦ some m ]

abbrev pub is_match : Option Match → Bool
is_match none = false
is_match (some m) = true

-- `firstLine`.
unfoldable pub first_line : Bytes → Bytes
first_line value =
    let trimmed = trim_space value in
    elim (cut b'\n' trimmed) [ none ↦ trimmed | some (line, rest) ↦ trim_space line ]

-- The loop of `versionLine`.
pub version_line_of : List Bytes → Bytes → Bytes
unfolding find_match
version_line_of [] value = first_line value
version_line_of (line ∷ lines) value =
    let later = version_line_of lines value in
    let trimmed = trim_space line in if is_match (find_match trimmed) then trimmed else later

unfoldable pub version_line : Bytes → Bytes
unfolding version_line_of
version_line value = version_line_of (split b'\n' value) value

unfoldable pub less_than : NumericVersion → NumericVersion → Bool
less_than v w =
    if not (v.major == w.major)
    then ltb v.major w.major
    else if not (v.minor == w.minor)
    then ltb v.minor w.minor
    else ltb v.patch w.patch

-- `numericVersion.String`.
unfoldable pub version_text : NumericVersion → Bytes
version_text v = decimal v.major ++ (b'.' ∷ (decimal v.minor ++ (b'.' ∷ decimal v.patch)))

-- `quote` is `%q`.
module _ (quote : Bytes → Bytes) where
  unfoldable pub component : Bytes → Outcome Bytes ℕ
  component [] = ok 0
  component (c ∷ s) = elim (atoi (c ∷ s)) [
    | some n ↦ ok n
    | none ↦ err (
        codes "parse component "
        ++ (quote (c ∷ s)
            ++ (codes ": strconv.Atoi: parsing "
                ++ (quote (c ∷ s) ++ codes ": value out of range"))))
  ]

  -- `parseNumericVersion`.
  unfoldable pub parse_numeric_version : Bytes → Outcome Bytes NumericVersion
  unfolding find_match component
  parse_numeric_version value = elim (find_match value) [
    | none ↦ err (codes "no numeric version in " ++ quote value)
    | some m ↦ do
      major ← component m.first
      minor ← component m.second
      patch ← component m.third
      ok (record { major = major; minor = minor; patch = patch })
  ]
