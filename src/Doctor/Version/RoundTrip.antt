-- ===== src/Doctor/Version/RoundTrip.antt =====
-- `parseNumericVersion` on what `numericVersion.String` prints.
use paraflow.Prelude.{ℕ, ◌≤◌, ◌≡◌, refl, true, false, some, [], ◌∷◌, ◌++◌, ◌==◌, arith}
use paraflow.Prelude.Text.{Bytes, codes, is_empty}
use paraflow.Prelude.Strings.{is_digit, decimal, atoi, max_int, has_prefix}
use paraflow.Prelude.Strings.Decimal.{Numeral, one, more, decimal-Numeral, atoi-decimal}
use paraflow.Prelude.Outcome.{ok}
use paraflow.Doctor.Version.{
  NumericVersion, Match, digits, match_third, match_numbers, match_here, find_match, version_text,
  component, parse_numeric_version,
}

digits-dot : {s : Bytes} (t : Bytes) → Numeral s → digits (s ++ (b'.' ∷ t)) ≡ (s, b'.' ∷ t)
unfolding digits
digits-dot t (one h) = rw h
digits-dot t (more h n) = rw (h, digits-dot t n)

digits-Numeral : {s : Bytes} → Numeral s → digits s ≡ (s, [])
unfolding digits
digits-Numeral (one h) = rw h
digits-Numeral (more h n) = rw (h, digits-Numeral n)

is_empty-Numeral : {s : Bytes} → Numeral s → is_empty s ≡ false
is_empty-Numeral (one h) = refl
is_empty-Numeral (more h n) = refl

unlettered : (c : ℕ) → is_digit c ≡ true → (c == b'g') ≡ false
unlettered c h = ground arith

has_prefix-Numeral : {s : Bytes} (t : Bytes) → Numeral s → has_prefix (s ++ t) (codes "go") ≡ false
unfolding has_prefix
has_prefix-Numeral t (one {c} h) = rw (unlettered c h)
has_prefix-Numeral t (more {c} h n) = rw (unlettered c h)

module _ {x y z : Bytes} (a : Numeral x) (b : Numeral y) (c : Numeral z) where
  match_numbers-dotted :
      match_numbers (x ++ (b'.' ∷ (y ++ (b'.' ∷ z))))
      ≡ some (record { first = x; second = y; third = z })
  unfolding match_numbers
  match_numbers-dotted = rw (
    digits-dot (y ++ (b'.' ∷ z)) a,
    is_empty-Numeral a,
    digits-dot z b,
    is_empty-Numeral b,
    digits-dot (y ++ (b'.' ∷ z)) a,
    match_third,
    digits-Numeral c,
  )

  match_here-dotted :
      match_here (x ++ (b'.' ∷ (y ++ (b'.' ∷ z))))
      ≡ some (record { first = x; second = y; third = z })
  unfolding match_here
  match_here-dotted = rw (has_prefix-Numeral (b'.' ∷ (y ++ (b'.' ∷ z))) a) match_numbers-dotted

find_match-here : (s : Bytes) (m : Match) → match_here s ≡ some m → find_match s ≡ some m
unfolding find_match match_here match_numbers digits has_prefix
find_match-here [] m h = cc
find_match-here (c ∷ s) m h = rw (find_match, h)

component-Numeral :
    (quote : Bytes → Bytes) (n : ℕ) {s : Bytes}
    → Numeral s
    → atoi s ≡ some n
    → component quote s ≡ ok n
unfolding component
component-Numeral quote n (one e) f = rw (component, f)
component-Numeral quote n (more e m) f = rw (component, f)

component-decimal :
    (quote : Bytes → Bytes) (n : ℕ) → n ≤ max_int → component quote (decimal n) ≡ ok n
component-decimal quote n h = component-Numeral quote n (decimal-Numeral n) (atoi-decimal n h)

-- Reading the text that `String` prints of a version whose numbers are at most the greatest `int`
-- gives the version back.
pub parse_numeric_version-version_text :
    (quote : Bytes → Bytes) (v : NumericVersion)
    → v.major ≤ max_int
    → v.minor ≤ max_int
    → v.patch ≤ max_int
    → parse_numeric_version quote (version_text v) ≡ ok v
unfolding parse_numeric_version version_text
parse_numeric_version-version_text quote v h k l = rw (
  parse_numeric_version,
  find_match-here _ _ (
      match_here-dotted (decimal-Numeral v.major) (decimal-Numeral v.minor)
        (decimal-Numeral v.patch)),
  component-decimal quote v.major h,
  component-decimal quote v.minor k,
  component-decimal quote v.patch l,
)
