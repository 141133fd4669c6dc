-- ===== src/Doctor/Version/Order.antt =====
-- `lessThan` of labctl-go/internal/doctor/doctor.go as an order on versions.
use paraflow.Prelude.{
  ℕ, ◌≡◌, ◌<◌, ◌≤◌, ◌↔◌, ◌⊎◌, Bool, true, false, not, ltb, ◌==◌, if◌then◌else◌, arith,
}
use paraflow.Doctor.Version.{NumericVersion, less_than}

before : ℕ → ℕ → ℕ → ℕ → ℕ → ℕ → Bool
before a b c a' b' c' =
    if not (a == a') then ltb a a' else if not (b == b') then ltb b b' else ltb c c'

before_irreflexive : (a b c : ℕ) → before a b c a b c ≡ false
unfolding before
before_irreflexive a b c = ground arith

before_transitive :
    (a b c a' b' c' a'' b'' c'' : ℕ)
    → before a b c a' b' c' ≡ true
    → before a' b' c' a'' b'' c'' ≡ true
    → before a b c a'' b'' c'' ≡ true
unfolding before
before_transitive a b c a' b' c' a'' b'' c'' h k = ground arith

before_total :
    (a b c a' b' c' : ℕ)
    → (before a b c a' b' c' ≡ true)
      ⊎ (((a ≡ a') × (b ≡ b') × (c ≡ c')) ⊎ (before a' b' c' a b c ≡ true))
unfolding before
before_total a b c a' b' c' = ground arith

-- `lessThan` is a strict total order on versions: no version is below itself, the order is
-- transitive, and of two versions one is below the other or all three components agree.
pub less_than_order :
    (u v w : NumericVersion)
    → (less_than u u ≡ false)
      × (less_than u v ≡ true → less_than v w ≡ true → less_than u w ≡ true)
      × ((less_than u v ≡ true)
          ⊎ (((u.major ≡ v.major) × (u.minor ≡ v.minor) × (u.patch ≡ v.patch))
              ⊎ (less_than v u ≡ true)))
unfolding less_than before
less_than_order u v w = (
  before_irreflexive u.major u.minor u.patch,
  before_transitive u.major u.minor u.patch v.major v.minor v.patch w.major w.minor w.patch,
  before_total u.major u.minor u.patch v.major v.minor v.patch,
)

-- The first version is the second or above it, by the components from the left.
abbrev pub Reaches : NumericVersion → NumericVersion → Type 0
Reaches v w =
    (w.major < v.major)
    ⊎ ((w.major ≡ v.major) × ((w.minor < v.minor) ⊎ ((w.minor ≡ v.minor) × (w.patch ≤ v.patch))))

-- `lessThan` refuses exactly the versions that reach the other one.
pub less_than-Reaches : (v w : NumericVersion) → (less_than v w ≡ false) ↔ Reaches v w
unfolding less_than
less_than-Reaches v w = (λ h. ground arith, λ h. ground arith)
