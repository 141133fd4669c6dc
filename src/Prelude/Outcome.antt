-- ===== src/Prelude/Outcome.antt =====
-- The result of a Go function that returns `(value, error)`: a value, an error, or a run-time panic.
use mathlib.Core.Path.{◌≡◌, refl, subst}
use mathlib.Core.Logic.{◌≢◌}
use mathlib.Core.Bool.{Bool, true, false}
use mathlib.Core.Option.{Option, none, some}

pub data Outcome {ℓ} (E A : Type ℓ) : Type ℓ where
  ok : A → Outcome E A
  err : E → Outcome E A
  panic : Outcome E A

infixl 5 ◌>>=◌ ◌>>◌
abbrev pub ◌>>=◌ {ℓ} : {E A B : Type ℓ} → Outcome E A → (A → Outcome E B) → Outcome E B
panic >>= next = panic
err why >>= next = err why
ok u >>= next = next u

abbrev pub ◌>>◌ {ℓ} : {E B : Type ℓ} → Outcome E Unit → Outcome E B → Outcome E B
first >> second = first >>= λ _. second

-- `if b { return err }`.
abbrev pub refuse {ℓ} : {E : Type ℓ} → Bool → E → Outcome E Unit
refuse true e = err e
refuse false e = ok tt

-- An index expression or a call that panics.
abbrev pub or_panic {ℓ} : {E A : Type ℓ} → Option A → Outcome E A
or_panic none = panic
or_panic (some a) = ok a

-- `fmt.Errorf("…: %w", err)`.
abbrev pub map_err {ℓ} : {E F A : Type ℓ} → (E → F) → Outcome E A → Outcome F A
map_err f (ok a) = ok a
map_err f (err e) = err (f e)
map_err f panic = panic

-- What a first step returned, where both steps returned.
pub >>=-eq-ok {ℓ} :
    {E A B : Type ℓ} (first : Outcome E A) (next : A → Outcome E B) {v : B}
    → (first >>= next) ≡ ok v
    → (u : A) × (first ≡ ok u) × (next u ≡ ok v)
>>=-eq-ok panic next e = cc
>>=-eq-ok (err why) next e = cc
>>=-eq-ok (ok u) next e = (u, refl, e)

pub map_err-eq-ok {ℓ} :
    {E F A : Type ℓ} (f : E → F) (m : Outcome E A) {a : A} → map_err f m ≡ ok a → m ≡ ok a
map_err-eq-ok f (ok a) h = cc
map_err-eq-ok f (err e) h = cc
map_err-eq-ok f panic h = cc

-- The two steps of a ladder that succeeded, for a proof that goes on with what they leave.
pub bind-ok {ℓ κ} :
    {E A B : Type ℓ} {C : Type κ} (m : Outcome E A) (f : A → Outcome E B) {b : B}
    → (m >>= f) ≡ ok b
    → ((a : A) → m ≡ ok a → f a ≡ ok b → C)
    → C
bind-ok (ok a) f h k = k a refl h
bind-ok (err e) f h k = absurd (cc)
bind-ok panic f h k = absurd (cc)

pub refuse-ok {ℓ κ} :
    {E B : Type ℓ} {C : Type κ} (b : Bool) (e : E) (m : Outcome E B) {v : B}
    → (refuse b e >> m) ≡ ok v
    → (b ≡ false → m ≡ ok v → C)
    → C
refuse-ok true e m h k = absurd (cc)
refuse-ok false e m h k = k refl h

pub ok-injective {ℓ} : {E A : Type ℓ} (a b : A) → ◌≡◌ {A = Outcome E A} (ok a) (ok b) → a ≡ b
ok-injective a b h = cc

-- The run did not panic, and `P` holds of its value if it has one.
pub data Meets {ℓ κ} {E A : Type ℓ} (P : A → Type κ) : Outcome E A → Type (ℓ ⊔ κ) where
  meets : {a : A} → P a → Meets P (ok a)
  declines : {e : E} → Meets P (err e)

module _ {ℓ κ} {E A : Type ℓ} {P : A → Type κ} where
  pub Meets->>= {κ'} :
      {B : Type ℓ} {Q : B → Type κ'} {first : Outcome E A} {next : A → Outcome E B}
      → Meets P first
      → ((a : A) → P a → Meets Q (next a))
      → Meets Q (first >>= next)
  Meets->>= (meets {a} h) k = k a h
  Meets->>= declines k = declines

  pub Meets-weaken {κ'} :
      {Q : A → Type κ'} {r : Outcome E A} → Meets P r → ((a : A) → P a → Q a) → Meets Q r
  Meets-weaken (meets {a} h) k = meets (k a h)
  Meets-weaken declines k = declines

  pub Meets-ok : {r : Outcome E A} {a : A} → Meets P r → r ≡ ok a → P a
  Meets-ok (meets h) e = subst P (ok-injective _ _ e) h
  Meets-ok declines e = cc

  pub Meets-panic : {r : Outcome E A} → Meets P r → r ≢ panic
  Meets-panic (meets h) = cc
  Meets-panic declines = cc

  pub Meets-elim :
      (b : Bool) {x y : Outcome E A}
      → (b ≡ false → Meets P x)
      → (b ≡ true → Meets P y)
      → Meets P (elim b [ false ↦ x | true ↦ y ])
  Meets-elim false hx hy = hx refl
  Meets-elim true hx hy = hy refl
