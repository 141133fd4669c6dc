-- ===== src/Prelude/Text.antt =====
-- Go strings and byte slices: lists of bytes.
use Prim.Native.Nat.{ℕ}
use Prim.Native.Char.{code}
use Prim.Native.String.{String}
use mathlib.Core.Path.{◌≡◌, refl, ap}
use mathlib.Core.Logic.{◌↔◌, ◌≢◌}
use mathlib.Core.Bool.{Bool, true, false, ◌&&◌, ◌||◌}
use mathlib.Core.List.{List, [], ◌∷◌, ◌++◌}
use native.Mathlib.Omega.{arith}
use paraflow.Prelude.Lists.{length, drop_last}
use paraflow.Prelude.Tests.{◌==◌, if◌then◌else◌}

abbrev pub Bytes : Type 0
Bytes = List ℕ

-- The bytes of an ASCII literal.
abbrev pub codes : String → Bytes
codes String.[] = []
codes (String.◌∷◌ c s) = code c ∷ codes s

-- `s == ""`.
abbrev pub is_empty : Bytes → Bool
is_empty [] = true
is_empty (c ∷ s) = false

unfoldable pub bytes_eq : Bytes → Bytes → Bool
bytes_eq [] [] = true
bytes_eq [] (y ∷ ys) = false
bytes_eq (x ∷ xs) [] = false
bytes_eq (x ∷ xs) (y ∷ ys) = if x == y then bytes_eq xs ys else false

pub bytes_eq→eq : (s t : Bytes) → bytes_eq s t ≡ true → s ≡ t
unfolding bytes_eq
bytes_eq→eq [] [] h = refl
bytes_eq→eq [] (y ∷ ys) h = cc
bytes_eq→eq (x ∷ xs) [] h = cc
bytes_eq→eq (x ∷ xs) (y ∷ ys) h = ground (arith, bytes_eq→eq xs ys)

pub bytes_eq_refl : (s : Bytes) → bytes_eq s s ≡ true
unfolding bytes_eq
bytes_eq_refl [] = refl
bytes_eq_refl (x ∷ xs) = ground (arith, bytes_eq_refl xs)

pub bytes_eq_iff : (s t : Bytes) → (bytes_eq s t ≡ true) ↔ (s ≡ t)
bytes_eq_iff s t = (bytes_eq→eq s t, λ e. subst_eq e)
  where
    subst_eq : s ≡ t → bytes_eq s t ≡ true
    subst_eq e = rw e (bytes_eq_refl t)

-- `len(s) != 0 && s[len(s)-1] == c`.
abbrev pub ends_with : ℕ → Bytes → Bool
ends_with c [] = false
ends_with c (x ∷ []) = x == c
ends_with c (x ∷ y ∷ s) = ends_with c (y ∷ s)

pub ends_with-snoc : (s : Bytes) (c : ℕ) → ends_with c (s ++ c ∷ []) ≡ true
ends_with-snoc [] c = ground arith
ends_with-snoc (x ∷ []) c = ends_with-snoc [] c
ends_with-snoc (x ∷ y ∷ s) c = ends_with-snoc (y ∷ s) c

pub drop_last-snoc : (s : Bytes) (c : ℕ) → drop_last (s ++ c ∷ []) ≡ s
drop_last-snoc [] c = refl
drop_last-snoc (x ∷ []) c = refl
drop_last-snoc (x ∷ y ∷ s) c = ap (◌∷◌ x) (drop_last-snoc (y ∷ s) c)

pub ends_with-append :
    (c : ℕ) (p f : Bytes)
    → ends_with c (p ++ f) ≡ (ends_with c f || (length f == 0 && ends_with c p))
ends_with-append c [] f = ground arith
ends_with-append c (x ∷ []) [] = ground arith
ends_with-append c (x ∷ []) (y ∷ ys) = ground arith
ends_with-append c (x ∷ y ∷ s) f = ends_with-append c (y ∷ s) f

pub snoc-drop_last : (s : Bytes) (c : ℕ) → ends_with c s ≡ true → s ≡ drop_last s ++ c ∷ []
snoc-drop_last [] c h = cc
snoc-drop_last (x ∷ []) c h = ground arith
snoc-drop_last (x ∷ y ∷ s) c h = ap (◌∷◌ x) (snoc-drop_last (y ∷ s) c h)

pub ends_with_other : (s : Bytes) (c d : ℕ) → c ≢ d → ends_with d (s ++ c ∷ []) ≡ false
ends_with_other [] c d h = ground arith
ends_with_other (x ∷ []) c d h = ends_with_other [] c d h
ends_with_other (x ∷ y ∷ s) c d h = ends_with_other (y ∷ s) c d h
