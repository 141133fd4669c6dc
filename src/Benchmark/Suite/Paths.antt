-- ===== src/Benchmark/Suite/Paths.antt =====
-- `validRepositoryJSONPath` of labctl-go/internal/benchmark/types.go as a condition on the components.
use mathlib.Core.List.{reverse_aux}
use paraflow.Prelude.{
  ℕ, ◌≤◌, ◌≡◌, ◌↔◌, inl, inr, refl, sym, ap, ◌∙◌, Bool, true, false, not, ◌||◌, List, [], ◌∷◌, ltb,
  ◌==◌, if◌then◌else◌, arith, Bool-cases, ==_iff,
}
use paraflow.Prelude.Text.{Bytes, codes, is_empty, bytes_eq, bytes_eq_iff, bytes_eq_refl}
use paraflow.Prelude.Utf8.{rune_count}
use paraflow.Prelude.Strings.{contains, has_prefix, split, onto_head}
use paraflow.Benchmark.Suite.{
  clean_components, join, clean, extension, proper_components, valid_repository_json_path,
}

onto_head_join : (x : ℕ) (lines : List Bytes) → join (onto_head x lines) ≡ x ∷ join lines
unfolding join
onto_head_join x [] = refl
onto_head_join x (line ∷ []) = refl
onto_head_join x (line ∷ more ∷ lines) = refl

split-cons :
    (sep : ℕ) (s : Bytes) → (line : Bytes) × (lines : List Bytes) × (split sep s ≡ line ∷ lines)
unfolding split
split-cons sep [] = ([], [], refl)
split-cons sep (x ∷ s) = elim (Bool-cases (x == sep)) [
  | inl e ↦ ([], split sep s, rw e)
  | inr e ↦ let (line, lines, f) = split-cons sep s in (x ∷ line, lines, rw (e, f))
]

join_empty :
    (lines : List Bytes) (line : Bytes) → join ([] ∷ line ∷ lines) ≡ b'/' ∷ join (line ∷ lines)
unfolding join
join_empty lines line = refl

join-split : (s : Bytes) → join (split b'/' s) ≡ s
unfolding split join
join-split [] = refl
join-split (x ∷ s) = elim (Bool-cases (x == b'/')) [
  | inl e ↦
      let (line, lines, f) = split-cons b'/' s in
      rw (split, e, f) (join_empty lines line ∙ ap (◌∷◌ b'/') (ap join (sym f) ∙ join-split s))
      ∙ ap (λ c. c ∷ s) (sym ((==_iff x b'/').0 e))
  | inr e ↦ rw (split, e, onto_head_join, join-split s)
]

proper_components-cons :
    (c : Bytes) (cs : List Bytes)
    → proper_components (c ∷ cs) ≡ true
    → (bytes_eq c (codes "..") ≡ false)
      × (bytes_eq c (codes ".") ≡ false)
      × (is_empty c ≡ false)
      × (proper_components cs ≡ true)
unfolding proper_components
proper_components-cons c cs h = (ground arith, ground arith, ground arith, ground arith)

clean_components-proper :
    (stack cs : List Bytes)
    → proper_components cs ≡ true
    → clean_components false stack cs ≡ reverse_aux stack cs
unfolding clean_components proper_components
clean_components-proper stack [] h = refl
clean_components-proper stack (c ∷ cs) h =
    let (up, dot, full, rest) = proper_components-cons c cs h in
    rw (full, dot, up) (clean_components-proper (c ∷ stack) cs rest)

has_slash : (s : Bytes) → has_prefix s (codes "/") ≡ true → proper_components (split b'/' s) ≡ false
unfolding has_prefix split proper_components
has_slash [] h = cc
has_slash (x ∷ s) h = ground arith

clean-proper :
    (c : ℕ) (s : Bytes)
    → has_prefix (c ∷ s) (codes "/") ≡ false
    → proper_components (split b'/' (c ∷ s)) ≡ true
    → clean (c ∷ s) ≡ c ∷ s
unfolding clean
clean-proper c s relative h =
    rw (relative, clean_components-proper [] (split b'/' (c ∷ s)) h, join-split (c ∷ s)) refl

-- A path of at most 512 characters with no backslash, whose components are all proper and whose last
-- component ends with `.json` behind its last dot.
pub record IsRepositoryPath (value : Bytes) : Type 0 where
  pub short : rune_count value ≤ 512
  pub slashes : contains value (92 ∷ []) ≡ false
  pub components : proper_components (split b'/' value) ≡ true
  pub json : extension value ≡ codes ".json"

path→ : (value : Bytes) → valid_repository_json_path value ≡ true → IsRepositoryPath value
unfolding valid_repository_json_path
path→ value h = record {
  short = ground arith;
  slashes = ground arith;
  components = ground arith;
  json = (bytes_eq_iff (extension value) (codes ".json")).0 (ground arith);
}

no_components : proper_components (split b'/' []) ≡ false
unfolding proper_components split bytes_eq
no_components = refl

not_long : (n : ℕ) → n ≤ 512 → ltb 512 n ≡ false
not_long n h = ground arith

admitted :
    {long back slash same json proper : Bool}
    → long ≡ false
    → back ≡ false
    → slash ≡ false
    → same ≡ true
    → json ≡ true
    → proper ≡ true
    → (if long || (back || slash) then false else if not same || not json then false else proper)
      ≡ true
admitted a b c d e f = rw (a, b, c, d, e, f)

path← : (value : Bytes) → IsRepositoryPath value → valid_repository_json_path value ≡ true
unfolding valid_repository_json_path
path← [] p = absurd (ground (arith, no_components, p.components))
path← (c ∷ s) p = elim (Bool-cases (has_prefix (c ∷ s) (codes "/"))) [
  | inl e ↦ absurd (ground (arith, has_slash (c ∷ s) e, p.components))
  | inr e ↦
      admitted (not_long (rune_count (c ∷ s)) p.short) p.slashes e
        (rw (clean-proper c s e p.components) (bytes_eq_refl (c ∷ s)))
        ((bytes_eq_iff (extension (c ∷ s)) (codes ".json")).1 p.json) p.components
]

-- `validRepositoryJSONPath` accepts exactly the paths whose components are all proper, none of them
-- empty, `.` or `..`, that end with `.json`, have at most 512 characters and no backslash. That they are
-- relative and clean is implied.
pub valid_repository_json_path_iff :
    (value : Bytes) → (valid_repository_json_path value ≡ true) ↔ IsRepositoryPath value
valid_repository_json_path_iff value = (path→ value, path← value)
