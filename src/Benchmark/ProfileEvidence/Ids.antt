-- ===== src/Benchmark/ProfileEvidence/Ids.antt =====
-- The experiment ids of `ExecuteProfile` of labctl-go/internal/benchmark/profile_execute.go are distinct.
use paraflow.Prelude.{
  ℕ, ◌+◌, ◌<◌, ◌≡◌, ◌≢◌, ◌⊎◌, refl, sym, ap, ◌∙◌, inl, inr, false, Option, some, List, [], ◌∷◌,
  arith, drop, get_elem?, All, Bool-cases,
}
use paraflow.Prelude.Text.{Bytes, bytes_eq, bytes_eq_iff}
use paraflow.Protocol.Hex.{format_request_id}
use paraflow.Protocol.Hex.RoundTrip.{request_ids_distinct}
use paraflow.Benchmark.Suite.{member}
use paraflow.Benchmark.ProfileEvidence.{baseline_id, profile_id}

id_number :
    (i j : ℕ) → i < 64 → j < 64 → format_request_id (i + 1) ≡ format_request_id (j + 1) → i ≡ j
id_number i j bi bj e =
    let (_, injective) = request_ids_distinct (i + 1) (j + 1) (omega arith) (omega arith) in
    let same : i + 1 ≡ j + 1 = injective e in omega arith

baseline_id-injective : (i j : ℕ) → i < 64 → j < 64 → baseline_id i ≡ baseline_id j → i ≡ j
unfolding baseline_id format_request_id
baseline_id-injective i j bi bj e = id_number i j bi bj (ap (drop 15) e)

profile_id-injective : (i j : ℕ) → i < 64 → j < 64 → profile_id i ≡ profile_id j → i ≡ j
unfolding profile_id format_request_id
profile_id-injective i j bi bj e = id_number i j bi bj (ap (drop 14) e)

pub baseline_id-ne-profile_id : (i j : ℕ) → baseline_id i ≢ profile_id j
unfolding baseline_id profile_id
baseline_id-ne-profile_id i j e =
    let letters : ◌≡◌ {A = Option ℕ} (some b'b') (some b'p') = ap (λ s. get_elem? s 6) e in
    absurd (ground arith)

-- The ids of the experiments before this one.
abbrev pub Made : ℕ → List Bytes → Type 0
Made index = All (λ id. (j : ℕ) × (j < index) × ((id ≡ baseline_id j) ⊎ (id ≡ profile_id j)))

pub Made-later : (index : ℕ) (ids : List Bytes) → Made index ids → Made (index + 1) ids
Made-later index [] h = tt
Made-later index (id ∷ ids) ((j, below, e), h) = ((j, omega arith, e), Made-later index ids h)

pub member-apart : (id : Bytes) (ids : List Bytes) → All (λ x. id ≢ x) ids → member id ids ≡ false
unfolding member
member-apart id [] h = refl
member-apart id (x ∷ ids) (ne, h) = elim (Bool-cases (bytes_eq id x)) [
  | inr apart ↦ rw (apart, member-apart id ids h)
  | inl same ↦ absurd (ne ((bytes_eq_iff id x).0 same))
]

pub fresh_baseline :
    (index : ℕ) (ids : List Bytes)
    → index < 64
    → Made index ids
    → All (λ x. baseline_id index ≢ x) ids
fresh_baseline index [] b h = tt
fresh_baseline index (id ∷ ids) b ((j, below, made), h) = (
  λ e. elim made [
    | inl e' ↦
        let i = baseline_id-injective index j b (omega arith) (e ∙ e') in absurd (omega arith)
    | inr e' ↦ absurd (baseline_id-ne-profile_id index j (e ∙ e'))
  ],
  fresh_baseline index ids b h,
)

pub fresh_profile :
    (index : ℕ) (ids : List Bytes)
    → index < 64
    → Made index ids
    → All (λ x. profile_id index ≢ x) ids
fresh_profile index [] b h = tt
fresh_profile index (id ∷ ids) b ((j, below, made), h) = (
  λ e. elim made [
    | inl e' ↦ absurd (baseline_id-ne-profile_id j index (sym (e ∙ e')))
    | inr e' ↦ let i = profile_id-injective index j b (omega arith) (e ∙ e') in absurd (omega arith)
  ],
  fresh_profile index ids b h,
)
