-- ===== src/Protocol/Result/Sound.antt =====
-- `validateResult` of protocol.go: what a result that it returns satisfies.
use paraflow.Prelude.{
  ℕ, ◌+◌, ◌≤◌, ◌<◌, ◌≡◌, refl, sym, ap, ◌∙◌, Bool, true, false, not, Option, some, List, [], ◌∷◌,
  arith, leb, if◌then◌else◌, length, sum,
}
use paraflow.Prelude.Text.{codes, bytes_eq, bytes_eq_iff}
use paraflow.Prelude.Words.{IsU64}
use paraflow.Prelude.Outcome.{Outcome, ok, err, ◌>>◌, refuse}
use paraflow.Protocol.Hex.{unmarshal_hex, marshal_nanoseconds}
use paraflow.Protocol.Hex.RoundTrip.{parse-marshal_iff}
use paraflow.Protocol.Message.{
  WorkloadProjection, ResultV1, WireFloat64, WireResult, histogram_exceeds_records, wrong_schema,
  bad_projection, result_schema,
}
use paraflow.Protocol.Result.{
  is_nan, is_negative_infinity, histogram_loop, validate_fields, require_fields, validate_result,
  projection_fails,
}

-- On a record count and a total in range the loop adds exactly: it never wraps, and refuses a total
-- above the record count.
pub histogram_loop-exact :
    (records total : ℕ) (counts : List ℕ)
    → IsU64 records
    → total ≤ records
    → histogram_loop records total counts ≡ (
        if leb (total + sum counts) records
        then ok (total + sum counts)
        else err histogram_exceeds_records)
unfolding histogram_loop
histogram_loop-exact records total [] b h = ground arith
histogram_loop-exact records total (c ∷ cs) b h =
    ground (arith, histogram_loop-exact records (total + c) cs)

-- What the controller relies on in a result for this workload.
pub record IsConsistent (workload : WorkloadProjection) (r : ResultV1) : Type 0 where
  pub histogram_total : sum r.category_histogram ≡ r.accepted_count
  pub accepted_bound : r.accepted_count ≤ workload.record_count
  pub one_per_category : length r.category_histogram ≡ workload.category_count
  pub some_category : 0 < workload.category_count
  pub not_nan : is_nan r.score_sum ≡ false
  pub not_negative_infinity : is_negative_infinity r.score_sum ≡ false
  pub score_u64 : IsU64 r.score_sum

-- The fields of the wire result that are passed on, and the exact text of the score.
pub record IsDecoded (wire : WireResult) (r : ResultV1) : Type 0 where
  pub accepted : wire.accepted_count ≡ some r.accepted_count
  pub histogram : wire.category_histogram ≡ some r.category_histogram
  pub id_sum : wire.accepted_id_sum ≡ some r.accepted_id_sum
  pub id_xor : wire.accepted_id_xor ≡ some r.accepted_id_xor
  pub score :
      wire.score_sum
      ≡ some
          (record { encoding = codes "ieee754-binary64"; bits = marshal_nanoseconds r.score_sum })

-- The tests of `validateResult` that a result has passed.
record Passed (a : ℕ) (s : WireFloat64) (h : List ℕ) (i x : ℕ) (w : WorkloadProjection)
    (r : ResultV1) : Type 0 where
  encoding : bytes_eq s.encoding (codes "ieee754-binary64") ≡ true
  bits : unmarshal_hex s.bits ≡ ok r.score_sum
  not_nan : is_nan r.score_sum ≡ false
  not_negative_infinity : is_negative_infinity r.score_sum ≡ false
  bound : a ≤ w.record_count
  categories : length h ≡ w.category_count
  total : histogram_loop w.record_count 0 h ≡ ok a
  accepted : r.accepted_count ≡ a
  histogram : r.category_histogram ≡ h
  id_sum : r.accepted_id_sum ≡ i
  id_xor : r.accepted_id_xor ≡ x

validate_fields-Passed :
    (a : ℕ) (s : WireFloat64) (h : List ℕ) (i x : ℕ) (w : WorkloadProjection) (r : ResultV1)
    → validate_fields a s h i x w ≡ ok r
    → Passed a s h i x w r
unfolding validate_fields
validate_fields-Passed a s h i x w r e = ground arith

Passed-validate_fields :
    (a : ℕ) (s : WireFloat64) (h : List ℕ) (i x : ℕ) (w : WorkloadProjection) (r : ResultV1)
    → Passed a s h i x w r
    → validate_fields a s h i x w ≡ ok r
unfolding validate_fields
Passed-validate_fields a s h i x w r p = ground arith

projection_bound :
    (w : WorkloadProjection)
    → projection_fails w ≡ false
    → IsU64 w.record_count × (0 < w.category_count)
projection_bound w h = ground arith

decoded_score :
    (s : WireFloat64) (bits : ℕ)
    → bytes_eq s.encoding (codes "ieee754-binary64") ≡ true
    → unmarshal_hex s.bits ≡ ok bits
    → IsU64 bits
      × (s ≡ record { encoding = codes "ieee754-binary64"; bits = marshal_nanoseconds bits })
decoded_score s bits e f =
    let (iff, same) = parse-marshal_iff s.bits bits in
    let (b, text) = iff.0 (sym same ∙ f) in
    let tag : s.encoding ≡ codes "ieee754-binary64" = (bytes_eq_iff _ _).0 e in
    (b, λ k. record { encoding = tag k; bits = text k })

require_fields-some :
    (oa : Option ℕ) (os : Option WireFloat64) (oh : Option (List ℕ)) (oi ox : Option ℕ)
    (w : WorkloadProjection) (r : ResultV1)
    → require_fields oa os oh oi ox w ≡ ok r
    → (a : ℕ) × (s : WireFloat64) × (h : List ℕ) × (i : ℕ) × (x : ℕ) × (oa ≡ some a)
      × (os ≡ some s)
      × (oh ≡ some h)
      × (oi ≡ some i)
      × (ox ≡ some x)
      × (validate_fields a s h i x w ≡ ok r)
unfolding require_fields
require_fields-some (some a) (some s) (some h) (some i) (some x) w r e =
    (a, s, h, i, x, refl, refl, refl, refl, refl, e)
require_fields-some _ _ _ _ _ w r e = cc

gate :
    (b c : Bool) {E A : Type 0} (e f : E) (m : Outcome E A) {r : A}
    → (refuse b e >> (refuse c f >> m)) ≡ ok r
    → (b ≡ false) × (c ≡ false) × (m ≡ ok r)
gate b c e f m h = ground arith

-- A wire result that `validateResult` returns as `r` holds exactly the fields of `r`, its score as the
-- canonical text of the bits, and `r` is consistent with the workload: the histogram has an entry for
-- each category, adds up to the accepted count with no wrap, and stays within the record count; the
-- score is neither NaN nor negative infinity.
pub validate_result-IsConsistent :
    (wire : WireResult) (w : WorkloadProjection) (r : ResultV1)
    → validate_result wire w ≡ ok r
    → IsConsistent w r × IsDecoded wire r
unfolding validate_result
validate_result-IsConsistent wire w r e =
    let (projected, schema, e1) =
      gate (projection_fails w) (not (bytes_eq wire.schema_version result_schema)) bad_projection
        wrong_schema _ e in
    let (a, s, h, i, x, ea, es, eh, ei, ex, e2) =
      require_fields-some wire.accepted_count wire.score_sum wire.category_histogram
        wire.accepted_id_sum wire.accepted_id_xor w r e1 in
    let p = validate_fields-Passed a s h i x w r e2 in
    let (records, some_category) = projection_bound w projected in
    let (u64_score, text) = decoded_score s r.score_sum p.encoding p.bits in
    let exact = histogram_loop-exact w.record_count 0 h records (omega arith) in
    let total : sum h ≡ a = ground (arith, exact, p.total) in
    let within : a ≤ w.record_count = p.bound in
    (
      record {
        histogram_total = ap sum p.histogram ∙ total ∙ sym p.accepted;
        accepted_bound = omega (arith, p.accepted);
        one_per_category = ap length p.histogram ∙ p.categories;
        some_category = some_category;
        not_nan = p.not_nan;
        not_negative_infinity = p.not_negative_infinity;
        score_u64 = u64_score;
      },
      record {
        accepted = ea ∙ ap some (sym p.accepted);
        histogram = eh ∙ ap some (sym p.histogram);
        id_sum = ei ∙ ap some (sym p.id_sum);
        id_xor = ex ∙ ap some (sym p.id_xor);
        score = es ∙ ap some text;
      },
    )
