-- ===== src/JsonCheck/Examples.antt =====
-- The scan for duplicate keys at concrete tokens.
use paraflow.Prelude.{◌≡◌, ◌≢◌, ◌↔◌, refl, List, []}
use paraflow.Prelude.Text.{codes}
use paraflow.Prelude.Outcome.{ok, panic}
use paraflow.JsonCheck.{Token, end_of_input, reject_duplicate_object_keys}
use paraflow.JsonCheck.Tree.{
  Json, atom, array, object, no_items, item, no_fields, field, emit, Distinct,
}
use paraflow.JsonCheck.Accepts.{OneValue, reject_duplicate_object_keys_iff}

abbrev nested : Json
nested = object (field (codes "a") (array (item atom no_items)) (field (codes "b") atom no_fields))

abbrev tokens : List Token
unfolding emit
tokens = emit nested []

reject_duplicate_object_keys_iff_example :
    (reject_duplicate_object_keys end_of_input tokens ≢ panic)
    × ((reject_duplicate_object_keys end_of_input tokens ≡ ok tt) ↔ OneValue end_of_input tokens)
reject_duplicate_object_keys_iff_example = reject_duplicate_object_keys_iff end_of_input tokens

abbrev repeated : Json
repeated =
    array (item (object (field (codes "a") atom (field (codes "a") atom no_fields))) no_items)

repeats : ¬ Distinct repeated
unfolding Distinct
repeats d = d.0.0.0 refl
