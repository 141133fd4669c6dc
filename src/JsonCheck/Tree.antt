-- ===== src/JsonCheck/Tree.antt =====
-- JSON values as trees, their tokens, and what it means that no object repeats a key.
use paraflow.Prelude.{◌≢◌, List, ◌∷◌}
use paraflow.Prelude.Text.{Bytes}
use paraflow.JsonCheck.{Token, open_object, close_object, open_array, close_array, text, scalar}

mutual
  pub data Json : Type 0 where
    atom : Json
    string : Bytes → Json
    array : Items → Json
    object : Fields → Json

  pub data Items : Type 0 where
    no_items : Items
    item : Json → Items → Items

  pub data Fields : Type 0 where
    no_fields : Fields
    field : Bytes → Json → Fields → Fields

-- The tokens of a value in front of `rest`.
unfoldable mutual
  pub emit : Json → List Token → List Token
  emit atom rest = scalar ∷ rest
  emit (string s) rest = text s ∷ rest
  emit (array xs) rest = open_array ∷ emit_items xs (close_array ∷ rest)
  emit (object fs) rest = open_object ∷ emit_fields fs (close_object ∷ rest)

  pub emit_items : Items → List Token → List Token
  emit_items no_items rest = rest
  emit_items (item v xs) rest = emit v (emit_items xs rest)

  pub emit_fields : Fields → List Token → List Token
  emit_fields no_fields rest = rest
  emit_fields (field k v fs) rest = text k ∷ emit v (emit_fields fs rest)

abbrev pub Absent : Bytes → Fields → Type 0
Absent k no_fields = Unit
Absent k (field j v fs) = (j ≢ k) × Absent k fs

-- No object repeats a key, at any depth.
unfoldable mutual
  pub Distinct : Json → Type 0
  Distinct atom = Unit
  Distinct (string s) = Unit
  Distinct (array xs) = DistinctItems xs
  Distinct (object fs) = DistinctFields fs

  pub DistinctItems : Items → Type 0
  DistinctItems no_items = Unit
  DistinctItems (item v xs) = Distinct v × DistinctItems xs

  pub DistinctFields : Fields → Type 0
  DistinctFields no_fields = Unit
  DistinctFields (field k v fs) = Absent k fs × Distinct v × DistinctFields fs
