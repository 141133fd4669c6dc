-- ===== src/App/VerifyOptions.antt =====
-- `parseVerifyOptions` of labctl-go/internal/app/app.go.
pub mod Sound
use paraflow.Benchmark.Receipts.{VerifyOptions}
use paraflow.Prelude.{
  Bool, true, false, not, ◌&&◌, ◌||◌, Option, none, some, List, [], ◌∷◌, ◌++◌, if◌then◌else◌,
}
use paraflow.Prelude.Text.{Bytes, codes, is_empty, bytes_eq}
use paraflow.Prelude.Strings.{has_prefix}
use paraflow.Prelude.Outcome.{Outcome, ok, err, ◌>>=◌, ◌>>◌, refuse}
use paraflow.App.Options.{member, flag_message}

-- The cases of the `switch`.
pub data ArgumentKind : Type 0 where
  json_flag root_flag engine_flag plain : ArgumentKind

unfoldable pub kind_of : Bytes → ArgumentKind
kind_of argument =
    if bytes_eq argument (codes "--json")
    then json_flag
    else if bytes_eq argument (codes "--repository-root")
    then root_flag
    else if bytes_eq argument (codes "--engine")
    then engine_flag
    else plain

-- The guard of a flag that was given before.
abbrev pub refuse_twice : Bytes → List Bytes → Outcome Bytes Unit
refuse_twice argument seen =
    refuse (member argument seen)
      (flag_message (codes "verify") argument (codes "was provided more than once"))

abbrev pub no_value : Bytes → Bytes
no_value argument = flag_message (codes "verify") argument (codes "requires a non-empty value")

abbrev pub refuse_value : Bytes → Bytes → Outcome Bytes Unit
refuse_value argument value =
    refuse (is_empty value || has_prefix value (codes "--")) (no_value argument)

-- An argument that is no flag of the command.
module _ (quote : Bytes → Bytes) where
  abbrev pub take_path : Bytes → VerifyOptions → Outcome Bytes VerifyOptions
  take_path argument options = do
    refuse (has_prefix argument (codes "-")) (codes "unknown verify flag " ++ quote argument)
    refuse (not (is_empty options.evidence_path)) (codes "verify accepts exactly one evidence path")
    ok (record options { evidence_path = argument })

  -- The loop.
  unfoldable pub verify_loop :
      VerifyOptions → List Bytes → Bool → List Bytes → Outcome Bytes (VerifyOptions × Bool)
  unfolding kind_of member has_prefix
  verify_loop options seen json [] = ok (options, json)
  verify_loop options seen json (argument ∷ []) = elim (kind_of argument) [
    | json_flag ↦ refuse_twice argument seen >> ok (options, true)
    | root_flag ↦ refuse_twice argument seen >> err (no_value argument)
    | engine_flag ↦ refuse_twice argument seen >> err (no_value argument)
    | plain ↦ do options' ← take_path argument options; ok (options', json)
  ]
  verify_loop options seen json (argument ∷ value ∷ rest) = elim (kind_of argument) [
    | json_flag ↦
        refuse_twice argument seen >> verify_loop options (argument ∷ seen) true (value ∷ rest)
    | root_flag ↦ do
      refuse_twice argument seen
      refuse_value argument value
      verify_loop (record options { repository_root = value }) (argument ∷ seen) json rest
    | engine_flag ↦ do
      refuse_twice argument seen
      refuse_value argument value
      verify_loop (record options { engine_path = value }) (argument ∷ seen) json rest
    | plain ↦ do
      options' ← take_path argument options
      verify_loop options' seen json (value ∷ rest)
  ]

  -- `parseVerifyOptions`.
  unfoldable pub parse_verify_options : List Bytes → Outcome Bytes (VerifyOptions × Bool)
  unfolding verify_loop
  parse_verify_options args = do
    (options, json) ←
        verify_loop (record { evidence_path = []; repository_root = codes "."; engine_path = [] })
          [] false args
    refuse (is_empty options.evidence_path) (codes "verify requires <evidence.json>")
    ok (options, json)
