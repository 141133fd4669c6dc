-- ===== src/BuildInfo/Examples.antt =====
-- Identities at concrete build metadata.
use paraflow.Prelude.{◌≡◌, Option, some, List, [], ◌∷◌, ◌++◌}
use paraflow.Prelude.Text.{Bytes, codes}
use paraflow.BuildInfo.{Info, resolve, info_text, source_unknown}
use paraflow.BuildInfo.Identity.{IsIdentity, Follows, metadata_of, resolve-IsIdentity}

abbrev metadata : Option (List (Bytes × Bytes))
metadata = some ((codes "vcs.revision", codes "0a1b") ∷ (codes "vcs.modified", codes "true") ∷ [])

abbrev linked : Info
linked = record { version = codes "1.2"; full_commit = []; source_state = source_unknown }

resolve-IsIdentity_example :
    IsIdentity (resolve metadata linked)
    × (resolve metadata (resolve metadata linked) ≡ resolve metadata linked)
    × (info_text (resolve metadata linked)
        ≡ (resolve metadata linked).version
          ++ (codes " (commit "
              ++ ((resolve metadata linked).full_commit
                  ++ (codes ", source " ++ ((resolve metadata linked).source_state ++ codes ")")))))
    × Follows (metadata_of metadata) linked (resolve metadata linked)
resolve-IsIdentity_example = resolve-IsIdentity metadata linked
