-- ===== src/BuildInfo.antt =====
-- labctl-go/internal/buildinfo/buildinfo.go. The Go build metadata is an argument: `none` where
-- `debug.ReadBuildInfo` finds none.
pub mod Identity
mod Examples
use paraflow.Prelude.{
  Bool, ◌||◌, Option, none, some, List, [], ◌∷◌, ◌++◌, ◌==◌, length, if◌then◌else◌,
}
use paraflow.Prelude.Text.{Bytes, codes, bytes_eq, is_empty}

abbrev pub source_clean : Bytes
source_clean = codes "clean"

abbrev pub source_dirty : Bytes
source_dirty = codes "dirty"

abbrev pub source_unknown : Bytes
source_unknown = codes "unknown"

pub record Info : Type 0 where
  pub version : Bytes
  pub full_commit : Bytes
  pub source_state : Bytes

-- A Go map from texts to texts, newest entry first.
abbrev pub Settings : Type 0
Settings = List (Bytes × Bytes)

-- `settings[key]`, which is empty for a missing key.
unfoldable pub setting : Settings → Bytes → Bytes
setting [] key = []
setting ((k, v) ∷ rest) key = if bytes_eq k key then v else setting rest key

-- The loop over the build settings: a later entry replaces an earlier one.
pub fill : Settings → List (Bytes × Bytes) → Settings
fill settings [] = settings
fill settings (entry ∷ entries) = fill (entry ∷ settings) entries

unfoldable pub normalize : Info → Info
normalize info = record {
  version = if is_empty info.version then codes "dev" else info.version;
  full_commit = if is_empty info.full_commit then codes "unknown" else info.full_commit;
  source_state =
      if bytes_eq info.source_state source_clean || bytes_eq info.source_state source_dirty
      then info.source_state
      else source_unknown;
}

-- `resolve`.
unfoldable pub resolve_settings : Info → Settings → Info
resolve_settings linked settings =
    let resolved = normalize linked in
    let revision = setting settings (codes "vcs.revision") in
    let modified = setting settings (codes "vcs.modified") in
    record resolved {
      full_commit = if is_empty revision then resolved.full_commit else revision;
      source_state =
          if bytes_eq modified (codes "true")
          then source_dirty
          else if bytes_eq modified (codes "false")
          then source_clean
          else resolved.source_state;
    }

-- `Resolve`.
unfoldable pub resolve : Option (List (Bytes × Bytes)) → Info → Info
unfolding fill
resolve none linked = resolve_settings linked []
resolve (some entries) linked = resolve_settings linked (fill [] entries)

-- `Info.String`.
unfoldable pub info_text : Info → Bytes
info_text info =
    let n = normalize info in
    n.version
    ++ (codes " (commit "
        ++ (n.full_commit ++ (codes ", source " ++ (n.source_state ++ codes ")"))))
