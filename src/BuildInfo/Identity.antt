-- ===== src/BuildInfo/Identity.antt =====
-- `Resolve` of buildinfo.go: what an identity that it returns is made of.
use paraflow.Prelude.{
  ◌≡◌, ◌≢◌, ◌⊎◌, inl, inr, refl, ◌||◌, Option, none, some, List, [], ◌∷◌, ◌++◌, ℕ, ap, ◌∙◌, arith,
  Bool-cases, All, if◌then◌else◌,
}
use paraflow.Prelude.Text.{Bytes, codes, bytes_eq, bytes_eq_iff, bytes_eq_refl, is_empty}
use paraflow.BuildInfo.{
  Info, Settings, setting, fill, normalize, resolve_settings, resolve, info_text, source_clean,
  source_dirty, source_unknown,
}

abbrev pub IsState : Bytes → Type 0
IsState s = (s ≡ source_clean) ⊎ ((s ≡ source_dirty) ⊎ (s ≡ source_unknown))

-- An identity with no empty field and a source state of the closed set.
pub record IsIdentity (info : Info) : Type 0 where
  pub versioned : info.version ≢ []
  pub committed : info.full_commit ≢ []
  pub state : IsState info.source_state

filled : (s d : Bytes) → d ≢ [] → (if is_empty s then d else s) ≢ []
filled [] d h = h
filled (c ∷ s) d h = cc

kept-IsState :
    (s : Bytes)
    → IsState (if bytes_eq s source_clean || bytes_eq s source_dirty then s else source_unknown)
kept-IsState s = elim (Bool-cases (bytes_eq s source_clean)) [
  | inl e ↦ rw e (inl ((bytes_eq_iff s source_clean).0 e))
  | inr e ↦ elim (Bool-cases (bytes_eq s source_dirty)) [
    | inl f ↦ rw (e, f) (inr (inl ((bytes_eq_iff s source_dirty).0 f)))
    | inr f ↦ rw (e, f) (inr (inr refl))
  ]
]

normalize-IsIdentity : (info : Info) → IsIdentity (normalize info)
unfolding normalize
normalize-IsIdentity info = record {
  versioned = filled info.version _ (λ e. cc);
  committed = filled info.full_commit _ (λ e. cc);
  state = kept-IsState info.source_state;
}

full : (s d : Bytes) → s ≢ [] → (if is_empty s then d else s) ≡ s
full [] d h = absurd (h refl)
full (c ∷ s) d h = refl

same_state :
    (s : Bytes)
    → IsState s
    → (if bytes_eq s source_clean || bytes_eq s source_dirty then s else source_unknown) ≡ s
unfolding bytes_eq
same_state s (inl e) = rw e
same_state s (inr (inl e)) = rw e
same_state s (inr (inr e)) = rw e

normalize-eq : (info : Info) → IsIdentity info → normalize info ≡ info
unfolding normalize
normalize-eq info h = rw (
  full info.version (codes "dev") h.versioned,
  full info.full_commit (codes "unknown") h.committed,
  same_state info.source_state h.state,
)

state_of : (m t : Bytes) → Bytes
state_of m t =
    if bytes_eq m (codes "true")
    then source_dirty
    else if bytes_eq m (codes "false")
    then source_clean
    else t

state_of-IsState : (m t : Bytes) → IsState t → IsState (state_of m t)
unfolding state_of
state_of-IsState m t h = elim (Bool-cases (bytes_eq m (codes "true"))) [
  | inl e ↦ rw e (inr (inl refl))
  | inr e ↦ elim (Bool-cases (bytes_eq m (codes "false"))) [
    | inl f ↦ rw (e, f) (inl refl)
    | inr f ↦ rw (e, f) h
  ]
]

state_of-again : (m t : Bytes) → state_of m (state_of m t) ≡ state_of m t
unfolding state_of
state_of-again m t = ground arith

filled-again :
    (r c : Bytes)
    → (if is_empty r then (if is_empty r then c else r) else r) ≡ (if is_empty r then c else r)
filled-again [] c = refl
filled-again (x ∷ r) c = refl

resolve_settings-IsIdentity : (info : Info) (s : Settings) → IsIdentity (resolve_settings info s)
unfolding resolve_settings state_of
resolve_settings-IsIdentity info s =
    let n = normalize-IsIdentity info in
    record {
      versioned = n.versioned;
      committed =
          filled (setting s (codes "vcs.revision")) (normalize info).full_commit n.committed;
      state =
          state_of-IsState (setting s (codes "vcs.modified")) (normalize info).source_state n.state;
    }

resolve_settings-again :
    (info : Info) (s : Settings)
    → resolve_settings (resolve_settings info s) s ≡ resolve_settings info s
unfolding resolve_settings state_of
resolve_settings-again info s = rw (normalize-eq _ (resolve_settings-IsIdentity info s)) (
    rw (
      filled-again (setting s (codes "vcs.revision")) (normalize info).full_commit,
      state_of-again (setting s (codes "vcs.modified")) (normalize info).source_state,
    ))

-- No entry of the metadata has this key.
abbrev pub Lacks : Bytes → List (Bytes × Bytes) → Type 0
Lacks key entries = All (λ e. e.0 ≢ key) entries

-- The metadata gives this key this value: a later entry replaces an earlier one.
pub record Gives (key value : Bytes) (entries : List (Bytes × Bytes)) : Type 0 where
  pub before : List (Bytes × Bytes)
  pub after : List (Bytes × Bytes)
  pub split : entries ≡ before ++ (key, value) ∷ after
  pub last : Lacks key after

setting-fill :
    (s : Settings) (entries : List (Bytes × Bytes)) (key : Bytes)
    → Lacks key entries
    → setting (fill s entries) key ≡ setting s key
unfolding fill setting
setting-fill s [] key h = refl
setting-fill s ((k, v) ∷ entries) key (differs, h) = elim (Bool-cases (bytes_eq k key)) [
  | inl same ↦ absurd (differs ((bytes_eq_iff k key).0 same))
  | inr e ↦ setting-fill ((k, v) ∷ s) entries key h ∙ rw e refl
]

setting-split :
    (s : Settings) (before after : List (Bytes × Bytes)) (key value : Bytes)
    → Lacks key after
    → setting (fill s (before ++ (key, value) ∷ after)) key ≡ value
unfolding fill setting
setting-split s [] after key value h =
    setting-fill ((key, value) ∷ s) after key h ∙ rw (bytes_eq_refl key) refl
setting-split s (e ∷ before) after key value h = setting-split (e ∷ s) before after key value h

setting-Gives :
    (key value : Bytes) (entries : List (Bytes × Bytes))
    → Gives key value entries
    → setting (fill [] entries) key ≡ value
setting-Gives key value entries g =
    ap (λ es. setting (fill [] es) key) g.split ∙ setting-split [] g.before g.after key value g.last

-- No metadata has no entries.
abbrev pub metadata_of : Option (List (Bytes × Bytes)) → List (Bytes × Bytes)
metadata_of none = []
metadata_of (some entries) = entries

-- What the metadata says of the commit and of the source state.
pub record Follows (entries : List (Bytes × Bytes)) (linked info : Info) : Type 0 where
  pub commit :
      (c : ℕ) (revision : Bytes)
      → Gives (codes "vcs.revision") (c ∷ revision) entries
      → info.full_commit ≡ c ∷ revision
  pub modified :
      Gives (codes "vcs.modified") (codes "true") entries → info.source_state ≡ source_dirty
  pub unmodified :
      Gives (codes "vcs.modified") (codes "false") entries → info.source_state ≡ source_clean
  pub kept :
      Lacks (codes "vcs.revision") entries
      → Lacks (codes "vcs.modified") entries
      → info ≡ normalize linked

resolve_settings-Follows :
    (linked : Info) (entries : List (Bytes × Bytes))
    → Follows entries linked (resolve_settings linked (fill [] entries))
unfolding resolve_settings bytes_eq setting
resolve_settings-Follows linked entries = record {
  commit = λ c revision g. rw (setting-Gives _ _ entries g) refl;
  modified = λ g. rw (setting-Gives _ _ entries g) refl;
  unmodified = λ g. rw (setting-Gives _ _ entries g) refl;
  kept = λ r m.
      let a : setting (fill [] entries) (codes "vcs.revision") ≡ [] = setting-fill [] entries _ r in
      let b : setting (fill [] entries) (codes "vcs.modified") ≡ [] = setting-fill [] entries _ m in
      rw (a, b) refl;
}

-- `Resolve` returns an identity with a version, a commit and one of the three source states, whatever
-- was linked and whatever the build metadata holds; resolving it again changes nothing, and `String`
-- prints its fields as they are. Where the last revision of the metadata is not empty, it is the commit;
-- where the last `vcs.modified` is `true` or `false`, the source is dirty or clean; without entries of
-- the two keys the identity is the linked one with its empty fields filled.
pub resolve-IsIdentity :
    (entries : Option (List (Bytes × Bytes))) (linked : Info)
    → IsIdentity (resolve entries linked)
      × (resolve entries (resolve entries linked) ≡ resolve entries linked)
      × (info_text (resolve entries linked)
          ≡ (resolve entries linked).version
            ++ (codes " (commit "
                ++ ((resolve entries linked).full_commit
                    ++ (codes ", source "
                        ++ ((resolve entries linked).source_state ++ codes ")")))))
      × Follows (metadata_of entries) linked (resolve entries linked)
unfolding resolve info_text
resolve-IsIdentity none linked = (
  resolve_settings-IsIdentity linked [],
  resolve_settings-again linked [],
  rw (normalize-eq _ (resolve_settings-IsIdentity linked [])),
  unfold fill in resolve_settings-Follows linked [],
)
resolve-IsIdentity (some entries) linked = (
  resolve_settings-IsIdentity linked (fill [] entries),
  resolve_settings-again linked (fill [] entries),
  rw (normalize-eq _ (resolve_settings-IsIdentity linked (fill [] entries))),
  resolve_settings-Follows linked entries,
)
