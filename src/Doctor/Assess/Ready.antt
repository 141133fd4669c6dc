-- ===== src/Doctor/Assess/Ready.antt =====
-- `commandProbe` and `Check`: the results of a report, and when the host is ready.
use paraflow.Prelude.{
  ◌≡◌, refl, ap, ◌∙◌, Bool, true, false, not, ◌&&◌, ◌||◌, List, [], ◌∷◌, map, all, if◌then◌else◌,
  arith, length, length-map,
}
use paraflow.Prelude.Text.{Bytes}
use paraflow.Prelude.Outcome.{Outcome, ok, err, panic}
use paraflow.BuildInfo.{Info}
use paraflow.Doctor.{Tool, ToolResult}
use paraflow.Doctor.Tools.{tools}
use paraflow.Doctor.Version.{version_line}
use paraflow.Doctor.Assess.{
  blank_result, ended_result, blamed, assess, System, command_probe, Host, check_loop, check,
}
use paraflow.Doctor.Assess.Usable.{assess-again}

regroup :
    (required usable ready later : Bool)
    → ((if required && not usable then false else ready) && later)
      ≡ (ready && (if not required || usable then later else false))
regroup required usable ready later = ground arith

module _ (quote : Bytes → Bytes) where
  check_loop-eq :
      (probe : Tool → ToolResult) (ready : Bool) (ts : List Tool)
      → check_loop quote probe ready ts ≡ (
        map (λ t. assess quote t (probe t)) ts,
        ready && all (λ t. not t.required || (assess quote t (probe t)).usable) ts,
      )
  unfolding check_loop
  check_loop-eq probe true [] = refl
  check_loop-eq probe false [] = refl
  check_loop-eq probe ready (t ∷ ts) = rw (
    check_loop-eq probe
        (if t.required && not (assess quote t (probe t)).usable then false else ready) ts,
    regroup t.required (assess quote t (probe t)).usable ready
        (all (λ t. not t.required || (assess quote t (probe t)).usable) ts),
  )

  blank-again : (tool : Tool) → assess quote tool (blank_result tool) ≡ blank_result tool
  unfolding assess
  blank-again tool = refl

  command_probe-again :
      (system : System) (tool : Tool)
      → assess quote tool (command_probe quote system tool) ≡ command_probe quote system tool
  unfolding command_probe
  command_probe-again system tool =
      elim (system.look_path tool.command)
        as (λ found. assess quote tool (launched found) ≡ launched found) [
          | err why ↦ assess-again quote tool (blamed (blank_result tool) why)
          | panic ↦ blank-again tool
          | ok path ↦ assess-again quote tool _
        ]
    where
      launched : Outcome Bytes Bytes → ToolResult
      launched (err why) = assess quote tool (blamed (blank_result tool) why)
      launched panic = blank_result tool
      launched (ok path) = assess quote tool (
          ended_result system.timeout (version_line (system.run_version path tool.version_args).0)
            (system.run_version path tool.version_args).1
            (record (blank_result tool) { found = true; path = path }))

  map-again :
      (system : System) (ts : List Tool)
      → map (λ t. assess quote t (command_probe quote system t)) ts
        ≡ map (command_probe quote system) ts
  map-again system [] = refl
  map-again system (t ∷ ts) = rw (command_probe-again system t, map-again system ts)

  all-again :
      (system : System) (ts : List Tool)
      → all (λ t. not t.required || (assess quote t (command_probe quote system t)).usable) ts
        ≡ all (λ t. not t.required || (command_probe quote system t).usable) ts
  all-again system [] = refl
  all-again system (t ∷ ts) = rw (command_probe-again system t, all-again system ts)

  -- A report of `Check` over `CommandProbe` holds the probe's result of each of the 14 tools, in
  -- order, and is ready exactly where every required tool is usable.
  pub check-ready :
      (host : Host) (system : System) (source : Info)
      → ((check quote host (command_probe quote system) source).tools
          ≡ map (command_probe quote system) tools)
        × ((check quote host (command_probe quote system) source).ready
            ≡ all (λ t. not t.required || (command_probe quote system t).usable) tools)
  unfolding check
  check-ready host system source =
      let e = check_loop-eq (command_probe quote system) true tools in
      (ap (λ p. p.0) e ∙ map-again system tools, ap (λ p. p.1) e ∙ all-again system tools)

  -- A report holds a result of each of the 14 tools, whatever the probe.
  pub length-check :
      (host : Host) (probe : Tool → ToolResult) (source : Info)
      → length (check quote host probe source).tools ≡ 14
  unfolding check tools
  length-check host probe source =
      ap (λ p. length p.0) (check_loop-eq probe true tools)
      ∙ length-map (λ t. assess quote t (probe t)) tools
