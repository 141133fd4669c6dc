-- ===== src/Doctor/Report.antt =====
-- `Report.String` of labctl-go/internal/doctor/doctor.go.
use paraflow.Prelude.{List, [], ◌∷◌, ◌++◌, if◌then◌else◌}
use paraflow.Prelude.Text.{Bytes, codes, is_empty}
use paraflow.Prelude.Strings.{decimal, pad_right, bool_text}
use paraflow.BuildInfo.{info_text}
use paraflow.Doctor.{ToolResult, EnvironmentReport}

pub newline : Bytes
newline = b'\n' ∷ []

pub status_text : ToolResult → Bytes
status_text tool =
    if tool.usable then codes "ok" else if tool.found then codes "broken" else codes "missing"

pub tool_line : ToolResult → Bytes
unfolding newline status_text
tool_line tool =
    codes "["
    ++ (status_text tool
        ++ (codes "] "
            ++ (pad_right 7 tool.name
                ++ (codes " "
                    ++ (pad_right 8 (if tool.required then codes "required" else codes "planned")
                        ++ (codes " "
                            ++ (pad_right 7 tool.introduced
                                ++ (codes " "
                                    ++ ((if is_empty tool.version
                                          then tool.problem
                                          else tool.version)
                                        ++ newline)))))))))

pub tool_lines : List ToolResult → Bytes
unfolding tool_line
tool_lines [] = []
tool_lines (tool ∷ rest) = tool_line tool ++ tool_lines rest

unfoldable pub joined : List Bytes → Bytes
joined [] = []
joined (s ∷ rest) = s ++ joined rest

unfoldable pub report_text : EnvironmentReport → Bytes
unfolding tool_lines joined
report_text report = joined (
    codes "ParaFlow environment"
    ∷ newline
    ∷ codes "OS/arch: "
    ∷ report.os
    ∷ codes "/"
    ∷ report.architecture
    ∷ newline
    ∷ codes "Physical/logical CPUs: "
    ∷ decimal report.physical_cores
    ∷ codes "/"
    ∷ decimal report.logical_cpus
    ∷ newline
    ∷ codes "Go runtime: "
    ∷ report.go_version
    ∷ newline
    ∷ newline
    ∷ codes "Captured: "
    ∷ report.captured_at
    ∷ newline
    ∷ codes "Kernel: "
    ∷ report.kernel_version
    ∷ newline
    ∷ codes "CPU: "
    ∷ report.cpu_model
    ∷ newline
    ∷ codes "GOMAXPROCS: "
    ∷ decimal report.go_max_procs
    ∷ newline
    ∷ codes "Source: "
    ∷ info_text report.source
    ∷ newline
    ∷ newline
    ∷ tool_lines report.tools
    ∷ newline
    ∷ codes "Ready for current milestone ("
    ∷ report.milestone
    ∷ codes "): "
    ∷ bool_text report.ready
    ∷ [])
