-- ===== src/Doctor/Platform.antt =====
-- labctl-go/internal/doctor/platform.go: the kernel, the processor and its cores. A reader of the
-- system is a parameter: `runtime.GOOS`, `os.ReadFile` and the reads of an opened file (`none` is an
-- error), a run of a command and `os.Getenv`.
use paraflow.Prelude.{
  ℕ, zero, suc, Bool, false, not, ◌&&◌, ◌||◌, Option, none, some, List, [], ◌∷◌, ◌++◌, ltb, ◌==◌,
  if◌then◌else◌, length, all, drop_last,
}
use paraflow.Prelude.Text.{Bytes, codes, is_empty, bytes_eq, ends_with}
use paraflow.Prelude.Strings.{trim_space, cut, split, is_digit, atoi}
use paraflow.Doctor.Version.{first_line}
use paraflow.Doctor.Assess.{Host}

abbrev pub unavailable_platform_value : Bytes
unavailable_platform_value = codes "unknown"

pub record Kernel : Type 0 where
  pub goos : Bytes
  pub read_file : Bytes → Option Bytes
  -- The combined output of a command within its second.
  pub run_command : Bytes → List Bytes → Option Bytes
  pub getenv : Bytes → Bytes

-- The token limit of `bufio.Scanner`.
abbrev pub max_token : ℕ
max_token = 65536

abbrev pub without_return : Bytes → Bytes
without_return line = if ends_with b'\r' line then drop_last line else line

-- The lines that a `bufio.Scanner` returns: it stops at one that is too long, and an empty last line
-- is none.
pub scanned : List Bytes → List Bytes
scanned [] = []
scanned ([] ∷ []) = []
scanned (line ∷ lines) =
    let rest = scanned lines in
    if ltb (length line) max_token then without_return line ∷ rest else []

pub scan_lines : Bytes → List Bytes
unfolding scanned
scan_lines input = scanned (split b'\n' input)

-- `readTrimmedFile`.
pub read_trimmed_file : Kernel → Bytes → Bytes
read_trimmed_file kernel path = elim (kernel.read_file path) [
  | none ↦ []
  | some contents ↦ trim_space contents
]

-- `platformCommand`.
pub platform_command : Kernel → Bytes → List Bytes → Bytes
platform_command kernel command args = elim (kernel.run_command command args) [
  | none ↦ unavailable_platform_value
  | some output ↦
      if is_empty (first_line output) then unavailable_platform_value else first_line output
]

-- `captureKernelVersion`.
unfoldable pub capture_kernel_version : Kernel → Bytes
unfolding read_trimmed_file platform_command
capture_kernel_version kernel =
    let release = read_trimmed_file kernel (codes "/proc/sys/kernel/osrelease") in
    if bytes_eq kernel.goos (codes "linux") && not (is_empty release)
    then release
    else if bytes_eq kernel.goos (codes "darwin")
        || (bytes_eq kernel.goos (codes "freebsd")
            || (bytes_eq kernel.goos (codes "openbsd") || bytes_eq kernel.goos (codes "netbsd")))
    then platform_command kernel (codes "uname") (codes "-r" ∷ [])
    else if bytes_eq kernel.goos (codes "windows")
    then platform_command kernel (codes "cmd") (codes "/c" ∷ codes "ver" ∷ [])
    else unavailable_platform_value

-- The state of the loop of `linuxPhysicalCoreCount`: the keys of `cores`, each once, and the ids of
-- the processor that is being read.
pub record CoreScan : Type 0 where
  pub cores : List Bytes
  pub physical_id : Bytes
  pub core_id : Bytes

pub member : Bytes → List Bytes → Bool
member key [] = false
member key (other ∷ others) = bytes_eq key other || member key others

-- `commit`.
pub commit : CoreScan → CoreScan
unfolding member
commit state =
    let key = state.physical_id ++ (b':' ∷ state.core_id) in
    record {
      cores =
          if not (is_empty state.physical_id) && not (is_empty state.core_id)
          then (if member key state.cores then state.cores else key ∷ state.cores)
          else state.cores;
      physical_id = [];
      core_id = [];
    }

-- One turn of the loop.
pub core_line : CoreScan → Bytes → CoreScan
unfolding commit
core_line state line = if is_empty (trim_space line) then commit state else elim (cut b':' line) [
  | none ↦ state
  | some (key, value) ↦
      if bytes_eq (trim_space key) (codes "physical id")
      then record state { physical_id = trim_space value }
      else if bytes_eq (trim_space key) (codes "core id")
      then record state { core_id = trim_space value }
      else state
]

pub core_lines : CoreScan → List Bytes → CoreScan
unfolding core_line
core_lines state [] = commit state
core_lines state (line ∷ lines) = core_lines (core_line state line) lines

-- `linuxPhysicalCoreCount`.
unfoldable pub linux_physical_core_count : Bytes → ℕ
unfolding core_lines scan_lines
linux_physical_core_count input =
    length
      (core_lines (record { cores = []; physical_id = []; core_id = [] }) (scan_lines input)).cores

-- `strconv.Atoi` where it gives a number above 0: a sign may stand before the digits.
pub positive_number : Bytes → Option ℕ
positive_number [] = none
positive_number (c ∷ s) =
    let digits = if c == b'+' then s else c ∷ s in
    if is_empty digits || not (all is_digit digits)
    then none
    else elim (atoi digits) [ none ↦ none | some zero ↦ none | some (suc n) ↦ some (suc n) ]

-- `capturePhysicalCores`.
unfoldable pub capture_physical_cores : Kernel → ℕ
unfolding linux_physical_core_count platform_command positive_number
capture_physical_cores kernel =
    let counted =
      if bytes_eq kernel.goos (codes "linux")
      then elim (kernel.read_file (codes "/proc/cpuinfo")) [
        | none ↦ 0
        | some contents ↦ linux_physical_core_count contents
      ]
      else 0 in
    if ltb 0 counted
    then counted
    else if bytes_eq kernel.goos (codes "darwin")
    then elim (positive_number (
        trim_space
          (platform_command kernel (codes "sysctl") (codes "-n" ∷ codes "hw.physicalcpu" ∷ [])))) [
            | none ↦ 0
            | some n ↦ n
          ]
    else 0

-- The loop of `linuxCPUModel`.
pub model_lines : Bytes → List Bytes → Bytes
model_lines fallback [] = fallback
model_lines fallback (line ∷ lines) = elim (cut b':' line) [
  | none ↦ model_lines fallback lines
  | some (key, value) ↦
      let later = model_lines fallback lines in
      let fallen = model_lines (trim_space value) lines in
      if bytes_eq (trim_space key) (codes "model name")
      then trim_space value
      else if (bytes_eq (trim_space key) (codes "Hardware")
            || bytes_eq (trim_space key) (codes "Processor"))
          && (is_empty fallback && not (is_empty (trim_space value)))
      then fallen
      else later
]

-- `linuxCPUModel`.
pub linux_cpu_model : Kernel → Bytes
unfolding model_lines scan_lines
linux_cpu_model kernel = elim (kernel.read_file (codes "/proc/cpuinfo")) [
  | none ↦ []
  | some contents ↦ model_lines [] (scan_lines contents)
]

-- `captureCPUModel`.
unfoldable pub capture_cpu_model : Kernel → Bytes
unfolding linux_cpu_model platform_command
capture_cpu_model kernel =
    let on = bytes_eq kernel.goos in
    let model = linux_cpu_model kernel in
    let identifier = trim_space (kernel.getenv (codes "PROCESSOR_IDENTIFIER")) in
    if on (codes "linux") && not (is_empty model)
    then model
    else if on (codes "darwin")
    then platform_command kernel (codes "sysctl")
        (codes "-n" ∷ codes "machdep.cpu.brand_string" ∷ [])
    else if on (codes "freebsd")
    then platform_command kernel (codes "sysctl") (codes "-n" ∷ codes "hw.model" ∷ [])
    else if on (codes "windows") && not (is_empty identifier)
    then identifier
    else unavailable_platform_value

-- What `Check` takes from the Go runtime and the clock.
pub record Runtime : Type 0 where
  pub captured_at : Bytes
  pub architecture : Bytes
  pub logical_cpus : ℕ
  pub go_max_procs : ℕ
  pub go_version : Bytes

-- The host of a report of `Check`.
unfoldable pub read_host : Kernel → Runtime → Host
unfolding capture_kernel_version capture_cpu_model capture_physical_cores
read_host kernel runtime = record {
  captured_at = runtime.captured_at;
  os = kernel.goos;
  kernel_version = capture_kernel_version kernel;
  architecture = runtime.architecture;
  cpu_model = capture_cpu_model kernel;
  physical_cores = capture_physical_cores kernel;
  logical_cpus = runtime.logical_cpus;
  go_max_procs = runtime.go_max_procs;
  go_version = runtime.go_version;
}
