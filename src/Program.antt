-- ===== src/Program.antt =====
-- internal/logging/logging.go, internal/version/version.go and the parsing of cmd/main.go: what the
-- operator makes of its flags and of its build.
pub mod Laws
use netbird_operator.Prelude.{
  ℕ, ◌+◌, ◌-◌, Bool, true, false, ◌&&◌, ◌||◌, Option, none, some, List, [], ◌∷◌, ltb, ◌==◌, Str,
  bytes, is_empty, str_eq, find, ◌++◌, if◌then◌else◌,
}
use Prim.Native.Nat.{◌%◌}
use netbird_operator.Runtime.{Error, Result, ok, err, message}
use netbird_operator.Prelude.Int.{ℤ, pos, negsuc, nonneg}
use netbird_operator.LoadBalancer.Words.{to_lower, trim_space, split, trimmed_parts}

-- The levels of zapcore, by their values.
abbrev debug_level : ℤ
debug_level = negsuc 0

abbrev info_level : ℤ
info_level = pos 0

abbrev warn_level : ℤ
warn_level = pos 1

abbrev error_level : ℤ
error_level = pos 2

abbrev panic_level : ℤ
panic_level = pos 4

-- The signed byte with the given low eight bits.
abbrev signed_byte : ℕ → ℤ
signed_byte m = if ltb m 128 then pos m else negsuc (255 - m)

-- `zapcore.Level(-n)`, whose type is int8: the conversion keeps the low eight bits.
unfoldable pub level_of_verbosity : ℕ → ℤ
level_of_verbosity n = signed_byte ((256 - n % 256) % 256)

-- `options`, as far as logging.go sets it.
pub record Options : Type 0 where
  pub level : ℤ
  pub development : Bool
  pub stacktrace_level : ℤ

-- `a <= b`
abbrev pub int_leb : ℤ → ℤ → Bool
int_leb (pos a) (pos b) = ltb a (b + 1)
int_leb (pos a) (negsuc b) = false
int_leb (negsuc a) (pos b) = true
int_leb (negsuc a) (negsuc b) = ltb b (a + 1)

abbrev named_level : Str → Option ℤ
named_level level =
    if is_empty level || str_eq level (bytes "info")
    then some info_level
    else if str_eq level (bytes "debug")
    then some debug_level
    else if str_eq level (bytes "warn") || str_eq level (bytes "warning")
    then some warn_level
    else if str_eq level (bytes "error")
    then some error_level
    else none

abbrev invalid_level : Error
invalid_level = message (bytes "invalid log level")

abbrev verbosity : Option ℤ → Result ℤ
verbosity none = err invalid_level
verbosity (some (pos n)) = ok (level_of_verbosity n)
verbosity (some (negsuc n)) = err invalid_level

abbrev named_format : Str → Option Bool
named_format format =
    if is_empty format || str_eq format (bytes "json")
    then some false
    else if str_eq format (bytes "console")
    then some true
    else none

-- `atoi` is `strconv.Atoi`.
module _ (atoi : Str → Option ℤ) where
  -- `parseLevel`; the message of the error leaves out the text that it quotes.
  unfoldable parse_level : Str → Result ℤ
  unfolding level_of_verbosity
  parse_level level = elim (named_level (to_lower (trim_space level))) [
    | some lvl ↦ ok lvl
    | none ↦ verbosity (atoi (trim_space level))
  ]

  abbrev with_format : ℤ → Option Bool → Result Options
  with_format lvl none = err (message (bytes "invalid log format"))
  with_format lvl (some development) = ok (record {
    level = lvl;
    development = development;
    stacktrace_level = if int_leb lvl debug_level then error_level else panic_level;
  })

  abbrev with_level : Result ℤ → Str → Result Options
  with_level (err e) format = err e
  with_level (ok lvl) format = with_format lvl (named_format (to_lower (trim_space format)))

  -- `Options`
  unfoldable pub options : Str → Str → Result Options
  unfolding parse_level
  options level format = with_level (parse_level level) format

-- `splitGroups`
unfoldable pub split_groups : Str → List Str
split_groups s = trimmed_parts (split b',' s)

-- What `debug.ReadBuildInfo` returns, by what the code reads: the settings, in order, and the version
-- of the main module.
pub record BuildInfo : Type 0 where
  pub settings : List (Str × Str)
  pub main_version : Str

-- The setting `vcs.modified` is not "false"; a missing one counts as modified.
abbrev is_modified : Option (Str × Str) → Bool
is_modified none = true
is_modified (some (key, value)) = if str_eq value (bytes "false") then false else true

-- `BuildVersion`
unfoldable build_version : Option BuildInfo → Str
build_version none = bytes "unknown"
build_version (some bi) =
    if is_modified (find (λ (key, value). str_eq key (bytes "vcs.modified")) bi.settings)
      || is_empty bi.main_version
    then bytes "devel"
    else bi.main_version

-- A file is read, is missing, or cannot be read.
pub data FileRead : Type 0 where
  content : Str → FileRead
  missing : FileRead
  failed : Error → FileRead

abbrev wrap : Error → (Error → Str) → Error
wrap e text = message (bytes "error reading namespace file: " ++ text e)

-- `getRuntimeNamespace`, on what reading the namespace file of the pod gives.
unfoldable get_runtime_namespace : (Error → Str) → Str → FileRead → Result Str
get_runtime_namespace error_string (a ∷ ns) file = ok (a ∷ ns)
get_runtime_namespace error_string [] (content ns) = ok ns
get_runtime_namespace error_string [] missing =
    err (message (bytes "not running in-cluster, runtime namespace needs to be set"))
get_runtime_namespace error_string [] (failed e) = err (wrap e error_string)
