-- ===== src/Config/Logging.antt =====
-- opencog/util/Config.cc: `setup_logger`, by the calls that it makes of the logger.
use cogutil.Base.{Bool, false, List, [], ◌∷◌, ◌++◌, Option, none, some, if◌then◌else◌}
use cogutil.Config.Strings.{Text}
use cogutil.Config.{Config, Answer, has, get, get_bool}

-- What `load` asks of the system: `join` is boost's `/=` on paths, `read` opens a file that exists
-- and gives its lines, `cwd` is `getcwd`, `confdir` the build's constant and `iequals` boost's.
pub record World : Type 0 where
  pub join : Text → Text → Text
  pub read : Text → Option (List Text)
  pub cwd : Option Text
  pub confdir : Text
  pub iequals : Text → Text → Bool

-- The calls of the logger.
pub data LogCall : Type 0 where
  set_filename : Text → LogCall
  set_level : Text → LogCall
  set_backtrace_level : Text → LogCall
  set_print_to_stdout_flag : Bool → LogCall
  set_timestamp_flag : Bool → LogCall

abbrev log_file : Text
log_file = 76 ∷ 79 ∷ 71 ∷ 95 ∷ 70 ∷ 73 ∷ 76 ∷ 69 ∷ []

abbrev log_level : Text
log_level = 76 ∷ 79 ∷ 71 ∷ 95 ∷ 76 ∷ 69 ∷ 86 ∷ 69 ∷ 76 ∷ []

abbrev back_trace_log_level : Text
back_trace_log_level =
    66 ∷ 65 ∷ 67 ∷ 75 ∷ 95 ∷ 84 ∷ 82 ∷ 65 ∷ 67 ∷ 69 ∷ 95 ∷ 76 ∷ 79 ∷ 71 ∷ 95 ∷ 76 ∷ 69 ∷ 86 ∷ 69
    ∷ 76 ∷ []

abbrev log_to_stdout : Text
log_to_stdout = 76 ∷ 79 ∷ 71 ∷ 95 ∷ 84 ∷ 79 ∷ 95 ∷ 83 ∷ 84 ∷ 68 ∷ 79 ∷ 85 ∷ 84 ∷ []

abbrev log_timestamp : Text
log_timestamp = 76 ∷ 79 ∷ 71 ∷ 95 ∷ 84 ∷ 73 ∷ 77 ∷ 69 ∷ 83 ∷ 84 ∷ 65 ∷ 77 ∷ 80 ∷ []

abbrev text_call : Text → (Text → LogCall) → Config → List LogCall
text_call name act c = if has name c then act (get name [] c) ∷ [] else []

-- One `if (has(...)) logger().set_...(get_bool(...))`: the calls, and the name that was invalid.
abbrev flag_call : World → Text → (Bool → LogCall) → Config → List LogCall × Option Text
flag_call w name act c =
    if has name c
    then elim (get_bool w.iequals name false c) [
      | Answer.value b ↦ (act b ∷ [], none)
      | Answer.not_found k ↦ ([], some k)
      | Answer.invalid k ↦ ([], some k)
    ]
    else ([], none)

-- The calls of the logger, and the name of the parameter at which `get_bool` threw.
unfoldable pub setup_logger : World → Config → List LogCall × Option Text
setup_logger w c =
    let calls =
      text_call log_file LogCall.set_filename c
      ++ text_call log_level LogCall.set_level c
      ++ text_call back_trace_log_level LogCall.set_backtrace_level c in
    let stdout = flag_call w log_to_stdout LogCall.set_print_to_stdout_flag c in
    let stamp = flag_call w log_timestamp LogCall.set_timestamp_flag c in
    elim stdout.1 [
      | some k ↦ (calls ++ stdout.0, some k)
      | none ↦ (calls ++ stdout.0 ++ stamp.0, stamp.1)
    ]
