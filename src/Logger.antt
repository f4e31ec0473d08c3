-- ===== src/Logger.antt =====
-- opencog/util/Logger.h and Logger.cc: a Logger, and the calls that it makes of its LogWriter. The
-- clock, the thread's name, the trace of the stack and what `vsnprintf` prints are arguments.
pub mod Levels
pub mod Writer
pub mod Taken
pub mod Messages
pub mod Pending
pub mod Flushes
pub mod Progress
pub mod Moves
pub mod Errors
pub mod Files
use cogutil.Base.{
  ℕ, Bool, true, false, not, List, [], ◌∷◌, ◌++◌, Option, none, some, if◌then◌else◌, is_nil, leb,
}
use cogutil.Config.Strings.{Text}
use cogutil.Logger.Levels.{Level, value, get_level_string}

pub record Logger : Type 0 where
  pub component : Text
  pub current_level : Level
  pub back_trace_level : Level
  pub timestamp_enabled : Bool
  pub thread_id_enabled : Bool
  pub log_enabled : Bool
  pub print_to_stdout : Bool
  pub print_level : Bool
  pub sync_enabled : Bool
  -- The pointer: none is `nullptr`, and a number tells which LogWriter it is.
  pub log_writer : Option ℕ

-- What a message takes from around the call: `[time] `, `[thread-...] ` and the trace.
pub record Around : Type 0 where
  pub timestamp : Text
  pub thread_id : Text
  pub backtrace : Text

-- What a call does with the LogWriter and the standard output, in order: `flush` stands at the
-- first test of the loop of LogWriter::flush, `looks` at the second.
pub data Action : Type 0 where
  qmsg : Text → Action
  flush_above : ℕ → Action
  flush looks : Action
  prints : Text → Action

-- The constructor, less `set_filename`.
unfoldable pub create : Level → Bool → Option ℕ → Logger
create level stamped writer = record {
  component = [];
  current_level = level;
  back_trace_level = Level.error;
  timestamp_enabled = stamped;
  thread_id_enabled = false;
  log_enabled = true;
  print_to_stdout = false;
  print_level = true;
  sync_enabled = false;
  log_writer = writer;
}

-- `set`, which is the copy constructor on what the memory held, and `operator=`.
unfoldable pub set : Logger → Logger → Logger
set this log = record log { log_writer = this.log_writer }

unfoldable pub set_level : Level → Logger → Logger
set_level level l = record l { current_level = level }

unfoldable pub set_backtrace_level : Level → Logger → Logger
set_backtrace_level level l = record l { back_trace_level = level }

unfoldable pub set_component : Text → Logger → Logger
set_component c l = record l { component = c }

unfoldable pub set_timestamp_flag : Bool → Logger → Logger
set_timestamp_flag flag l = record l { timestamp_enabled = flag }

unfoldable pub set_thread_id_flag : Bool → Logger → Logger
set_thread_id_flag flag l = record l { thread_id_enabled = flag }

unfoldable pub set_print_to_stdout_flag : Bool → Logger → Logger
set_print_to_stdout_flag flag l = record l { print_to_stdout = flag }

unfoldable pub set_print_level_flag : Bool → Logger → Logger
set_print_level_flag flag l = record l { print_level = flag }

unfoldable pub set_sync_flag : Bool → Logger → Logger
set_sync_flag flag l = record l { sync_enabled = flag }

unfoldable pub set_print_error_level_stdout : Logger → Logger
unfolding set_print_to_stdout_flag set_level
set_print_error_level_stdout l = set_level Level.error (set_print_to_stdout_flag true l)

unfoldable pub enable : Logger → Logger
enable l = record l { log_enabled = true }

unfoldable pub disable : Logger → Logger
disable l = record l { log_enabled = false }

unfoldable pub is_enabled : Level → Logger → Bool
unfolding value
is_enabled level l = leb (value level) (value l.current_level)

abbrev pub bracketed : Text → Text
bracketed t = b'[' ∷ (t ++ b']' ∷ b' ' ∷ [])

abbrev pub shown : Option Text → Text
shown none = []
shown (some t) = t

abbrev pub traces : Level → Logger → Bool
traces level l = leb (value level) (value l.back_trace_level)

-- What `oss` holds in the end.
unfoldable pub message : Around → Level → Text → Logger → Text
unfolding value get_level_string
message a level txt l =
    (if l.timestamp_enabled then a.timestamp else [])
    ++ ((if l.print_level then bracketed (shown (get_level_string level)) else [])
        ++ ((if is_nil l.component then [] else bracketed l.component)
            ++ ((if l.thread_id_enabled then a.thread_id else [])
                ++ (txt ++ (b'\n' ∷ (if traces level l then a.backtrace else []))))))

abbrev max_queue_size_allowed : ℕ
max_queue_size_allowed = 1024

abbrev given_writer : Option ℕ → List Action → List Action
given_writer none acts = []
given_writer (some w) acts = acts

-- What is done once the guards are passed.
unfoldable pub logged : Text → Level → Logger → List Action
unfolding value
logged m level l =
    Action.qmsg m
    ∷ Action.flush_above max_queue_size_allowed
    ∷ ((if traces level l then Action.flush ∷ [] else [])
        ++ ((if l.sync_enabled then Action.flush ∷ [] else [])
            ++ (if l.print_to_stdout then Action.prints m ∷ [] else [])))

unfoldable pub log : Around → Level → Text → Logger → List Action
unfolding is_enabled message logged
log a level txt l =
    if not l.log_enabled
    then []
    else if not (is_enabled level l)
    then []
    else given_writer l.log_writer (logged (message a level txt l) level l)

unfoldable pub backtrace : Around → Logger → List Action
backtrace a l =
    given_writer l.log_writer
      (Action.qmsg a.backtrace ∷ Action.flush_above max_queue_size_allowed ∷ [])

-- `buffer` is what `vsnprintf` has printed.
unfoldable pub logva : Around → Level → Text → Logger → List Action
unfolding log is_enabled
logva a level buffer l = if is_enabled level l then log a level buffer l else []

-- The destructor of the stream that `operator()()` gives, with what was put into the stream.
unfoldable pub stream_ends : Around → Level → Text → Logger → List Action
unfolding log
stream_ends a level ss l = if is_nil ss then [] else log a level ss l

-- `operator()` of the members error, warn, info, debug and fine, with a format.
unfoldable pub error : Around → Text → Logger → List Action
unfolding logva
error a buffer l = logva a Level.error buffer l

unfoldable pub warn : Around → Text → Logger → List Action
unfolding logva
warn a buffer l = logva a Level.warn buffer l

unfoldable pub info : Around → Text → Logger → List Action
unfolding logva
info a buffer l = logva a Level.info buffer l

unfoldable pub debug : Around → Text → Logger → List Action
unfolding logva
debug a buffer l = logva a Level.debug buffer l

unfoldable pub fine : Around → Text → Logger → List Action
unfolding logva
fine a buffer l = logva a Level.fine buffer l
