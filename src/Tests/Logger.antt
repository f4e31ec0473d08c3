-- ===== src/Tests/Logger.antt =====
-- A Logger, its LogWriter and threads around them.
use cogutil.Base.{
  ℕ, Bool, true, false, List, [], ◌∷◌, ◌++◌, some, length, ◌≡◌, ◌≢◌, ◌↔◌, refl, ◌≤◌, map, subst,
}
use cogutil.Config.Strings.{Text, same_text, same_text_eq, same_text_refl}
use cogutil.Concurrent.Queue
use cogutil.Logger
use cogutil.Logger.Levels.{Level, tolower, IgnoresCase, IsNameOf}
use cogutil.Logger.Levels
use cogutil.Logger.Writer.{Place, Disk, Event, System, run}
use cogutil.Logger.Writer
use cogutil.Logger.Taken.{in_hand, accepted}
use cogutil.Logger.Messages.{started}
use cogutil.Logger.Messages
use cogutil.Logger.Taken
use cogutil.Logger.Flushes
use cogutil.Logger.Errors
use cogutil.Logger.Moves.{Within, on_the_way}
use cogutil.Logger.Progress
use cogutil.Logger.Files

logger_program : Unit {0}
unfolding Logger.create Logger.log Logger.logged Logger.message Logger.is_enabled Levels.value
    Levels.entry Levels.get_level_string Levels.of_value Levels.level_loop
    Levels.get_level_from_string Levels.c_str Writer.run Writer.fire Writer.act Writer.writer_step
    Writer.from_place Writer.write_msg Writer.fresh Taken.accepted Taken.accepted_by Queue.create
    Queue.push Queue.pop Queue.take_front Queue.size Queue.is_empty Queue.cancel Files.at_name
    Files.set_filename Files.get_filename Logger.enable same_text
logger_program = tt

abbrev caseless : Text → Text → Bool
caseless s t = same_text (map tolower s) (map tolower t)

caseless-IgnoresCase : IgnoresCase caseless
caseless-IgnoresCase s t clean clean' = (
  same_text_eq (map tolower s) (map tolower t),
  λ e. subst (λ (u : Text). same_text (map tolower s) u ≡ true) e (same_text_refl (map tolower s)),
)

abbrev warned : Text
warned = b'w' ∷ b'A' ∷ b'r' ∷ b'n' ∷ []

warn_is_good : Level.warn ≢ Level.bad_level
warn_is_good e = cc

get_level_from_string_lem_example :
    (Levels.get_level_from_string caseless warned ≡ Level.warn)
    ↔ IsNameOf (Levels.c_str warned) Level.warn
get_level_from_string_lem_example =
    Levels.get_level_from_string_lem caseless caseless-IgnoresCase Level.warn warned warn_is_good

-- A byte 0 ends the name.
cut_name : Levels.get_level_from_string caseless (warned ++ 0 ∷ b'x' ∷ []) ≡ Level.warn
unfolding logger_program
cut_name = refl

abbrev around : Logger.Around
around = record { timestamp = 1 ∷ []; thread_id = 2 ∷ []; backtrace = 3 ∷ [] }

abbrev plain : Logger.Logger
plain = Logger.create Level.info false (some 0)

-- The message of an error with the text `7`.
abbrev line : Text
line = b'[' ∷ b'E' ∷ b'R' ∷ b'R' ∷ b'O' ∷ b'R' ∷ b']' ∷ b' ' ∷ 7 ∷ b'\n' ∷ 3 ∷ []

abbrev disk : ℕ → Event
disk n = Event.writer_moves (record { opens = true; rc = some n; flushes = true })

abbrev other : Text
other = 9 ∷ []

-- Another message is queued and written, and then the error; the thread that logs is through.
abbrev error_logged : List Event
error_logged =
    Event.others_queue other
    ∷ Event.acts
    ∷ Event.acts
    ∷ disk 1
    ∷ disk 1
    ∷ disk 1
    ∷ disk 1
    ∷ disk 11
    ∷ Event.acts
    ∷ Event.acts
    ∷ []

abbrev error_actions : List Logger.Action
unfolding logger_program
error_actions = Logger.log around Level.error (7 ∷ []) plain

through : (run error_logged (started error_actions)).actions ≡ []
unfolding logger_program
through = refl

-- The flush passes while the thread of the LogWriter has the message, before pending_write is set.
passes_early :
    ((run error_logged (started error_actions)).writer.file ≡ other ∷ [])
    × ((run error_logged (started error_actions)).writer.place ≡ Place.took line)
unfolding logger_program
passes_early = (refl, refl)

log_lem_example : Within line (on_the_way (run error_logged (started error_actions)).writer)
unfolding logger_program
log_lem_example =
    Errors.log_lem error_logged around Level.error (7 ∷ []) plain 0 refl refl refl refl refl refl

messages_lem_example :
    ((other ∷ []) ++ ((line ∷ []) ++ []) ≡ accepted error_logged (started error_actions))
    × (length (in_hand (Place.took line)) ≤ 1)
unfolding logger_program
messages_lem_example = Messages.messages_lem error_logged error_actions

-- The message is queued, the flush passes its first test, and the thread takes the message.
abbrev queued_first : List Event
queued_first = Event.acts ∷ Event.acts ∷ []

abbrev taken_then : List Event
taken_then = disk 11 ∷ []

flush_lem_example :
    ([] ++ ([] ++ (line ∷ [])) ≡ accepted queued_first (started error_actions))
    × ([] ++ (line ∷ [])
        ≡ accepted queued_first (started error_actions)
          ++ accepted (Event.acts ∷ taken_then) (run queued_first (started error_actions)))
    × (length (in_hand (Place.took line)) ≤ 1)
unfolding logger_program
flush_lem_example =
    Flushes.flush_lem queued_first taken_then error_actions [] refl refl refl refl refl

-- Two messages, and a thread that flushes.
abbrev two_queued : System
two_queued =
    run (Event.others_queue other ∷ Event.others_queue line ∷ [])
      (started (Logger.Action.flush ∷ []))

flush_returns_example :
    ((run (Progress.turns (other ∷ line ∷ []) ++ (Event.acts ∷ Event.acts ∷ [])) two_queued).actions
      ≡ [])
    × ((run
          (Progress.turns (other ∷ line ∷ []) ++ (Event.acts ∷ Event.acts ∷ []))
          two_queued).writer.file
        ≡ other ∷ line ∷ [])
unfolding logger_program
flush_returns_example = Progress.flush_returns two_queued [] refl refl refl refl

abbrev no_files : Files.Registry
no_files = record { loggers = []; names = [] }

abbrev two_files : Files.Registry × Logger.Logger
two_files = Files.set_filename line (Files.set_filename other no_files plain).0 plain

set_filename_lem_example :
    Files.OnePerFile two_files.0
    × (Files.get_filename two_files.0 (Files.set_filename other no_files plain).1 ≡ other)
    × (Files.get_filename two_files.0 two_files.1 ≡ line)
    × (((Files.set_filename other no_files plain).1.log_writer ≡ two_files.1.log_writer)
        ↔ (other ≡ line))
set_filename_lem_example =
    Files.set_filename_lem no_files other line plain plain Files.no_files-OnePerFile
