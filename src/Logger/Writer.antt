-- ===== src/Logger/Writer.antt =====
-- opencog/util/Logger.cc: the class LogWriter, its thread, one thread that uses it, and any others.
-- Each step ends before the next access to what is shared; `fopen`, `fprintf` and `fflush` answer
-- as a Disk says.
use cogutil.Base.{
  ℕ, Bool, true, false, not, ◌&&◌, List, [], ◌∷◌, ◌++◌, Option, none, some, if◌then◌else◌, length,
  ltb, ◌==◌,
}
use cogutil.Config.Strings.{Text}
use cogutil.Concurrent.Chan.{Chan, Outcome, returns, throws, waits}
use cogutil.Concurrent.Queue
use package.cogutil.Logger.{Action}

-- Where the thread of `writing_loop` stands: before `value_pop`, before `pending_write` is set,
-- before `write_msg`, before `pending_write` is reset; then at the test of the loop in the destructor
-- of OnExit, before `write_msg` there, behind it all, or in a process that has come to its end. A
-- place has the messages that were taken and are not written.
pub data Place : Type 0 where
  popping : Place
  took : Text → Place
  writes : Text → Place
  wrote : Place
  leaving : List Text → Place
  exit_writes : Text → Place
  ended : List Text → Place
  died : Text → Place

-- `file` has the messages that `write_msg` has written, and `is_open` is `logfile != NULL`.
pub record LogWriter : Type 0 where
  pub msg_queue : Chan Text
  pub pending_write : Bool
  pub is_open : Bool
  pub file : List Text
  pub place : Place

-- What the calls of the system answer: `rc` is none where it is negative.
pub record Disk : Type 0 where
  pub opens : Bool
  pub rc : Option ℕ
  pub flushes : Bool

pub data Written : Type 0 where
  done : Written
  stops_loop : Written
  exits : Written

abbrev pub has_size : Text → Option ℕ → Bool
has_size m none = false
has_size m (some n) = length m == n

unfoldable pub write_msg : Disk → Bool → Text → Written
write_msg d is_open m =
    if not is_open && not d.opens
    then Written.stops_loop
    else if not (has_size m d.rc)
    then Written.exits
    else if not d.flushes
    then Written.exits
    else Written.done

abbrev pub popped : Outcome Text (Option Text) → (Text → Place) → Place → LogWriter → LogWriter
popped (returns (some m) c s) next stop w = record w { msg_queue = c; place = next m }
popped (returns none c s) next stop w = record w { msg_queue = c }
popped throws next stop w = record w { pending_write = false; place = stop }
popped waits next stop w = w

-- `stop_write_loop` in the thread itself: `close` throws where the queue is closed, and `caught` is
-- where the exception leads; else `join` throws, and nothing catches that.
abbrev pub stopped_itself : Outcome Text (Unit {0}) → Text → Place → LogWriter → LogWriter
stopped_itself (returns r c s) m caught w = record w { msg_queue = c; place = Place.died m }
stopped_itself throws m caught w = record w { pending_write = false; place = caught }
stopped_itself waits m caught w = w

-- What follows `write_msg`.
abbrev pub after_write : Written → Text → Place → Place → LogWriter → LogWriter
unfolding Queue.cancel
after_write Written.done m next caught w = record w {
  is_open = true;
  file = w.file ++ m ∷ [];
  place = next;
}
after_write Written.stops_loop m next caught w =
    stopped_itself (Queue.cancel w.msg_queue) m caught w
after_write Written.exits m next caught w = record w { is_open = true; place = Place.died m }

-- The next step of the thread, from where it stands.
unfoldable pub from_place : Disk → Place → LogWriter → LogWriter
unfolding write_msg Queue.pop
from_place d Place.popping w = popped (Queue.pop w.msg_queue) Place.took (Place.leaving []) w
from_place d (Place.took m) w = record w { pending_write = true; place = Place.writes m }
from_place d (Place.writes m) w =
    after_write (write_msg d w.is_open m) m Place.wrote (Place.leaving (m ∷ [])) w
from_place d Place.wrote w = record w { pending_write = false; place = Place.popping }
from_place d (Place.leaving ms) w =
    if w.msg_queue.is_canceled
    then record w { pending_write = false; is_open = false; place = Place.ended ms }
    else popped (Queue.pop w.msg_queue) Place.exit_writes (Place.leaving ms) w
from_place d (Place.exit_writes m) w =
    after_write (write_msg d w.is_open m) m (Place.leaving []) (Place.died m) w
from_place d (Place.ended ms) w = w
from_place d (Place.died m) w = w

unfoldable pub writer_step : Disk → LogWriter → LogWriter
unfolding from_place
writer_step d w = from_place d w.place w

-- The constructor.
unfoldable pub fresh : LogWriter
unfolding Queue.create
fresh = record {
  msg_queue = Queue.create;
  pending_write = false;
  is_open = false;
  file = [];
  place = Place.popping;
}

-- A LogWriter, what one thread still does with it, and what that thread has printed.
pub record System : Type 0 where
  pub writer : LogWriter
  pub actions : List Action
  pub out : List Text

-- `qmsg`: a thread that is thrown out of it does none of its other actions.
abbrev pub queued : Outcome Text (Unit {0}) → List Action → System → System
queued (returns r c sig) rest s = record s {
  writer = record s.writer { msg_queue = c };
  actions = rest;
}
queued throws rest s = record s { actions = [] }
queued waits rest s = s

abbrev pub looked : Outcome Text Bool → List Action → System → System
looked (returns empty c sig) rest s = record s {
  actions = if empty then rest else Action.flush ∷ rest;
}
looked throws rest s = record s { actions = [] }
looked waits rest s = s

unfoldable pub act : List Action → System → System
unfolding Queue.push Queue.size Queue.is_empty
act [] s = s
act (Action.qmsg m ∷ rest) s = queued (Queue.push m s.writer.msg_queue) rest s
act (Action.flush_above n ∷ rest) s = record s {
  actions = if ltb n (Queue.size s.writer.msg_queue) then Action.flush ∷ rest else rest;
}
act (Action.flush ∷ rest) s = record s {
  actions = (if s.writer.pending_write then Action.flush else Action.looks) ∷ rest;
}
act (Action.looks ∷ rest) s = looked (Queue.is_empty s.writer.msg_queue) rest s
act (Action.prints m ∷ rest) s = record s { out = s.out ++ m ∷ []; actions = rest }

-- The thread of the LogWriter makes a step, the other thread does, or some thread calls `qmsg` or
-- closes the queue, as the destructor does.
pub data Event : Type 0 where
  writer_moves : Disk → Event
  acts : Event
  others_queue : Text → Event
  closes : Event

abbrev pub closed : Outcome Text (Unit {0}) → LogWriter → LogWriter
closed (returns r c sig) w = record w { msg_queue = c }
closed throws w = w
closed waits w = w

unfoldable pub fire : Event → System → System
unfolding writer_step act Queue.push Queue.cancel
fire (Event.writer_moves d) s = record s { writer = writer_step d s.writer }
fire Event.acts s = act s.actions s
fire (Event.others_queue m) s = record s {
  writer = closed (Queue.push m s.writer.msg_queue) s.writer;
}
fire Event.closes s = record s { writer = closed (Queue.cancel s.writer.msg_queue) s.writer }

unfoldable pub run : List Event → System → System
unfolding fire
run [] s = s
run (e ∷ es) s = run es (fire e s)
