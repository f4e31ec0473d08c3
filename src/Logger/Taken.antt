-- ===== src/Logger/Taken.antt =====
-- The messages of one LogWriter, which of them an event adds, and the steps of its thread.
use cogutil.Base.{
  Bool, true, false, List, [], ◌∷◌, ◌++◌, if◌then◌else◌, length, ◌≡◌, refl, arith, append_assoc,
  ◌≤◌,
}
use cogutil.Config.Strings.{Text}
use cogutil.Concurrent.Chan.{Chan}
use cogutil.Concurrent.Queue
use package.cogutil.Logger.{Action}
use package.cogutil.Logger.Writer.{
  Place, LogWriter, Disk, System, Event, Written, popped, after_write, from_place, writer_step,
  write_msg, fire,
}

-- What the thread has taken and has not written.
abbrev pub in_hand : Place → List Text
in_hand Place.popping = []
in_hand (Place.took m) = m ∷ []
in_hand (Place.writes m) = m ∷ []
in_hand Place.wrote = []
in_hand (Place.leaving ms) = ms
in_hand (Place.exit_writes m) = m ∷ []
in_hand (Place.ended ms) = ms
in_hand (Place.died m) = m ∷ []

-- All messages, the oldest first.
abbrev pub messages : LogWriter → List Text
messages w = w.file ++ (in_hand w.place ++ w.msg_queue.items)

-- The message that an event gets into the queue.
abbrev pub given : Text → Chan Text → List Text
given m c = if c.is_canceled then [] else m ∷ []

abbrev pub acting : List Action → Chan Text → List Text
acting (Action.qmsg m ∷ rest) c = given m c
acting other c = []

unfoldable pub accepted_by : Event → System → List Text
accepted_by (Event.writer_moves d) s = []
accepted_by Event.acts s = acting s.actions s.writer.msg_queue
accepted_by (Event.others_queue m) s = given m s.writer.msg_queue
accepted_by Event.closes s = []

unfoldable pub accepted : List Event → System → List Text
unfolding accepted_by
accepted [] s = []
accepted (e ∷ es) s = accepted_by e s ++ accepted es (fire e s)

-- The loop of the thread is left once the queue is closed, and so the loop of OnExit never runs.
abbrev pub Fits : Place → Chan Text → Type 0
Fits (Place.leaving ms) c = (c.is_canceled ≡ true) × (length ms ≤ 1)
Fits (Place.ended ms) c = (c.is_canceled ≡ true) × (length ms ≤ 1)
Fits (Place.exit_writes m) c = ⊥
Fits other c = Unit

abbrev pub Kept : LogWriter → LogWriter → Type 0
Kept w w' = (messages w' ≡ messages w) × Fits w'.place w'.msg_queue

module _ (d : Disk) (items : List Text) (pending opened : Bool) (file : List Text) where
  abbrev standing : Bool → Place → LogWriter
  standing canceled p = record {
    msg_queue = record { items = items; is_canceled = canceled };
    pending_write = pending;
    is_open = opened;
    file = file;
    place = p;
  }

  written-Kept :
      (r : Written) (m : Text) (canceled : Bool)
      → let w = standing canceled (Place.writes m) in
        Kept w (after_write r m Place.wrote (Place.leaving (m ∷ [])) w)
  unfolding Queue.cancel
  written-Kept Written.done m canceled = (append_assoc file (m ∷ []) items, tt)
  written-Kept Written.stops_loop m true = (refl, (refl, omega arith))
  written-Kept Written.stops_loop m false = (refl, tt)
  written-Kept Written.exits m canceled = (refl, tt)

  popped-Kept :
      (rest : List Text) (canceled : Bool)
      → let w = record (standing canceled Place.popping) {
        msg_queue = record { items = rest; is_canceled = canceled };
      } in
        Kept w (popped (Queue.pop w.msg_queue) Place.took (Place.leaving []) w)
  unfolding Queue.pop Queue.take_front
  popped-Kept [] true = (refl, (refl, omega arith))
  popped-Kept (m ∷ ms) true = (refl, (refl, omega arith))
  popped-Kept [] false = (refl, tt)
  popped-Kept (m ∷ ms) false = (refl, tt)

  from_place-Kept :
      (p : Place) (canceled : Bool)
      → Fits p (record { items = items; is_canceled = canceled })
      → Kept (standing canceled p) (from_place d p (standing canceled p))
  unfolding from_place
  from_place-Kept Place.popping canceled fits = popped-Kept items canceled
  from_place-Kept (Place.took m) canceled fits = (refl, tt)
  from_place-Kept (Place.writes m) canceled fits = written-Kept (write_msg d opened m) m canceled
  from_place-Kept Place.wrote canceled fits = (refl, tt)
  from_place-Kept (Place.leaving ms) true fits = (refl, fits)
  from_place-Kept (Place.leaving ms) false fits = cc
  from_place-Kept (Place.exit_writes m) canceled fits = absurd fits
  from_place-Kept (Place.ended ms) canceled fits = (refl, fits)
  from_place-Kept (Place.died m) canceled fits = (refl, tt)

pub step-Kept : (d : Disk) (w : LogWriter) → Fits w.place w.msg_queue → Kept w (writer_step d w)
unfolding writer_step
step-Kept d w fits =
    from_place-Kept d w.msg_queue.items w.pending_write w.is_open w.file w.place
      w.msg_queue.is_canceled fits
