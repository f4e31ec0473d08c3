-- ===== src/Logger/Pending.antt =====
-- While the thread of a LogWriter writes a message, pending_write is set.
use cogutil.Base.{Bool, true, false, List, [], ◌∷◌, ◌≡◌, refl, sym, subst}
use cogutil.Config.Strings.{Text}
use cogutil.Concurrent.Chan.{Outcome, returns, throws, waits}
use cogutil.Concurrent.Queue
use package.cogutil.Logger.{Action}
use package.cogutil.Logger.Writer.{
  Place, LogWriter, Disk, System, Event, Written, popped, after_write, closed, queued, looked,
  from_place, writer_step, write_msg, act, fire, run,
}
use package.cogutil.Logger.Taken.{Fits}
use package.cogutil.Logger.Messages.{fire-Steps}
use package.cogutil.Logger.Moves.{fire-Moves}

-- Of a place, of `pending_write`, and of whether the queue is closed.
abbrev pub Marked : Place → Bool → Bool → Type 0
Marked (Place.writes m) pending canceled = pending ≡ true
Marked (Place.died m) pending canceled = pending ≡ true
Marked (Place.leaving ms) pending canceled = canceled ≡ true
Marked (Place.exit_writes m) pending canceled = ⊥
Marked (Place.ended ms) pending canceled = canceled ≡ true
Marked other pending canceled = Unit

abbrev pub IsMarked : LogWriter → Type 0
IsMarked w = Marked w.place w.pending_write w.msg_queue.is_canceled

-- What holds of every LogWriter that is reached.
abbrev pub Sound : LogWriter → Type 0
Sound w = Fits w.place w.msg_queue × IsMarked w

Marked-moved :
    (p : Place) (pending canceled canceled' : Bool)
    → (canceled ≡ true → canceled' ≡ true)
    → Marked p pending canceled
    → Marked p pending canceled'
Marked-moved Place.popping pending canceled canceled' h marked = tt
Marked-moved (Place.took m) pending canceled canceled' h marked = tt
Marked-moved (Place.writes m) pending canceled canceled' h marked = marked
Marked-moved Place.wrote pending canceled canceled' h marked = tt
Marked-moved (Place.leaving ms) pending canceled canceled' h marked = h marked
Marked-moved (Place.exit_writes m) pending canceled canceled' h marked = absurd marked
Marked-moved (Place.ended ms) pending canceled canceled' h marked = h marked
Marked-moved (Place.died m) pending canceled canceled' h marked = marked

module _ (d : Disk) (items : List Text) (opened : Bool) (file : List Text) where
  abbrev standing : Bool → Bool → Place → LogWriter
  standing pending canceled p = record {
    msg_queue = record { items = items; is_canceled = canceled };
    pending_write = pending;
    is_open = opened;
    file = file;
    place = p;
  }

  written-IsMarked :
      (r : Written) (m : Text) (pending canceled : Bool)
      → pending ≡ true
      → let w = standing pending canceled (Place.writes m) in
        IsMarked (after_write r m Place.wrote (Place.leaving (m ∷ [])) w)
  unfolding Queue.cancel
  written-IsMarked Written.done m pending canceled marked = tt
  written-IsMarked Written.stops_loop m pending true marked = refl
  written-IsMarked Written.stops_loop m pending false marked = marked
  written-IsMarked Written.exits m pending canceled marked = marked

  popped-IsMarked :
      (rest : List Text) (pending canceled : Bool)
      → let w = record (standing pending canceled Place.popping) {
        msg_queue = record { items = rest; is_canceled = canceled };
      } in
        IsMarked (popped (Queue.pop w.msg_queue) Place.took (Place.leaving []) w)
  unfolding Queue.pop Queue.take_front
  popped-IsMarked [] pending true = refl
  popped-IsMarked (m ∷ ms) pending true = refl
  popped-IsMarked [] pending false = tt
  popped-IsMarked (m ∷ ms) pending false = tt

  from_place-IsMarked :
      (p : Place) (pending canceled : Bool)
      → Marked p pending canceled
      → IsMarked (from_place d p (standing pending canceled p))
  unfolding from_place
  from_place-IsMarked Place.popping pending canceled marked = popped-IsMarked items pending canceled
  from_place-IsMarked (Place.took m) pending canceled marked = refl
  from_place-IsMarked (Place.writes m) pending canceled marked =
      written-IsMarked (write_msg d opened m) m pending canceled marked
  from_place-IsMarked Place.wrote pending canceled marked = tt
  from_place-IsMarked (Place.leaving ms) pending true marked = refl
  from_place-IsMarked (Place.leaving ms) pending false marked = cc
  from_place-IsMarked (Place.exit_writes m) pending canceled marked = absurd marked
  from_place-IsMarked (Place.ended ms) pending canceled marked = marked
  from_place-IsMarked (Place.died m) pending canceled marked = marked

-- Where the thread stands and pending_write are its own.
abbrev Stands : LogWriter → LogWriter → Type 0
Stands w w' = (w'.place ≡ w.place) × (w'.pending_write ≡ w.pending_write)

queued-Stands :
    (o : Outcome Text (Unit {0})) (rest : List Action) (s : System)
    → Stands s.writer (queued o rest s).writer
queued-Stands (returns r c sig) rest s = (refl, refl)
queued-Stands throws rest s = (refl, refl)
queued-Stands waits rest s = (refl, refl)

looked-Stands :
    (o : Outcome Text Bool) (rest : List Action) (s : System)
    → Stands s.writer (looked o rest s).writer
looked-Stands (returns r c sig) rest s = (refl, refl)
looked-Stands throws rest s = (refl, refl)
looked-Stands waits rest s = (refl, refl)

closed-Stands : (o : Outcome Text (Unit {0})) (w : LogWriter) → Stands w (closed o w)
closed-Stands (returns r c sig) w = (refl, refl)
closed-Stands throws w = (refl, refl)
closed-Stands waits w = (refl, refl)

act-Stands : (todo : List Action) (s : System) → Stands s.writer (act todo s).writer
unfolding act
act-Stands [] s = (refl, refl)
act-Stands (Action.qmsg m ∷ rest) s = queued-Stands (Queue.push m s.writer.msg_queue) rest s
act-Stands (Action.flush_above n ∷ rest) s = (refl, refl)
act-Stands (Action.flush ∷ rest) s = (refl, refl)
act-Stands (Action.looks ∷ rest) s = looked-Stands (Queue.is_empty s.writer.msg_queue) rest s
act-Stands (Action.prints m ∷ rest) s = (refl, refl)

Stands-IsMarked :
    (w w' : LogWriter)
    → Stands w w'
    → (w.msg_queue.is_canceled ≡ true → w'.msg_queue.is_canceled ≡ true)
    → IsMarked w
    → IsMarked w'
Stands-IsMarked w w' (place, pending) shut marked =
    subst (λ (p : Place). Marked p w'.pending_write w'.msg_queue.is_canceled) (sym place)
      (subst (λ (b : Bool). Marked w.place b w'.msg_queue.is_canceled) (sym pending)
        (Marked-moved w.place w.pending_write w.msg_queue.is_canceled w'.msg_queue.is_canceled shut
          marked))

fire-IsMarked :
    (e : Event) (s : System)
    → (s.writer.msg_queue.is_canceled ≡ true → (fire e s).writer.msg_queue.is_canceled ≡ true)
    → IsMarked s.writer
    → IsMarked (fire e s).writer
unfolding fire writer_step
fire-IsMarked (Event.writer_moves d) s shut marked =
    from_place-IsMarked d s.writer.msg_queue.items s.writer.is_open s.writer.file s.writer.place
      s.writer.pending_write s.writer.msg_queue.is_canceled marked
fire-IsMarked Event.acts s shut marked =
    Stands-IsMarked s.writer (act s.actions s).writer (act-Stands s.actions s) shut marked
fire-IsMarked (Event.others_queue m) s shut marked =
    Stands-IsMarked s.writer (closed (Queue.push m s.writer.msg_queue) s.writer)
      (closed-Stands (Queue.push m s.writer.msg_queue) s.writer) shut marked
fire-IsMarked Event.closes s shut marked =
    Stands-IsMarked s.writer (closed (Queue.cancel s.writer.msg_queue) s.writer)
      (closed-Stands (Queue.cancel s.writer.msg_queue) s.writer) shut marked

-- In every interleaving this stays so, and a queue that is closed stays closed.
pub run-Sound :
    (es : List Event) (s : System)
    → Sound s.writer
    → Sound (run es s).writer
      × (s.writer.msg_queue.is_canceled ≡ true → (run es s).writer.msg_queue.is_canceled ≡ true)
unfolding run
run-Sound [] s h = (h, λ y. y)
run-Sound (e ∷ es) s (fits, marked) =
    let (moved, shut) = fire-Moves e s fits in
    let (same, fits') = fire-Steps e s fits in
    let (later, shut') = run-Sound es (fire e s) (fits', fire-IsMarked e s shut marked) in
    (later, λ y. shut' (shut y))
