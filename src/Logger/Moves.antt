-- ===== src/Logger/Moves.antt =====
-- What a step of a LogWriter or of the threads that use it leaves: what is written or taken to be
-- written stays so, and a queue that is closed stays closed.
use cogutil.Base.{
  Bool, true, false, List, [], ◌∷◌, ◌++◌, ◌≡◌, refl, sym, ◌∙◌, ap, append_assoc, append-nil,
}
use cogutil.Config.Strings.{Text}
use cogutil.Concurrent.Queue
use package.cogutil.Logger.{Action}
use package.cogutil.Logger.Writer.{
  Place, LogWriter, Disk, System, Event, Written, popped, after_write, closed, from_place,
  writer_step, write_msg, act, fire,
}
use package.cogutil.Logger.Taken.{in_hand, Fits}

pub false_not_true : false ≡ true → ⊥
false_not_true e = cc

-- The messages that are written, and the one that the thread of the LogWriter has taken.
abbrev pub on_the_way : LogWriter → List Text
on_the_way w = w.file ++ in_hand w.place

abbrev pub Within : Text → List Text → Type 0
Within m xs = (before : List Text) × (behind : List Text) × (xs ≡ before ++ m ∷ behind)

abbrev pub Longer : List Text → List Text → Type 0
Longer xs ys = (more : List Text) × (ys ≡ xs ++ more)

pub Within-Longer : (m : Text) (xs ys : List Text) → Within m xs → Longer xs ys → Within m ys
Within-Longer m xs ys (before, behind, e) (more, f) =
    (before, behind ++ more, f ∙ ap (λ l. l ++ more) e ∙ append_assoc before (m ∷ behind) more)

abbrev pub Moves : LogWriter → LogWriter → Type 0
Moves w w' =
    Longer (on_the_way w) (on_the_way w')
    × (w.msg_queue.is_canceled ≡ true → w'.msg_queue.is_canceled ≡ true)

module _ (d : Disk) (items : List Text) (pending opened : Bool) (file : List Text) where
  abbrev standing : Bool → Place → LogWriter
  standing canceled p = record {
    msg_queue = record { items = items; is_canceled = canceled };
    pending_write = pending;
    is_open = opened;
    file = file;
    place = p;
  }

  written-Moves :
      (r : Written) (m : Text) (canceled : Bool)
      → let w = standing canceled (Place.writes m) in
        Moves w (after_write r m Place.wrote (Place.leaving (m ∷ [])) w)
  unfolding Queue.cancel
  written-Moves Written.done m canceled = (([], refl), λ y. y)
  written-Moves Written.stops_loop m true = (([], sym (append-nil (file ++ m ∷ []))), λ y. y)
  written-Moves Written.stops_loop m false = (([], sym (append-nil (file ++ m ∷ []))), λ y. refl)
  written-Moves Written.exits m canceled = (([], sym (append-nil (file ++ m ∷ []))), λ y. y)

  popped-Moves :
      (rest : List Text) (canceled : Bool)
      → let w = record (standing canceled Place.popping) {
        msg_queue = record { items = rest; is_canceled = canceled };
      } in
        Moves w (popped (Queue.pop w.msg_queue) Place.took (Place.leaving []) w)
  unfolding Queue.pop Queue.take_front
  popped-Moves [] true = (([], sym (append-nil (file ++ []))), λ y. y)
  popped-Moves (m ∷ ms) true = (([], sym (append-nil (file ++ []))), λ y. y)
  popped-Moves [] false = (([], sym (append-nil (file ++ []))), λ y. y)
  popped-Moves (m ∷ ms) false = ((m ∷ [], sym (append_assoc file [] (m ∷ []))), λ y. y)

  from_place-Moves :
      (p : Place) (canceled : Bool)
      → Fits p (record { items = items; is_canceled = canceled })
      → Moves (standing canceled p) (from_place d p (standing canceled p))
  unfolding from_place
  from_place-Moves Place.popping canceled fits = popped-Moves items canceled
  from_place-Moves (Place.took m) canceled fits = (([], sym (append-nil (file ++ m ∷ []))), λ y. y)
  from_place-Moves (Place.writes m) canceled fits = written-Moves (write_msg d opened m) m canceled
  from_place-Moves Place.wrote canceled fits = (([], sym (append-nil (file ++ []))), λ y. y)
  from_place-Moves (Place.leaving ms) true fits = (([], sym (append-nil (file ++ ms))), λ y. y)
  from_place-Moves (Place.leaving ms) false fits = absurd (false_not_true fits.0)
  from_place-Moves (Place.exit_writes m) canceled fits = absurd fits
  from_place-Moves (Place.ended ms) canceled fits = (([], sym (append-nil (file ++ ms))), λ y. y)
  from_place-Moves (Place.died m) canceled fits = (([], sym (append-nil (file ++ m ∷ []))), λ y. y)

stays : (w : LogWriter) → Longer (on_the_way w) (on_the_way w)
stays w = ([], sym (append-nil (on_the_way w)))

abbrev pub having : List Text → Bool → LogWriter → LogWriter
having items canceled w = record w { msg_queue = record { items = items; is_canceled = canceled } }

pushed-Moves :
    (m : Text) (items : List Text) (canceled : Bool) (w : LogWriter)
    → Moves
        (having items canceled w)
        (closed (Queue.push m (having items canceled w).msg_queue) (having items canceled w))
unfolding Queue.push
pushed-Moves m items true w = (stays w, λ y. y)
pushed-Moves m items false w = (stays w, λ y. y)

closed-Moves :
    (items : List Text) (canceled : Bool) (w : LogWriter)
    → Moves
        (having items canceled w)
        (closed (Queue.cancel (having items canceled w).msg_queue) (having items canceled w))
unfolding Queue.cancel
closed-Moves items true w = (stays w, λ y. y)
closed-Moves items false w = (stays w, λ y. refl)

queued-Moves :
    (m : Text) (rest : List Action) (items : List Text) (canceled : Bool) (s : System)
    → Moves
        (having items canceled s.writer)
        (act (Action.qmsg m ∷ rest) (record s { writer = having items canceled s.writer })).writer
unfolding act Queue.push
queued-Moves m rest items true s = (stays s.writer, λ y. y)
queued-Moves m rest items false s = (stays s.writer, λ y. y)

looked-Moves :
    (rest : List Action) (items : List Text) (canceled : Bool) (s : System)
    → Moves
        (having items canceled s.writer)
        (act (Action.looks ∷ rest) (record s { writer = having items canceled s.writer })).writer
unfolding act Queue.is_empty
looked-Moves rest items true s = (stays s.writer, λ y. y)
looked-Moves rest items false s = (stays s.writer, λ y. y)

act-Moves : (todo : List Action) (s : System) → Moves s.writer (act todo s).writer
unfolding act
act-Moves [] s = (stays s.writer, λ y. y)
act-Moves (Action.qmsg m ∷ rest) s =
    queued-Moves m rest s.writer.msg_queue.items s.writer.msg_queue.is_canceled s
act-Moves (Action.flush_above n ∷ rest) s = (stays s.writer, λ y. y)
act-Moves (Action.flush ∷ rest) s = (stays s.writer, λ y. y)
act-Moves (Action.looks ∷ rest) s =
    looked-Moves rest s.writer.msg_queue.items s.writer.msg_queue.is_canceled s
act-Moves (Action.prints m ∷ rest) s = (stays s.writer, λ y. y)

pub fire-Moves :
    (e : Event) (s : System)
    → Fits s.writer.place s.writer.msg_queue
    → Moves s.writer (fire e s).writer
unfolding fire writer_step
fire-Moves (Event.writer_moves d) s fits =
    from_place-Moves d s.writer.msg_queue.items s.writer.pending_write s.writer.is_open
      s.writer.file s.writer.place s.writer.msg_queue.is_canceled fits
fire-Moves Event.acts s fits = act-Moves s.actions s
fire-Moves (Event.others_queue m) s fits =
    pushed-Moves m s.writer.msg_queue.items s.writer.msg_queue.is_canceled s.writer
fire-Moves Event.closes s fits =
    closed-Moves s.writer.msg_queue.items s.writer.msg_queue.is_canceled s.writer
