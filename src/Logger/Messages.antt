-- ===== src/Logger/Messages.antt =====
-- The messages of one LogWriter, in every interleaving.
use cogutil.Base.{
  Bool, true, false, List, [], ◌∷◌, ◌++◌, length, ◌≡◌, refl, arith, append_assoc, append-nil, ◌≤◌,
  ap, sym, ◌∙◌,
}
use cogutil.Config.Strings.{Text}
use cogutil.Concurrent.Chan.{Chan}
use cogutil.Concurrent.Queue
use package.cogutil.Logger.{Action}
use package.cogutil.Logger.Writer.{Place, LogWriter, System, Event, closed, act, fire, run, fresh}
use package.cogutil.Logger.Taken.{
  in_hand, messages, given, acting, accepted_by, accepted, Fits, Kept, step-Kept,
}

-- What an event does to the messages.
abbrev pub Steps : Event → System → Type 0
Steps e s =
    (messages (fire e s).writer ≡ messages s.writer ++ accepted_by e s)
    × Fits (fire e s).writer.place (fire e s).writer.msg_queue

Fits-moved :
    (p : Place) (c c' : Chan Text)
    → (c.is_canceled ≡ true → c'.is_canceled ≡ true)
    → Fits p c
    → Fits p c'
Fits-moved Place.popping c c' h fits = tt
Fits-moved (Place.took m) c c' h fits = tt
Fits-moved (Place.writes m) c c' h fits = tt
Fits-moved Place.wrote c c' h fits = tt
Fits-moved (Place.leaving ms) c c' h (shut, few) = (h shut, few)
Fits-moved (Place.exit_writes m) c c' h fits = absurd fits
Fits-moved (Place.ended ms) c c' h (shut, few) = (h shut, few)
Fits-moved (Place.died m) c c' h fits = tt

pub append-more :
    (file hand items more : List Text)
    → file ++ (hand ++ (items ++ more)) ≡ (file ++ (hand ++ items)) ++ more
append-more file hand items more =
    simp (append_assoc file (hand ++ items) more, append_assoc hand items more) refl

abbrev having : List Text → Bool → LogWriter → LogWriter
having items canceled w = record w { msg_queue = record { items = items; is_canceled = canceled } }

pushed-Kept :
    (m : Text) (items : List Text) (canceled : Bool) (w : LogWriter)
    → Fits w.place (record { items = items; is_canceled = canceled })
    → let c : Chan Text = record { items = items; is_canceled = canceled } in
      (messages (closed (Queue.push m c) (having items canceled w))
        ≡ messages (having items canceled w) ++ given m c)
      × Fits
          (closed (Queue.push m c) (having items canceled w)).place
          (closed (Queue.push m c) (having items canceled w)).msg_queue
unfolding Queue.push
pushed-Kept m items true w fits = (sym (append-nil (messages (having items true w))), fits)
pushed-Kept m items false w fits = (
  append-more w.file (in_hand w.place) items (m ∷ []),
  Fits-moved w.place (record { items = items; is_canceled = false })
      (record { items = items ++ m ∷ []; is_canceled = false }) (λ y. y) fits,
)

closed-Kept :
    (items : List Text) (canceled : Bool) (w : LogWriter)
    → Fits w.place (record { items = items; is_canceled = canceled })
    → let c : Chan Text = record { items = items; is_canceled = canceled } in
      Kept (having items canceled w) (closed (Queue.cancel c) (having items canceled w))
unfolding Queue.cancel
closed-Kept items true w fits = (refl, fits)
closed-Kept items false w fits = (
  refl,
  Fits-moved w.place (record { items = items; is_canceled = false })
      (record { items = items; is_canceled = true }) (λ y. refl) fits,
)

-- What an action of the thread does, and what it leaves of the LogWriter.
abbrev Acts : List Action → System → Type 0
Acts todo s =
    (messages (act todo s).writer ≡ messages s.writer ++ acting todo s.writer.msg_queue)
    × Fits (act todo s).writer.place (act todo s).writer.msg_queue

act-queues :
    (m : Text) (rest : List Action) (items : List Text) (canceled : Bool) (s : System)
    → Fits s.writer.place (record { items = items; is_canceled = canceled })
    → Acts (Action.qmsg m ∷ rest) (record s { writer = having items canceled s.writer })
unfolding act Queue.push
act-queues m rest items true s fits = pushed-Kept m items true s.writer fits
act-queues m rest items false s fits = pushed-Kept m items false s.writer fits

act-looks :
    (rest : List Action) (items : List Text) (canceled : Bool) (s : System)
    → Fits s.writer.place (record { items = items; is_canceled = canceled })
    → Acts (Action.looks ∷ rest) (record s { writer = having items canceled s.writer })
unfolding act Queue.is_empty
act-looks rest items true s fits = (sym (append-nil (messages (having items true s.writer))), fits)
act-looks rest items false s fits =
    (sym (append-nil (messages (having items false s.writer))), fits)

act-Acts : (todo : List Action) (s : System) → Fits s.writer.place s.writer.msg_queue → Acts todo s
unfolding act
act-Acts [] s fits = (sym (append-nil (messages s.writer)), fits)
act-Acts (Action.qmsg m ∷ rest) s fits =
    act-queues m rest s.writer.msg_queue.items s.writer.msg_queue.is_canceled s fits
act-Acts (Action.flush_above n ∷ rest) s fits = (sym (append-nil (messages s.writer)), fits)
act-Acts (Action.flush ∷ rest) s fits = (sym (append-nil (messages s.writer)), fits)
act-Acts (Action.looks ∷ rest) s fits =
    act-looks rest s.writer.msg_queue.items s.writer.msg_queue.is_canceled s fits
act-Acts (Action.prints m ∷ rest) s fits = (sym (append-nil (messages s.writer)), fits)

pub fire-Steps : (e : Event) (s : System) → Fits s.writer.place s.writer.msg_queue → Steps e s
unfolding fire accepted_by
fire-Steps (Event.writer_moves d) s fits =
    let (same, fits') = step-Kept d s.writer fits in
    (same ∙ sym (append-nil (messages s.writer)), fits')
fire-Steps Event.acts s fits = act-Acts s.actions s fits
fire-Steps (Event.others_queue m) s fits =
    pushed-Kept m s.writer.msg_queue.items s.writer.msg_queue.is_canceled s.writer fits
fire-Steps Event.closes s fits =
    let (same, fits') =
      closed-Kept s.writer.msg_queue.items s.writer.msg_queue.is_canceled s.writer fits in
    (same ∙ sym (append-nil (messages s.writer)), fits')

pub run-Steps :
    (es : List Event) (s : System)
    → Fits s.writer.place s.writer.msg_queue
    → (messages (run es s).writer ≡ messages s.writer ++ accepted es s)
      × Fits (run es s).writer.place (run es s).writer.msg_queue
unfolding run accepted
run-Steps [] s fits = (sym (append-nil (messages s.writer)), fits)
run-Steps (e ∷ es) s fits =
    let (now, fits') = fire-Steps e s fits in
    let (later, fits'') = run-Steps es (fire e s) fits' in
    (
      later
          ∙ ap (λ ms. ms ++ accepted es (fire e s)) now
          ∙ append_assoc (messages s.writer) (accepted_by e s) (accepted es (fire e s)),
      fits'',
    )

abbrev pub started : List Action → System
started acts = record { writer = fresh; actions = acts; out = [] }

pub in_hand-few : (p : Place) (c : Chan Text) → Fits p c → length (in_hand p) ≤ 1
in_hand-few Place.popping c fits = omega arith
in_hand-few (Place.took m) c fits = omega arith
in_hand-few (Place.writes m) c fits = omega arith
in_hand-few Place.wrote c fits = omega arith
in_hand-few (Place.leaving ms) c fits = fits.1
in_hand-few (Place.exit_writes m) c fits = omega arith
in_hand-few (Place.ended ms) c fits = fits.1
in_hand-few (Place.died m) c fits = omega arith

-- In every interleaving of the thread of a new LogWriter with a thread that logs and any others
-- that queue messages or close the queue, whatever the calls of the system answer, what has been
-- written, the at most one message that the thread has taken, and what is in the queue are, in this
-- order, the messages that the queue accepted: none is lost, written twice or out of order.
pub messages_lem :
    (es : List Event) (acts : List Action)
    → let w = (run es (started acts)).writer in
      (w.file ++ (in_hand w.place ++ w.msg_queue.items) ≡ accepted es (started acts))
      × (length (in_hand w.place) ≤ 1)
unfolding fresh Queue.create
messages_lem es acts =
    let (all, fits) = run-Steps es (started acts) tt in
    let w = (run es (started acts)).writer in (all, in_hand-few w.place w.msg_queue fits)
