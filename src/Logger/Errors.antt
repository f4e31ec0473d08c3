-- ===== src/Logger/Errors.antt =====
-- What has been written when a call of `log` with a severe level is over.
use cogutil.Base.{
  ℕ, Bool, true, false, not, List, [], ◌∷◌, ◌++◌, some, if◌then◌else◌, ltb, ◌≡◌, refl, sym, ◌∙◌, ap,
  subst, append-nil,
}
use cogutil.Config.Strings.{Text}
use cogutil.Concurrent.Queue
use package.cogutil.Logger.{Logger, Around, Action, message, log, logged, is_enabled, traces}
use package.cogutil.Logger.Levels.{Level}
use package.cogutil.Logger.Writer.{System, Event, act, fire, run, fresh}
use package.cogutil.Logger.Taken.{in_hand, messages, given, Fits, accepted_by}
use package.cogutil.Logger.Messages.{fire-Steps, started, append-more}
use package.cogutil.Logger.Moves.{
  on_the_way, Within, Within-Longer, having, fire-Moves, false_not_true,
}

-- A flush is still to come.
abbrev Flushes : List Action → Type 0
Flushes [] = ⊥
Flushes (Action.flush ∷ rest) = Unit
Flushes (Action.looks ∷ rest) = Unit
Flushes (Action.qmsg m ∷ rest) = Flushes rest
Flushes (Action.flush_above n ∷ rest) = Flushes rest
Flushes (Action.prints m ∷ rest) = Flushes rest

-- The message is going to be written before the actions are over, or the queue is closed.
data Due (m : Text) (s : System) : Type 0 where
  shut : s.writer.msg_queue.is_canceled ≡ true → Due m s
  kept : Within m (on_the_way s.writer) → Due m s
  coming : Within m (messages s.writer) → Flushes s.actions → Due m s
  first : (rest : List Action) → s.actions ≡ Action.qmsg m ∷ rest → Flushes rest → Due m s

looked-Due :
    (m : Text) (rest : List Action) (items : List Text) (canceled : Bool) (s : System)
    → let s' = record s { writer = having items canceled s.writer } in
      Within m (messages s'.writer) → Due m (act (Action.looks ∷ rest) s')
unfolding act Queue.is_empty
looked-Due m rest items true s h = Due.shut refl
looked-Due m rest [] false s h = Due.kept (
    subst (λ (l : List Text). Within m (s.writer.file ++ l)) (append-nil (in_hand s.writer.place))
      h)
looked-Due m rest (x ∷ xs) false s h = Due.coming h tt

queued-Due :
    (m x : Text) (rest : List Action) (items : List Text) (canceled : Bool) (s : System)
    → let s' = record s { writer = having items canceled s.writer } in
      Within m (messages s'.writer ++ given x s'.writer.msg_queue)
      → Flushes rest
      → Due m (act (Action.qmsg x ∷ rest) s')
unfolding act Queue.push
queued-Due m x rest items true s h f = Due.shut refl
queued-Due m x rest items false s h f =
    Due.coming
      (subst (Within m) (sym (append-more s.writer.file (in_hand s.writer.place) items (x ∷ []))) h)
      f

queued-first :
    (m : Text) (rest : List Action) (items : List Text) (canceled : Bool) (s : System)
    → Flushes rest
    → Due m (act (Action.qmsg m ∷ rest) (record s { writer = having items canceled s.writer }))
unfolding act Queue.push
queued-first m rest items true s f = Due.shut refl
queued-first m rest items false s f =
    Due.coming
      (
        messages (having items false s.writer),
        [],
        append-more s.writer.file (in_hand s.writer.place) items (m ∷ []),
      )
      f

flush-first :
    (b : Bool) (rest : List Action) → Flushes ((if b then Action.flush else Action.looks) ∷ rest)
flush-first true rest = tt
flush-first false rest = tt

flush-kept :
    (b : Bool) (rest : List Action)
    → Flushes rest
    → Flushes (if b then Action.flush ∷ rest else rest)
flush-kept true rest f = tt
flush-kept false rest f = f

act-Due :
    (m : Text) (todo : List Action) (s : System)
    → Within m (messages s.writer)
    → Flushes todo
    → Due m (act todo s)
unfolding act
act-Due m [] s h f = absurd f
act-Due m (Action.qmsg x ∷ rest) s h f =
    queued-Due m x rest s.writer.msg_queue.items s.writer.msg_queue.is_canceled s
      (Within-Longer m (messages s.writer) (messages s.writer ++ given x s.writer.msg_queue) h
        (given x s.writer.msg_queue, refl))
      f
act-Due m (Action.flush_above n ∷ rest) s h f =
    Due.coming h (flush-kept (ltb n (Queue.size s.writer.msg_queue)) rest f)
act-Due m (Action.flush ∷ rest) s h f = Due.coming h (flush-first s.writer.pending_write rest)
act-Due m (Action.looks ∷ rest) s h f =
    looked-Due m rest s.writer.msg_queue.items s.writer.msg_queue.is_canceled s h
act-Due m (Action.prints x ∷ rest) s h f = Due.coming h f

-- Every event but `acts` leaves the actions.
coming-Due :
    (m : Text) (e : Event) (s : System)
    → Within m (messages (fire e s).writer)
    → Within m (messages s.writer)
    → Flushes s.actions
    → Due m (fire e s)
unfolding fire
coming-Due m (Event.writer_moves d) s h' h f = Due.coming h' f
coming-Due m Event.acts s h' h f = act-Due m s.actions s h f
coming-Due m (Event.others_queue x) s h' h f = Due.coming h' f
coming-Due m Event.closes s h' h f = Due.coming h' f

first-Due :
    (m : Text) (e : Event) (s : System) (rest : List Action)
    → s.actions ≡ Action.qmsg m ∷ rest
    → Flushes rest
    → Due m (fire e s)
unfolding fire
first-Due m (Event.writer_moves d) s rest p f = Due.first rest p f
first-Due m Event.acts s rest p f =
    subst (λ (todo : List Action). Due m (act todo s)) (sym p)
      (queued-first m rest s.writer.msg_queue.items s.writer.msg_queue.is_canceled s f)
first-Due m (Event.others_queue x) s rest p f = Due.first rest p f
first-Due m Event.closes s rest p f = Due.first rest p f

fire-Due :
    (m : Text) (e : Event) (s : System)
    → Fits s.writer.place s.writer.msg_queue
    → Due m s
    → Due m (fire e s)
fire-Due m e s fits (Due.shut h) = Due.shut ((fire-Moves e s fits).1 h)
fire-Due m e s fits (Due.kept h) =
    Due.kept (
      Within-Longer m (on_the_way s.writer) (on_the_way (fire e s).writer) h
        (fire-Moves e s fits).0)
fire-Due m e s fits (Due.coming h f) =
    coming-Due m e s
      (Within-Longer m (messages s.writer) (messages (fire e s).writer) h
        (accepted_by e s, (fire-Steps e s fits).0))
      h f
fire-Due m e s fits (Due.first rest p f) = first-Due m e s rest p f

run-Due :
    (m : Text) (es : List Event) (s : System)
    → Fits s.writer.place s.writer.msg_queue
    → Due m s
    → Due m (run es s)
unfolding run
run-Due m [] s fits due = due
run-Due m (e ∷ es) s fits due =
    run-Due m es (fire e s) (fire-Steps e s fits).1 (fire-Due m e s fits due)

over-Due :
    (m : Text) (s : System)
    → s.actions ≡ []
    → s.writer.msg_queue.is_canceled ≡ false
    → Due m s
    → Within m (on_the_way s.writer)
over-Due m s over goes (Due.shut h) = absurd (false_not_true (sym goes ∙ h))
over-Due m s over goes (Due.kept h) = h
over-Due m s over goes (Due.coming h f) = absurd (subst Flushes over f)
over-Due m s over goes (Due.first rest p f) = cc

abbrev severe : Level → Logger → Bool
severe level l = if traces level l then true else l.sync_enabled

abbrev behind_message : Text → Level → Logger → List Action
behind_message m level l =
    Action.flush_above 1024
    ∷ ((if traces level l then Action.flush ∷ [] else [])
        ++ ((if l.sync_enabled then Action.flush ∷ [] else [])
            ++ (if l.print_to_stdout then Action.prints m ∷ [] else [])))

logged-Flushes :
    (t sync out : Bool) (m : Text)
    → (if t then true else sync) ≡ true
    → Flushes (
        (if t then Action.flush ∷ [] else [])
        ++ ((if sync then Action.flush ∷ [] else []) ++ (if out then Action.prints m ∷ [] else [])))
logged-Flushes true sync out m h = tt
logged-Flushes false true out m h = tt
logged-Flushes false false out m h = absurd (false_not_true h)

log-logged :
    (a : Around) (level : Level) (txt : Text) (l : Logger) (w : ℕ)
    → l.log_enabled ≡ true
    → is_enabled level l ≡ true
    → l.log_writer ≡ some w
    → log a level txt l ≡ logged (message a level txt l) level l
unfolding log
log-logged a level txt l w on passes at_writer =
    rw (at_writer, passes)
      (ap (λ (b : Bool). if not b then [] else logged (message a level txt l) level l) on)

-- When a call of `log` on a new LogWriter is over, in any interleaving with the thread that writes
-- and with others, and the queue is not closed, the message has been written, or it is in the hands
-- of the thread that writes: if the Logger is enabled, has a LogWriter and lets the level pass, and
-- the level is among those that get a trace, or sync_enabled is set.
pub log_lem :
    (es : List Event) (a : Around) (level : Level) (txt : Text) (l : Logger) (w : ℕ)
    → l.log_enabled ≡ true
    → is_enabled level l ≡ true
    → l.log_writer ≡ some w
    → severe level l ≡ true
    → (run es (started (log a level txt l))).actions ≡ []
    → (run es (started (log a level txt l))).writer.msg_queue.is_canceled ≡ false
    → Within (message a level txt l) (on_the_way (run es (started (log a level txt l))).writer)
unfolding logged fresh Queue.create
log_lem es a level txt l w on passes at_writer urgent over goes =
    let m = message a level txt l in
    over-Due m (run es (started (log a level txt l))) over goes (
      run-Due m es (started (log a level txt l)) tt (
        Due.first (behind_message m level l) (log-logged a level txt l w on passes at_writer)
          (logged-Flushes (traces level l) l.sync_enabled l.print_to_stdout m urgent)))
