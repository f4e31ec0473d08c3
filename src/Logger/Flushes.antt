-- ===== src/Logger/Flushes.antt =====
-- What a LogWriter has written at the two tests of the loop of flush.
use cogutil.Base.{
  Bool, true, false, List, [], ◌∷◌, ◌++◌, length, ◌≡◌, refl, arith, ◌≤◌, ap, sym, ◌∙◌, append-nil,
  if◌then◌else◌,
}
use cogutil.Config.Strings.{Text}
use cogutil.Concurrent.Queue
use package.cogutil.Logger.{Action}
use package.cogutil.Logger.Writer.{Place, System, Event, fresh, looked, act, run}
use package.cogutil.Logger.Taken.{in_hand, accepted}
use package.cogutil.Logger.Messages.{started, messages_lem, run-Steps, in_hand-few}
use package.cogutil.Logger.Pending.{Marked, run-Sound}

never_shorter : (x : Action) (xs : List Action) → x ∷ xs ≡ xs → ⊥
never_shorter x xs e = absurd (omega (arith, ap (λ (l : List Action). length l) e))

passed-empty :
    (rest : List Action) (items : List Text) (canceled : Bool) (s : System)
    → canceled ≡ false
    → (looked (Queue.is_empty (record { items = items; is_canceled = canceled })) rest s).actions
      ≡ rest
    → items ≡ []
unfolding Queue.is_empty
passed-empty rest [] canceled s goes p = refl
passed-empty rest (m ∷ ms) true s goes p = cc
passed-empty rest (m ∷ ms) false s goes p = absurd (never_shorter Action.flush rest p)

-- What the thread has taken without having set pending_write yet.
abbrev pub in_window : Place → List Text
in_window (Place.took m) = m ∷ []
in_window other = []

first_test :
    (pending : Bool) (rest : List Action)
    → (if pending then Action.flush else Action.looks) ∷ rest ≡ Action.looks ∷ rest
    → pending ≡ false
first_test true rest e = cc
first_test false rest e = refl

not_canceled : (b c : Bool) → (b ≡ true → c ≡ true) → c ≡ false → b ≡ false
not_canceled true c shut goes = cc (shut refl, goes)
not_canceled false c shut goes = refl

-- Where pending_write is not set, only a message in that window is in the hands of the thread.
in_hand-unmarked :
    (p : Place) (pending canceled : Bool)
    → Marked p pending canceled
    → pending ≡ false
    → canceled ≡ false
    → in_hand p ≡ in_window p
in_hand-unmarked Place.popping pending canceled marked idle goes = refl
in_hand-unmarked (Place.took m) pending canceled marked idle goes = refl
in_hand-unmarked (Place.writes m) pending canceled marked idle goes = cc (marked, idle)
in_hand-unmarked Place.wrote pending canceled marked idle goes = refl
in_hand-unmarked (Place.leaving ms) pending canceled marked idle goes = cc (marked, goes)
in_hand-unmarked (Place.exit_writes m) pending canceled marked idle goes = absurd marked
in_hand-unmarked (Place.ended ms) pending canceled marked idle goes = cc (marked, goes)
in_hand-unmarked (Place.died m) pending canceled marked idle goes = cc (marked, idle)

-- Let a thread be at the first test of the loop of flush in any interleaving, and that test let it
-- go on; let it be at the second test after any further events, the queue not closed, and that test
-- let it leave the loop. Then what the queue had accepted up to the first test was written then, in
-- order, but for what was still in the queue and a message that the thread of the LogWriter had taken
-- without having set pending_write. At the second test all that the queue has accepted up to then is
-- written, in order, but for at most one message, the last, which that thread has taken.
pub flush_lem :
    (es later : List Event) (acts rest : List Action)
    → let s = run es (started acts) in
      let s' = run (Event.acts ∷ later) s in
      s.actions ≡ Action.flush ∷ rest
      → (act (Action.flush ∷ rest) s).actions ≡ Action.looks ∷ rest
      → s'.actions ≡ Action.looks ∷ rest
      → s'.writer.msg_queue.is_canceled ≡ false
      → (act (Action.looks ∷ rest) s').actions ≡ rest
      → (s.writer.file ++ (in_window s.writer.place ++ s.writer.msg_queue.items)
          ≡ accepted es (started acts))
        × (s'.writer.file ++ in_hand s'.writer.place
            ≡ accepted es (started acts) ++ accepted (Event.acts ∷ later) s)
        × (length (in_hand s'.writer.place) ≤ 1)
unfolding act fresh Queue.create
flush_lem es later acts rest at_first passes at_second goes leaves =
    let s = run es (started acts) in
    let s' = run (Event.acts ∷ later) s in
    let (sound, _) = run-Sound es (started acts) (tt, tt) in
    let (_, shut) = run-Sound (Event.acts ∷ later) s sound in
    let (all, few) = messages_lem es acts in
    let (all', fits) = run-Steps (Event.acts ∷ later) s sound.0 in
    let still_open =
      not_canceled s.writer.msg_queue.is_canceled s'.writer.msg_queue.is_canceled shut goes in
    let idle = first_test s.writer.pending_write rest passes in
    let none_left =
      passed-empty rest s'.writer.msg_queue.items s'.writer.msg_queue.is_canceled s' goes leaves in
    (
      ap (λ (h : List Text). s.writer.file ++ (h ++ s.writer.msg_queue.items))
            (sym (
              in_hand-unmarked s.writer.place s.writer.pending_write s.writer.msg_queue.is_canceled
                sound.1 idle still_open))
          ∙ all,
      ap (λ (h : List Text). s'.writer.file ++ h) (sym (append-nil (in_hand s'.writer.place)))
          ∙ ap (λ (q : List Text). s'.writer.file ++ (in_hand s'.writer.place ++ q)) (sym none_left)
          ∙ all'
          ∙ ap (λ ms. ms ++ accepted (Event.acts ∷ later) s) all,
      in_hand-few s'.writer.place s'.writer.msg_queue fits,
    )
