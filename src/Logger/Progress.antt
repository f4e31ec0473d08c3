-- ===== src/Logger/Progress.antt =====
-- How far the thread of a LogWriter comes, when it alone moves.
use cogutil.Base.{
  Bool, true, false, List, [], ◌∷◌, ◌++◌, some, length, ◌≡◌, refl, sym, ◌∙◌, ap, append_assoc,
  append-nil, ==_iff, arith,
}
use cogutil.Config.Strings.{Text}
use cogutil.Concurrent.Queue
use package.cogutil.Logger.{Action}
use package.cogutil.Logger.Writer.{
  Place, Disk, System, Event, Written, after_write, from_place, writer_step, write_msg, act, fire,
  run,
}

-- The answers of the system by which all of a message is written.
abbrev pub works : Text → Disk
works m = record { opens = true; rc = some (length m); flushes = true }

-- Four steps for each message.
abbrev pub turns : List Text → List Event
turns [] = []
turns (m ∷ ms) =
    Event.writer_moves (works m)
    ∷ Event.writer_moves (works m)
    ∷ Event.writer_moves (works m)
    ∷ Event.writer_moves (works m)
    ∷ turns ms

-- The state between two rounds of the loop of the thread.
abbrev between : List Text → List Text → Bool → System → System
between items file opened s = record s {
  writer = record {
    msg_queue = record { items = items; is_canceled = false };
    pending_write = false;
    is_open = opened;
    file = file;
    place = Place.popping;
  };
}

-- Whether the file is open, after the first messages.
abbrev opened_after : List Text → Bool → Bool
opened_after [] opened = opened
opened_after (m ∷ ms) opened = opened_after ms true

write_msg-works : (m : Text) (opened : Bool) → write_msg (works m) opened m ≡ Written.done
unfolding write_msg
write_msg-works m true = ground (arith, ==_iff (length m) (length m))
write_msg-works m false = ground (arith, ==_iff (length m) (length m))

run-turns :
    (ms : List Text) (file : List Text) (opened : Bool) (rest : List Event) (s : System)
    → run (turns ms ++ rest) (between ms file opened s)
      ≡ run rest (between [] (file ++ ms) (opened_after ms opened) s)
unfolding run fire writer_step from_place Queue.pop Queue.take_front
run-turns [] file opened rest s = ap (λ f. run rest (between [] f opened s)) (sym (append-nil file))
run-turns (m ∷ ms) file opened rest s =
    ap
      (λ (r : Written). run (turns ms ++ rest) (record s {
        writer = writer_step (works m) (
            after_write r m Place.wrote (Place.leaving (m ∷ [])) (record {
              msg_queue = record { items = ms; is_canceled = false };
              pending_write = true;
              is_open = opened;
              file = file;
              place = Place.writes m;
            }));
      }))
      (write_msg-works m opened)
    ∙ run-turns ms (file ++ m ∷ []) true rest s
    ∙ ap (λ f. run rest (between [] f (opened_after ms true) s)) (append_assoc file (m ∷ []) ms)

flush-acts :
    (rest : List Action) (file : List Text) (opened : Bool) (s : System)
    → let s' =
        run
          (Event.acts ∷ Event.acts ∷ [])
          (between [] file opened (record s { actions = Action.flush ∷ rest })) in
      (s'.actions ≡ rest) × (s'.writer.file ≡ file)
unfolding run fire act Queue.is_empty
flush-acts rest file opened s = (refl, refl)

-- From a state in which the thread of the LogWriter is at `value_pop`, the queue is not closed and
-- pending_write is reset, and while all that is written gets to the disk, that thread alone writes
-- all messages of the queue, in order, in four steps for each; then a flush passes with its two
-- tests.
pub flush_returns :
    (s : System) (rest : List Action)
    → s.writer.place ≡ Place.popping
    → s.writer.msg_queue.is_canceled ≡ false
    → s.writer.pending_write ≡ false
    → s.actions ≡ Action.flush ∷ rest
    → let items = s.writer.msg_queue.items in
      let s' = run (turns items ++ (Event.acts ∷ Event.acts ∷ [])) s in
      (s'.actions ≡ rest) × (s'.writer.file ≡ s.writer.file ++ items)
flush_returns s rest at_pop goes idle flushing =
    let items = s.writer.msg_queue.items in
    let two = Event.acts ∷ Event.acts ∷ [] in
    let start : s
        ≡ between items s.writer.file s.writer.is_open
            (record s { actions = Action.flush ∷ rest }) =
      λ i. record s {
        writer = record s.writer {
          msg_queue = record { items = items; is_canceled = goes i };
          pending_write = idle i;
          place = at_pop i;
        };
        actions = flushing i;
      } in
    let end =
      ap (run (turns items ++ two)) start
      ∙ run-turns items s.writer.file s.writer.is_open two
          (record s { actions = Action.flush ∷ rest }) in
    let (passed, kept) =
      flush-acts rest (s.writer.file ++ items) (opened_after items s.writer.is_open) s in
    (ap (λ z. z.actions) end ∙ passed, ap (λ z. z.writer.file) end ∙ kept)
