-- ===== src/Async/Caller/Exact.antt =====
-- What the threads around an async_caller write, and when `barrier` returns.
use cogutil.Base.{
  ℕ, ◌+◌, Bool, List, [], ◌∷◌, ◌++◌, Option, none, some, ◌≡◌, refl, arith, ap, length_zero,
}
use cogutil.Concurrent.Monitor.{pick}
use cogutil.Concurrent.Queue
use cogutil.Async.Invariant.{AllHold, writer_keeps, client_keeps, writer_turns}
use cogutil.Async.Threads.{
  total, total-append, total-pick, SameItems, gathered, total-gathered, total_zero, total-repeat,
  bit_le,
}
use cogutil.Async.Caller.{Shared, Writer, Client, writer_step, client_step}
use cogutil.Async.Caller.Schedule.{
  System, Event, create, fire, run, write_next, move_next, method_calls, all_gone,
}
use cogutil.Async.Caller.Sound.{
  flight, ahead, writer_holds, client_holds, in_hand, dregs_of, all_in_hand, held, dregs, measures,
  writer_step-Sound, client_step-Sound,
}

module _ {ℓ} {A : Type ℓ} (w : A → ℕ) where
  -- The invariant of all threads.
  abbrev pub Inv : System A → Type 0
  Inv s = AllHold (measures w) s.shared s.writers s.clients

  writes-Inv :
      (s : System A) (i : ℕ) (o : Option (Writer A × List (Writer A)))
      → pick i s.writers ≡ o
      → Inv s
      → Inv (write_next s o)
  writes-Inv s i none e v = v
  writes-Inv s i (some (t, rest)) e v =
      writer_keeps (measures w) s.shared s.writers s.clients i writer_step t rest
        (writer_step-Sound w) e v

  moves-Inv :
      (s : System A) (i msec : ℕ) (o : Option (Client A × List (Client A)))
      → pick i s.clients ≡ o
      → Inv s
      → Inv (move_next msec s o)
  moves-Inv s i msec none e v = v
  moves-Inv s i msec (some (t, rest)) e v =
      client_keeps (measures w) s.shared s.writers s.clients i
        (client_step (all_gone s.writers) msec) t rest
        (client_step-Sound w (all_gone s.writers) msec) e v

  module _ (f : A → Writer A) (flies : (x : A) → flight (f x) ≡ 1)
      (free : (x : A) → writer_holds (f x) ≡ 0) (holds : (x : A) → held w (f x) ≡ w x + 0) where
    calls-Inv :
        (s : System A) (i : ℕ) (o : Option (Writer A × List (Writer A)))
        → pick i s.writers ≡ o
        → Inv s
        → Inv (method_calls f s o)
    calls-Inv s i (some (Writer.calling x, rest)) e v =
        writer_turns (measures w) s.shared s.writers s.clients i (Writer.calling x) (f x) rest
          (flies x) (free x) (holds x) e v
    calls-Inv s i _ e v = v

  fire-Inv : (e : Event A) (s : System A) → Inv s → Inv (fire e s)
  unfolding fire
  fire-Inv (Event.enqueues x) s v = omega (arith, v.counted, v.kept, v.mutex)
  fire-Inv Event.barriers s v = omega (arith, v.counted, v.kept, v.mutex)
  fire-Inv Event.flushes s v = omega (arith, v.counted, v.kept, v.mutex)
  fire-Inv Event.stops s v = omega (arith, v.counted, v.kept, v.mutex)
  fire-Inv Event.clears s v = omega (arith, v.counted, v.kept, v.mutex)
  fire-Inv (Event.marks hi lo) s v = omega (arith, v.counted, v.kept, v.mutex)
  fire-Inv (Event.writes i) s v = writes-Inv s i (pick i s.writers) refl v
  fire-Inv (Event.nests i y) s v =
      calls-Inv (λ x. Writer.entering x y) (λ x. refl) (λ x. refl) (λ x. refl) s i
        (pick i s.writers) refl v
  fire-Inv (Event.fences i) s v =
      calls-Inv Writer.fencing (λ x. refl) (λ x. refl) (λ x. refl) s i (pick i s.writers) refl v
  fire-Inv (Event.moves i msec) s v = moves-Inv s i msec (pick i s.clients) refl v

  pub run-Inv : (es : List (Event A)) (s : System A) → Inv s → Inv (run es s)
  unfolding run
  run-Inv [] s v = v
  run-Inv (e ∷ es) s v = run-Inv es (fire e s) (fire-Inv e s v)

  pub create-Inv : (n : ℕ) → Inv (create n)
  unfolding Queue.create
  create-Inv n = omega (
    arith,
    total-repeat (flight {A = A}) n Writer.popping refl,
    total-repeat (writer_holds {A = A}) n Writer.popping refl,
    total-repeat (held w) n Writer.popping refl,
  )

  total-all_in_hand :
      (ts : List (Writer A)) (cs : List (Client A))
      → total w (all_in_hand ts cs) ≡ total (held w) ts + total (dregs w) cs
  total-all_in_hand ts cs = omega (
    arith,
    total-append w (gathered in_hand ts) (gathered dregs_of cs),
    total-gathered w in_hand ts,
    total-gathered w dregs_of cs,
  )

  held_of_flight : (t : Writer A) → flight t ≡ 0 → held w t ≡ 0
  held_of_flight Writer.popping e = omega arith
  held_of_flight Writer.gone e = omega arith
  held_of_flight t e = omega (arith, e)

  dregs_of_ahead : (c : Client A) → ahead c ≡ 0 → dregs w c ≡ 0
  dregs_of_ahead (Client.stop_writes x) e = omega (arith, e)
  dregs_of_ahead c e = omega arith

  drained_lem :
      (s : System A)
      → Inv s
      → s.shared.pending ≡ 0
      → total w s.shared.log ≡ total w s.shared.accepted
  drained_lem s v e = omega (
    arith,
    v.kept,
    total_zero flight (held w) s.writers held_of_flight (omega (arith, v.counted, e)),
    total_zero ahead (dregs w) s.clients dregs_of_ahead (omega (arith, v.counted, e)),
    ap (total w) (length_zero s.shared.queue.items (omega (arith, v.counted, e))),
  )

module _ {ℓ} {A : Type ℓ} where
  -- In every interleaving of any calls around an async_caller with any number of writer threads,
  -- exceptions and the stopping of the threads included, what was written, what a thread has taken
  -- to write it, and what is queued are together what was accepted: no element is lost, written
  -- twice or made up.
  pub written_once :
      (n : ℕ) (es : List (Event A))
      → let s = run es (create n) in
        SameItems
          (s.shared.log ++ (all_in_hand s.writers s.clients ++ s.shared.queue.items))
          s.shared.accepted
  written_once n es w =
      let s = run es (create n) in
      let v = run-Inv w es (create n) (create-Inv w n) in
      omega (
        arith,
        v.kept,
        total-append w s.shared.log (all_in_hand s.writers s.clients ++ s.shared.queue.items),
        total-append w (all_in_hand s.writers s.clients) s.shared.queue.items,
        total-all_in_hand w s.writers s.clients,
      )

  passed_barrier :
      (joined : Bool) (msec : ℕ) (s s' : Shared A)
      → client_step joined msec Client.barrier_waits s ≡ (Client.done, s')
      → (s.pending ≡ 0) × (s'.log ≡ s.log) × (s'.accepted ≡ s.accepted) × (s'.queue ≡ s.queue)
  unfolding client_step
  passed_barrier joined msec s s' h = ground arith

  -- When a `barrier` that waits in the loop of `drain` passes, in any reachable state, everything
  -- that was ever accepted has been written, the queue is empty, and no other thread stands between
  -- the lock and the unlock of `_enqueue_mutex`.
  pub barrier_lem :
      (n : ℕ) (es : List (Event A)) (i msec : ℕ) (joined : Bool) (rest : List (Client A))
      (s' : Shared A)
      → pick i (run es (create n)).clients ≡ some (Client.barrier_waits, rest)
      → client_step joined msec Client.barrier_waits (run es (create n)).shared ≡ (Client.done, s')
      → SameItems s'.log s'.accepted
        × (s'.queue.items ≡ [])
        × (total client_holds rest + total writer_holds (run es (create n)).writers ≡ 0)
  barrier_lem n es i msec joined rest s' p h =
      let s = run es (create n) in
      let (none_pending, same_log, same_accepted, same_queue) =
        passed_barrier joined msec s.shared s' h in
      let v = run-Inv (λ a. 0) es (create n) (create-Inv (λ a. 0) n) in
      (
        (λ w.
            rw (same_log, same_accepted)
              (drained_lem w s (run-Inv w es (create n) (create-Inv w n)) none_pending)),
        rw same_queue (length_zero s.shared.queue.items (omega (arith, v.counted, none_pending))),
        omega (
          arith,
          v.mutex,
          total-pick client_holds i s.clients Client.barrier_waits rest p,
          bit_le s.shared.locked,
        ),
      )
