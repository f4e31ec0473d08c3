-- ===== src/Async/Buffer/Exact.antt =====
-- What the threads around an async_buffer write, and when `barrier` returns.
use cogutil.Base.{
  ℕ, zero, suc, ◌+◌, Bool, true, false, List, [], ◌∷◌, ◌++◌, Option, none, some, if◌then◌else◌, ◌≡◌,
  refl, arith, ◌||◌, ap, length_zero,
}
use cogutil.Base.Order.{Less}
use cogutil.Concurrent.Monitor.{pick}
use cogutil.Concurrent.Set
use cogutil.Async.Invariant.{AllHold, writer_keeps, client_keeps, writer_turns}
use cogutil.Async.Threads.{
  total, total-append, total-pick, SameItems, gathered, total-gathered, total_zero, total-repeat,
  bit_le,
}
use cogutil.Async.Buffer.{Shared, Writer, Client, writer_step, client_step}
use cogutil.Async.Buffer.Schedule.{
  System, Event, create, fire, run, write_next, move_next, method_calls, all_gone, spawned,
}
use cogutil.Async.Buffer.Sound.{
  flight, ahead, writer_holds, client_holds, in_hand, dregs_of, all_in_hand, held, dregs, measures,
  writer_step-Sound, client_step-Sound,
}

module _ {ℓ} {A : Type ℓ} (o : Less A) (w : A → ℕ) where
  -- The invariant of all threads.
  abbrev pub Inv : System A → Type 0
  Inv s = AllHold (measures w) s.shared s.writers s.clients

  writes-Inv :
      (s : System A) (i : ℕ) (p : Option (Writer A × List (Writer A)))
      → pick i s.writers ≡ p
      → Inv s
      → Inv (write_next o s p)
  writes-Inv s i none e v = v
  writes-Inv s i (some (t, rest)) e v =
      writer_keeps (measures w) s.shared s.writers s.clients i (writer_step o) t rest
        (writer_step-Sound o w) e v

  -- A thread that starts holds nothing.
  started-Inv :
      (b : Bool) (s : Shared A) (ts : List (Writer A)) (cs : List (Client A))
      → AllHold (measures w) s ts cs
      → AllHold (measures w) s ((if b then [] else Writer.idle ∷ []) ++ ts) cs
  started-Inv true s ts cs v = v
  started-Inv false s ts cs v = omega (arith, v.counted, v.kept, v.mutex)

  spawned-Inv :
      (c : Client A) (s s' : Shared A) (ts : List (Writer A)) (cs : List (Client A))
      → AllHold (measures w) s' ts cs
      → AllHold (measures w) s' (spawned c s ++ ts) cs
  spawned-Inv (Client.opens (suc n)) s s' ts cs v =
      started-Inv (s.write_locked || s.stopping) s' ts cs v
  spawned-Inv (Client.opens zero) s s' ts cs v = v
  spawned-Inv c s s' ts cs v = v

  moves-Inv :
      (s : System A) (i msec : ℕ) (p : Option (Client A × List (Client A)))
      → pick i s.clients ≡ p
      → Inv s
      → Inv (move_next o msec s p)
  moves-Inv s i msec none e v = v
  moves-Inv s i msec (some (t, rest)) e v =
      spawned-Inv t s.shared (client_step o (all_gone s.writers) msec t s.shared).1 s.writers
        ((client_step o (all_gone s.writers) msec t s.shared).0 ∷ rest)
        (client_keeps (measures w) s.shared s.writers s.clients i
          (client_step o (all_gone s.writers) msec) t rest
          (client_step-Sound o w (all_gone s.writers) msec) e v)

  module _ (f : A → Writer A) (flies : (x : A) → flight (f x) ≡ 1)
      (free : (x : A) → writer_holds (f x) ≡ 0) (holds : (x : A) → held w (f x) ≡ w x + 0) where
    calls-Inv :
        (s : System A) (i : ℕ) (p : Option (Writer A × List (Writer A)))
        → pick i s.writers ≡ p
        → Inv s
        → Inv (method_calls f s p)
    calls-Inv s i (some (Writer.calling x, rest)) e v =
        writer_turns (measures w) s.shared s.writers s.clients i (Writer.calling x) (f x) rest
          (flies x) (free x) (holds x) e v
    calls-Inv s i _ e v = v

  fire-Inv : (e : Event A) (s : System A) → Inv s → Inv (fire o e s)
  unfolding fire
  fire-Inv (Event.inserts x) s v = omega (arith, v.counted, v.kept, v.mutex)
  fire-Inv Event.barriers s v = omega (arith, v.counted, v.kept, v.mutex)
  fire-Inv Event.flushes s v = omega (arith, v.counted, v.kept, v.mutex)
  fire-Inv Event.stops s v = omega (arith, v.counted, v.kept, v.mutex)
  fire-Inv (Event.opens n) s v = omega (arith, v.counted, v.kept, v.mutex)
  fire-Inv (Event.stalls b) s v = omega (arith, v.counted, v.kept, v.mutex)
  fire-Inv Event.clears s v = omega (arith, v.counted, v.kept, v.mutex)
  fire-Inv (Event.marks hi lo) s v = omega (arith, v.counted, v.kept, v.mutex)
  fire-Inv (Event.writes i) s v = writes-Inv s i (pick i s.writers) refl v
  fire-Inv (Event.nests i y) s v =
      calls-Inv (λ x. Writer.entering x y) (λ x. refl) (λ x. refl) (λ x. refl) s i
        (pick i s.writers) refl v
  fire-Inv (Event.fences i) s v =
      calls-Inv Writer.fencing (λ x. refl) (λ x. refl) (λ x. refl) s i (pick i s.writers) refl v
  fire-Inv (Event.moves i msec) s v = moves-Inv s i msec (pick i s.clients) refl v

  pub run-Inv : (es : List (Event A)) (s : System A) → Inv s → Inv (run o es s)
  unfolding run
  run-Inv [] s v = v
  run-Inv (e ∷ es) s v = run-Inv es (fire o e s) (fire-Inv e s v)

  pub create-Inv : (n : ℕ) → Inv (create n)
  unfolding Set.create
  create-Inv n = omega (
    arith,
    total-repeat (flight {A = A}) n Writer.idle refl,
    total-repeat (writer_holds {A = A}) n Writer.idle refl,
    total-repeat (held w) n Writer.idle refl,
  )

  total-all_in_hand :
      (ts : List (Writer A)) (cs : List (Client A))
      → total w (all_in_hand ts cs) ≡ total (held w) ts + total (dregs w) cs
  total-all_in_hand ts cs = omega (
    arith,
    total-append w (gathered in_hand ts) (gathered dregs_of cs),
    total-gathered w in_hand ts,
    total-gathered w dregs_of cs,
  )

  held_of_flight : (t : Writer A) → flight t ≡ 0 → held w t ≡ 0
  held_of_flight Writer.idle e = omega arith
  held_of_flight Writer.gone e = omega arith
  held_of_flight (Writer.tallying x true) e = omega (arith, e)
  held_of_flight (Writer.tallying x false) e = omega (arith, e)
  held_of_flight Writer.getting e = omega arith
  held_of_flight t e = omega (arith, e)

  dregs_of_ahead : (c : Client A) → ahead c ≡ 0 → dregs w c ≡ 0
  dregs_of_ahead (Client.stop_writes x) e = omega (arith, e)
  dregs_of_ahead c e = omega arith

  drained_lem :
      (s : System A)
      → Inv s
      → s.shared.pending ≡ 0
      → total w s.shared.log ≡ total w s.shared.accepted
  drained_lem s v e = omega (
    arith,
    v.kept,
    total_zero flight (held w) s.writers held_of_flight (omega (arith, v.counted, e)),
    total_zero ahead (dregs w) s.clients dregs_of_ahead (omega (arith, v.counted, e)),
    ap (total w) (length_zero s.shared.store.items (omega (arith, v.counted, e))),
  )

module _ {ℓ} {A : Type ℓ} (o : Less A) where
  -- In every interleaving of any calls around an async_buffer with any number of writer threads,
  -- exceptions, stalls, and the stopping and starting of threads included, what was written, what a thread has taken
  -- to write it, and what is in the set are together what was new to the set or
  -- written at once: no element is lost, written
  -- twice or made up.
  pub written_once_by_buffer :
      (n : ℕ) (es : List (Event A))
      → let s = run o es (create n) in
        SameItems
          (s.shared.log ++ (all_in_hand s.writers s.clients ++ s.shared.store.items))
          s.shared.accepted
  written_once_by_buffer n es w =
      let s = run o es (create n) in
      let v = run-Inv o w es (create n) (create-Inv o w n) in
      omega (
        arith,
        v.kept,
        total-append w s.shared.log (all_in_hand s.writers s.clients ++ s.shared.store.items),
        total-append w (all_in_hand s.writers s.clients) s.shared.store.items,
        total-all_in_hand o w s.writers s.clients,
      )

  passed_barrier :
      (joined save : Bool) (msec : ℕ) (s s' : Shared A)
      → client_step o joined msec (Client.barrier_waits save) s ≡ (Client.barrier_restores save, s')
      → (s.pending ≡ 0) × (s'.log ≡ s.log) × (s'.accepted ≡ s.accepted) × (s'.store ≡ s.store)
  unfolding client_step
  passed_barrier joined save msec s s' h = ground arith

  -- When a `barrier` that waits in the loop of `drain` passes, in any reachable state, everything
  -- that was ever accepted has been written, the set is empty, and no other thread stands between
  -- the lock and the unlock of `_enqueue_mutex`.
  pub barrier_of_buffer :
      (n : ℕ) (es : List (Event A)) (i msec : ℕ) (joined save : Bool) (rest : List (Client A))
      (s' : Shared A)
      → pick i (run o es (create n)).clients ≡ some (Client.barrier_waits save, rest)
      → client_step o joined msec (Client.barrier_waits save) (run o es (create n)).shared
        ≡ (Client.barrier_restores save, s')
      → SameItems s'.log s'.accepted
        × (s'.store.items ≡ [])
        × (total client_holds rest + total writer_holds (run o es (create n)).writers ≡ 0)
  barrier_of_buffer n es i msec joined save rest s' p h =
      let s = run o es (create n) in
      let (none_pending, same_log, same_accepted, same_queue) =
        passed_barrier joined save msec s.shared s' h in
      let v = run-Inv o (λ a. 0) es (create n) (create-Inv o (λ a. 0) n) in
      (
        (λ w.
            rw (same_log, same_accepted)
              (drained_lem o w s (run-Inv o w es (create n) (create-Inv o w n)) none_pending)),
        rw same_queue (length_zero s.shared.store.items (omega (arith, v.counted, none_pending))),
        omega (
          arith,
          v.mutex,
          total-pick client_holds i s.clients (Client.barrier_waits save) rest p,
          bit_le s.shared.locked,
        ),
      )
