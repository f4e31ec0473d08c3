-- ===== src/Async/Buffer/Sound.antt =====
-- The invariant of what the threads around an async_buffer share, step by step.
use cogutil.Base.{
  ℕ, suc, ◌+◌, ◌≤◌, Bool, true, false, List, [], ◌∷◌, ◌++◌, ◌≡◌, arith, length, zero,
}
use cogutil.Base.Order.{Less}
use cogutil.Concurrent.Chan.{Outcome, returns, throws, waits}
use cogutil.Concurrent.Set
use cogutil.Async.Invariant.{Measures}
use cogutil.Async.Threads.{total, total-append, gathered, bit}
use cogutil.Async.Buffer.{
  Shared, Writer, Client, writer_step, client_step, writer_inserted, client_inserted,
}
use cogutil.Async.Buffer.Inserts.{Inserts, insert-Inserts}

module _ {ℓ} {A : Type ℓ} where
  -- What a thread counts for in `_pending`: the elements it has got, and those it has counted and
  -- not yet inserted, or inserted in vain.
  abbrev pub flight : Writer A → ℕ
  flight Writer.idle = 0
  flight Writer.getting = 0
  flight Writer.gone = 0
  flight (Writer.inserting x y) = 2
  flight (Writer.tallying x false) = 2
  flight (Writer.doubling x) = 2
  flight (Writer.undoing x) = 2
  flight w = 1

  abbrev pub ahead : Client A → ℕ
  ahead (Client.inserts x) = 1
  ahead (Client.tallies false) = 1
  ahead Client.doubles = 1
  ahead Client.undoes = 1
  ahead (Client.stop_writes x) = 1
  ahead c = 0

  -- Whether a thread holds `_enqueue_mutex`.
  abbrev pub writer_holds : Writer A → ℕ
  writer_holds (Writer.saving x) = 1
  writer_holds (Writer.lifting x save) = 1
  writer_holds (Writer.flush_counting x save) = 1
  writer_holds (Writer.flushing x save) = 1
  writer_holds (Writer.restoring x save) = 1
  writer_holds w = 0

  abbrev pub client_holds : Client A → ℕ
  client_holds (Client.counts x) = 1
  client_holds (Client.inserts x) = 1
  client_holds (Client.tallies new) = 1
  client_holds Client.doubles = 1
  client_holds Client.undoes = 1
  client_holds Client.barrier_saves = 1
  client_holds (Client.barrier_lifts save) = 1
  client_holds (Client.barrier_counts save) = 1
  client_holds (Client.barrier_waits save) = 1
  client_holds (Client.barrier_restores save) = 1
  client_holds c = 0

  -- The elements that a thread has got and not yet written.
  abbrev pub in_hand : Writer A → List A
  in_hand Writer.idle = []
  in_hand Writer.getting = []
  in_hand Writer.returned = []
  in_hand Writer.uncounted = []
  in_hand Writer.gone = []
  in_hand (Writer.got x) = x ∷ []
  in_hand (Writer.calling x) = x ∷ []
  in_hand (Writer.entering x y) = x ∷ []
  in_hand (Writer.passed x y) = x ∷ []
  in_hand (Writer.counting x y) = x ∷ []
  in_hand (Writer.inserting x y) = x ∷ []
  in_hand (Writer.tallying x new) = x ∷ []
  in_hand (Writer.doubling x) = x ∷ []
  in_hand (Writer.undoing x) = x ∷ []
  in_hand (Writer.fencing x) = x ∷ []
  in_hand (Writer.saving x) = x ∷ []
  in_hand (Writer.lifting x save) = x ∷ []
  in_hand (Writer.flush_counting x save) = x ∷ []
  in_hand (Writer.flushing x save) = x ∷ []
  in_hand (Writer.restoring x save) = x ∷ []

  abbrev pub dregs_of : Client A → List A
  dregs_of (Client.stop_writes x) = x ∷ []
  dregs_of c = []

  abbrev pub all_in_hand : List (Writer A) → List (Client A) → List A
  all_in_hand ts cs = gathered in_hand ts ++ gathered dregs_of cs

module _ {ℓ} {A : Type ℓ} (w : A → ℕ) where
  -- The weight of that.
  abbrev pub held : Writer A → ℕ
  held t = total w (in_hand t)

  abbrev pub dregs : Client A → ℕ
  dregs c = total w (dregs_of c)

  -- The invariant, with the sums over the threads that do not move left open: what waits and
  -- is under way is counted in `_pending`; what is written, under way and waiting is what was accepted;
  -- the mutex has at most one holder.
  pub record Sound (s : Shared A) (flights holders weight : ℕ) : Type 0 where
    pub counted : length s.store.items + flights ≤ s.pending
    pub kept : total w s.log + weight + total w s.store.items ≡ total w s.accepted
    pub mutex : holders ≡ bit s.locked

  abbrev pub measures : Measures (Writer A) (Client A) (Shared A)
  measures = record {
    writer_flight = flight;
    client_flight = ahead;
    writer_holds = writer_holds;
    client_holds = client_holds;
    writer_weight = held;
    client_weight = dregs;
    Holds = Sound;
  }

module _ {ℓ} {A : Type ℓ} (o : Less A) (w : A → ℕ) where
  writer_inserted-Sound :
      (x y : A) (s : Shared A) (f h r : ℕ) (out : Outcome A Bool)
      → Inserts o w y s.store out
      → Sound w s (2 + f) (0 + h) (w x + 0 + r)
      → Sound w
          (writer_inserted x y s out).1
          (flight (writer_inserted x y s out).0 + f)
          (writer_holds (writer_inserted x y s out).0 + h)
          (held w (writer_inserted x y s out).0 + r)
  writer_inserted-Sound x y s f h r (returns true q g) e i =
      omega (arith, e, i.counted, i.kept, i.mutex, total-append w s.accepted (y ∷ []))
  writer_inserted-Sound x y s f h r (returns false q g) e i =
      omega (arith, e, i.counted, i.kept, i.mutex)
  writer_inserted-Sound x y s f h r throws e i = omega (arith, i.counted, i.kept, i.mutex)
  writer_inserted-Sound x y s f h r waits e i = omega (arith, i.counted, i.kept, i.mutex)

  client_inserted-Sound :
      (y : A) (s : Shared A) (f h r : ℕ) (out : Outcome A Bool)
      → Inserts o w y s.store out
      → Sound w s (1 + f) (1 + h) (0 + r)
      → Sound w
          (client_inserted y s out).1
          (ahead (client_inserted y s out).0 + f)
          (client_holds (client_inserted y s out).0 + h)
          (dregs w (client_inserted y s out).0 + r)
  client_inserted-Sound y s f h r (returns true q g) e i =
      omega (arith, e, i.counted, i.kept, i.mutex, total-append w s.accepted (y ∷ []))
  client_inserted-Sound y s f h r (returns false q g) e i =
      omega (arith, e, i.counted, i.kept, i.mutex)
  client_inserted-Sound y s f h r throws e i = ground (arith, i.counted, i.kept, i.mutex)
  client_inserted-Sound y s f h r waits e i = omega (arith, i.counted, i.kept, i.mutex)

  pub writer_step-Sound :
      (t : Writer A) (s : Shared A) (f h r : ℕ)
      → Sound w s (flight t + f) (writer_holds t + h) (held w t + r)
      → Sound w
          (writer_step o t s).1
          (flight (writer_step o t s).0 + f)
          (writer_holds (writer_step o t s).0 + h)
          (held w (writer_step o t s).0 + r)
  unfolding writer_step Set.get Set.take_first Set.size
  writer_step-Sound (Writer.calling x) s f h r i = ground (arith, total-append w s.log (x ∷ []))
  writer_step-Sound (Writer.passed x y) s f h r i =
      ground (arith, total-append w s.log (y ∷ []), total-append w s.accepted (y ∷ []))
  writer_step-Sound (Writer.inserting x y) s f h r i =
      writer_inserted-Sound x y s f h r (Set.insert o y s.store) (insert-Inserts o w y s.store) i
  writer_step-Sound (Writer.tallying x true) s f h r i = ground arith
  writer_step-Sound (Writer.tallying x false) s f h r i = ground arith
  writer_step-Sound t s f h r i = ground arith

  pub client_step-Sound :
      (joined : Bool) (msec : ℕ) (t : Client A) (s : Shared A) (f h r : ℕ)
      → Sound w s (ahead t + f) (client_holds t + h) (dregs w t + r)
      → Sound w
          (client_step o joined msec t s).1
          (ahead (client_step o joined msec t s).0 + f)
          (client_holds (client_step o joined msec t s).0 + h)
          (dregs w (client_step o joined msec t s).0 + r)
  unfolding client_step Set.get Set.take_first Set.size Set.is_empty Set.cancel Set.cancel_reset
  client_step-Sound joined msec (Client.passes x) s f h r i =
      ground (arith, total-append w s.log (x ∷ []), total-append w s.accepted (x ∷ []))
  client_step-Sound joined msec (Client.inserts x) s f h r i =
      client_inserted-Sound x s f h r (Set.insert o x s.store) (insert-Inserts o w x s.store) i
  client_step-Sound joined msec (Client.tallies true) s f h r i = ground arith
  client_step-Sound joined msec (Client.tallies false) s f h r i = ground arith
  client_step-Sound joined msec (Client.stop_writes x) s f h r i =
      ground (arith, total-append w s.log (x ∷ []))
  client_step-Sound joined msec (Client.opens zero) s f h r i = ground arith
  client_step-Sound joined msec (Client.opens (suc n)) s f h r i = ground arith
  client_step-Sound joined msec t s f h r i = ground arith
