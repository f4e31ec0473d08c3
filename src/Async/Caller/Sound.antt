-- ===== src/Async/Caller/Sound.antt =====
-- The invariant of what the threads around an async_caller share, step by step.
use cogutil.Base.{ℕ, ◌+◌, ◌≤◌, Bool, List, [], ◌∷◌, ◌++◌, ◌≡◌, arith, length, length-append}
use cogutil.Concurrent.Queue
use cogutil.Async.Invariant.{Measures}
use cogutil.Async.Threads.{total, total-append, gathered, bit}
use cogutil.Async.Caller.{Shared, Writer, Client, writer_step, client_step}

module _ {ℓ} {A : Type ℓ} where
  -- What a thread counts for in `_pending`: the elements it has popped, and those it has counted
  -- and not yet pushed.
  abbrev pub flight : Writer A → ℕ
  flight Writer.popping = 0
  flight Writer.gone = 0
  flight (Writer.inserting x y) = 2
  flight w = 1

  abbrev pub ahead : Client A → ℕ
  ahead (Client.inserts x) = 1
  ahead (Client.stop_writes x) = 1
  ahead c = 0

  -- Whether a thread holds `_enqueue_mutex`.
  abbrev pub writer_holds : Writer A → ℕ
  writer_holds (Writer.fenced x) = 1
  writer_holds (Writer.flushing x) = 1
  writer_holds w = 0

  abbrev pub client_holds : Client A → ℕ
  client_holds (Client.counts x) = 1
  client_holds (Client.inserts x) = 1
  client_holds Client.tallies = 1
  client_holds Client.barrier_counts = 1
  client_holds Client.barrier_waits = 1
  client_holds c = 0

  -- The elements that a thread has popped and not yet written.
  abbrev pub in_hand : Writer A → List A
  in_hand (Writer.popped x) = x ∷ []
  in_hand (Writer.calling x) = x ∷ []
  in_hand (Writer.entering x y) = x ∷ []
  in_hand (Writer.passed x y) = x ∷ []
  in_hand (Writer.counting x y) = x ∷ []
  in_hand (Writer.inserting x y) = x ∷ []
  in_hand (Writer.tallying x) = x ∷ []
  in_hand (Writer.fencing x) = x ∷ []
  in_hand (Writer.fenced x) = x ∷ []
  in_hand (Writer.flushing x) = x ∷ []
  in_hand _ = []

  abbrev pub dregs_of : Client A → List A
  dregs_of (Client.stop_writes x) = x ∷ []
  dregs_of c = []

  abbrev pub all_in_hand : List (Writer A) → List (Client A) → List A
  all_in_hand ts cs = gathered in_hand ts ++ gathered dregs_of cs

module _ {ℓ} {A : Type ℓ} (w : A → ℕ) where
  -- The weight of that.
  abbrev pub held : Writer A → ℕ
  held t = total w (in_hand t)

  abbrev pub dregs : Client A → ℕ
  dregs c = total w (dregs_of c)

  -- The invariant, with the sums over the threads that do not move left open: what is queued and
  -- under way is counted in `_pending`; what is written, under way and queued is what was accepted;
  -- the mutex has at most one holder.
  pub record Sound (s : Shared A) (flights holders weight : ℕ) : Type 0 where
    pub counted : length s.queue.items + flights ≤ s.pending
    pub kept : total w s.log + weight + total w s.queue.items ≡ total w s.accepted
    pub mutex : holders ≡ bit s.locked

  pub writer_step-Sound :
      (t : Writer A) (s : Shared A) (f h r : ℕ)
      → Sound s (flight t + f) (writer_holds t + h) (held t + r)
      → Sound
          (writer_step t s).1
          (flight (writer_step t s).0 + f)
          (writer_holds (writer_step t s).0 + h)
          (held (writer_step t s).0 + r)
  unfolding writer_step Queue.pop Queue.push Queue.take_front Queue.size
  writer_step-Sound Writer.popping s f h r i = ground arith
  writer_step-Sound (Writer.popped x) s f h r i = ground arith
  writer_step-Sound (Writer.calling x) s f h r i = ground (arith, total-append w s.log (x ∷ []))
  writer_step-Sound Writer.returned s f h r i = ground arith
  writer_step-Sound Writer.uncounted s f h r i = ground arith
  writer_step-Sound Writer.gone s f h r i = ground arith
  writer_step-Sound (Writer.entering x y) s f h r i = ground arith
  writer_step-Sound (Writer.passed x y) s f h r i =
      ground (arith, total-append w s.log (y ∷ []), total-append w s.accepted (y ∷ []))
  writer_step-Sound (Writer.counting x y) s f h r i = ground arith
  writer_step-Sound (Writer.inserting x y) s f h r i = ground (
    arith,
    total-append w s.queue.items (y ∷ []),
    total-append w s.accepted (y ∷ []),
    length-append s.queue.items (y ∷ []),
  )
  writer_step-Sound (Writer.tallying x) s f h r i = ground arith
  writer_step-Sound (Writer.fencing x) s f h r i = ground arith
  writer_step-Sound (Writer.fenced x) s f h r i = ground arith
  writer_step-Sound (Writer.flushing x) s f h r i = ground arith

  pub client_step-Sound :
      (joined : Bool) (msec : ℕ) (t : Client A) (s : Shared A) (f h r : ℕ)
      → Sound s (ahead t + f) (client_holds t + h) (dregs t + r)
      → Sound
          (client_step joined msec t s).1
          (ahead (client_step joined msec t s).0 + f)
          (client_holds (client_step joined msec t s).0 + h)
          (dregs (client_step joined msec t s).0 + r)
  unfolding client_step Queue.pop Queue.push Queue.take_front Queue.size Queue.is_empty Queue.cancel
      Queue.cancel_reset
  client_step-Sound joined msec (Client.passes x) s f h r i =
      ground (arith, total-append w s.log (x ∷ []), total-append w s.accepted (x ∷ []))
  client_step-Sound joined msec (Client.inserts x) s f h r i = ground (
    arith,
    total-append w s.queue.items (x ∷ []),
    total-append w s.accepted (x ∷ []),
    length-append s.queue.items (x ∷ []),
  )
  client_step-Sound joined msec (Client.stop_writes x) s f h r i =
      ground (arith, total-append w s.log (x ∷ []))
  client_step-Sound joined msec t s f h r i = ground arith

  abbrev pub measures : Measures (Writer A) (Client A) (Shared A)
  measures = record {
    writer_flight = flight;
    client_flight = ahead;
    writer_holds = writer_holds;
    client_holds = client_holds;
    writer_weight = held;
    client_weight = dregs;
    Holds = Sound;
  }
