-- ===== src/Async/Buffer/Schedule.antt =====
-- The threads around one async_buffer, interleaved in any order: a schedule is a list of events,
-- and an event that cannot happen changes nothing.
use cogutil.Base.{
  ◌||◌, ℕ, suc, Bool, true, false, List, [], ◌∷◌, ◌++◌, Option, none, some, if◌then◌else◌,
}
use cogutil.Base.Order.{Less}
use cogutil.Async.Threads.{repeat}
use cogutil.Concurrent.Monitor.{pick}
use cogutil.Concurrent.Set
use cogutil.Async.Buffer.{Shared, Writer, Client, writer_step, client_step}

pub record System {ℓ} (A : Type ℓ) : Type ℓ where
  pub shared : Shared A
  pub writers : List (Writer A)
  pub clients : List (Client A)

-- A thread calls `insert`, `barrier`, `flush`, `close`, `open`, `set_watermarks`, `clear_stats` or `stall`; the
-- writer thread at a place makes a step, or its method calls `insert` or `barrier`; another thread
-- makes a step.
pub data Event {ℓ} (A : Type ℓ) : Type ℓ where
  inserts : A → Event A
  barriers flushes stops clears : Event A
  opens : ℕ → Event A
  marks : ℕ → ℕ → Event A
  stalls : Bool → Event A
  writes : ℕ → Event A
  nests : ℕ → A → Event A
  fences : ℕ → Event A
  moves : ℕ → ℕ → Event A

module _ {ℓ} {A : Type ℓ} where
  abbrev pub set_watermarks : ℕ → ℕ → Shared A → Shared A
  set_watermarks hi lo s = record s { high = hi; low = lo }

  abbrev pub stall : Bool → Shared A → Shared A
  stall b s = record s { stall = b }

  abbrev pub clear_stats : Shared A → Shared A
  clear_stats s = record s {
    item_count = 0;
    duplicate_count = 0;
    flush_count = 0;
    drain_count = 0;
    drain_msec = 0;
    drain_slowest_msec = 0;
    drain_concurrent = 0;
  }

  abbrev pub blank : ℕ → Shared A
  blank nthreads = record {
    store = Set.create;
    locked = false;
    write_locked = false;
    busy = 0;
    pending = 0;
    high = 100;
    low = 10;
    thread_count = nthreads;
    stopping = false;
    stall = false;
    in_drain = false;
    item_count = 0;
    duplicate_count = 0;
    flush_count = 0;
    drain_count = 0;
    drain_msec = 0;
    drain_slowest_msec = 0;
    drain_concurrent = 0;
    log = [];
    accepted = [];
  }

  -- The constructor, with its writer threads at the head of their loops.
  abbrev pub create : ℕ → System A
  create nthreads = record {
    shared = blank nthreads;
    writers = repeat nthreads Writer.idle;
    clients = [];
  }

  abbrev pub all_gone : List (Writer A) → Bool
  all_gone [] = true
  all_gone (Writer.gone ∷ ws) = all_gone ws
  all_gone (w ∷ ws) = false

  abbrev pub arrive : Client A → System A → System A
  arrive c s = record s { clients = c ∷ s.clients }

  abbrev pub wrote : System A → List (Writer A) → Writer A × Shared A → System A
  wrote s rest (w, sh) = record s { shared = sh; writers = w ∷ rest }

  abbrev pub moved : System A → List (Writer A) → List (Client A) → Client A × Shared A → System A
  moved s new rest (c, sh) = record { shared = sh; writers = new ++ s.writers; clients = c ∷ rest }

  -- The method that a thread is in calls `insert` or `barrier`.
  abbrev pub method_calls :
      (A → Writer A) → System A → Option (Writer A × List (Writer A)) → System A
  method_calls f s (some (Writer.calling x, rest)) = record s { writers = f x ∷ rest }
  method_calls f s _ = s

  -- The thread that `start_writer_thread` makes, if it comes so far.
  abbrev pub spawned : Client A → Shared A → List (Writer A)
  spawned (Client.opens (suc n)) s = if s.write_locked || s.stopping then [] else Writer.idle ∷ []
  spawned c s = []

module _ {ℓ} {A : Type ℓ} (o : Less A) where
  abbrev pub write_next : System A → Option (Writer A × List (Writer A)) → System A
  write_next s none = s
  write_next s (some (w, rest)) = wrote s rest (writer_step o w s.shared)

  abbrev pub move_next : ℕ → System A → Option (Client A × List (Client A)) → System A
  move_next msec s none = s
  move_next msec s (some (c, rest)) =
      moved s (spawned c s.shared) rest (client_step o (all_gone s.writers) msec c s.shared)

  unfoldable pub fire : Event A → System A → System A
  unfolding pick
  fire (Event.inserts x) s = arrive (Client.enters x) s
  fire Event.barriers s = arrive Client.barrier_awaits s
  fire Event.flushes s = arrive Client.flush_saves s
  fire Event.stops s = arrive Client.stop_lifts s
  fire (Event.opens n) s = arrive (Client.open_tests n) s
  fire (Event.stalls b) s = record s { shared = stall b s.shared }
  fire Event.clears s = record s { shared = clear_stats s.shared }
  fire (Event.marks hi lo) s = record s { shared = set_watermarks hi lo s.shared }
  fire (Event.writes i) s = write_next s (pick i s.writers)
  fire (Event.nests i y) s = method_calls (λ x. Writer.entering x y) s (pick i s.writers)
  fire (Event.fences i) s = method_calls Writer.fencing s (pick i s.writers)
  fire (Event.moves i msec) s = move_next msec s (pick i s.clients)

  unfoldable pub run : List (Event A) → System A → System A
  unfolding fire
  run [] s = s
  run (e ∷ es) s = run es (fire e s)
