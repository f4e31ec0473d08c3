-- ===== src/Concurrent/Monitor.antt =====
-- Threads around one mutex and one condition variable, as opencog/util/concurrent_queue.h,
-- concurrent_stack.h and concurrent_set.h use them. A schedule is a list of events; an event that
-- cannot happen changes nothing.
pub mod Wakeup
use cogutil.Base.{
  ℕ, zero, suc, ◌+◌, ◌-◌, Bool, true, false, List, [], ◌∷◌, ◌++◌, Option, none, some, if◌then◌else◌,
  is_nil, ◌==◌, All,
}
use cogutil.Concurrent.Chan.{
  Chan, Signal, quiet, notify_one, notify_all, Outcome, returns, throws, waits,
}

-- A monitor: what each call does in its critical section, and which calls the threads make.
pub record Monitor {ℓ κ} (A : Type ℓ) (C : Type κ) : Type (ℓ ⊔ κ) where
  pub exec : C → Chan A → Outcome A (Unit {0})
  pub allowed : C → Bool

-- The result of a section, without its value.
abbrev pub forget {ℓ κ} : {A : Type ℓ} {R : Type κ} → Outcome A R → Outcome A (Unit {0})
forget (returns r c s) = returns tt c s
forget throws = throws
forget waits = waits

abbrev pub ones_of : Signal → ℕ
ones_of quiet = 0
ones_of notify_one = 1
ones_of notify_all = 0

abbrev pub alls_of : Signal → ℕ
alls_of quiet = 0
alls_of notify_one = 0
alls_of notify_all = 1

-- `asleep`: calls that wait on `the_cond`. `woken`: calls that were woken and have not got the
-- lock back. `ones` and `alls`: notifications due from threads that have released the lock.
pub record System {ℓ κ} (A : Type ℓ) (C : Type κ) : Type (ℓ ⊔ κ) where
  pub chan : Chan A
  pub asleep : List C
  pub woken : List C
  pub ones : ℕ
  pub alls : ℕ

-- A thread gets the lock and starts a call; a woken call gets the lock; a sleeper wakes by itself;
-- a due `notify_one` wakes the sleeper that is named, or nobody; a due `notify_all` is sent.
pub data Event {κ} (C : Type κ) : Type κ where
  invoke : C → Event C
  resume : ℕ → Event C
  wake : ℕ → Event C
  send_one : ℕ → Event C
  send_all : Event C

-- The element at a place, and the list without it.
unfoldable pub pick {κ} : {C : Type κ} → ℕ → List C → Option (C × List C)
pick i [] = none
pick zero (k ∷ ks) = some (k, ks)
pick (suc i) (k ∷ ks) = elim (pick i ks) [ none ↦ none | some (j, rest) ↦ some (j, k ∷ rest) ]

abbrev pub start {ℓ κ} : {A : Type ℓ} {C : Type κ} → Chan A → System A C
start c = record { chan = c; asleep = []; woken = []; ones = 0; alls = 0 }

module _ {ℓ κ} {A : Type ℓ} {C : Type κ} where
  -- What the end of a section does to the system.
  abbrev pub settle : System A C → C → Outcome A (Unit {0}) → System A C
  settle s k (returns r c g) = record s {
    chan = c;
    ones = s.ones + ones_of g;
    alls = s.alls + alls_of g;
  }
  settle s k throws = s
  settle s k waits = record s { asleep = k ∷ s.asleep }

  abbrev pub rouse : System A C → Option (C × List C) → System A C
  rouse s none = s
  rouse s (some (k, rest)) = record s { asleep = rest; woken = k ∷ s.woken }

  -- One notification reaches a sleeper, or is lost on an empty room.
  abbrev pub notify : System A C → Option (C × List C) → System A C
  notify s none = if is_nil s.asleep then record s { ones = s.ones - 1 } else s
  notify s (some (k, rest)) = record s { asleep = rest; woken = k ∷ s.woken; ones = s.ones - 1 }

module _ {ℓ κ} {A : Type ℓ} {C : Type κ} (m : Monitor A C) where
  abbrev pub resumed : System A C → Option (C × List C) → System A C
  resumed s none = s
  resumed s (some (k, rest)) = settle (record s { woken = rest }) k (m.exec k s.chan)

  unfoldable pub fire : Event C → System A C → System A C
  fire (invoke k) s = if m.allowed k then settle s k (m.exec k s.chan) else s
  fire (resume i) s = resumed s (pick i s.woken)
  fire (wake i) s = rouse s (pick i s.asleep)
  fire (send_one i) s = if s.ones == 0 then s else notify s (pick i s.asleep)
  fire send_all s =
      if s.alls == 0
      then s
      else record s { asleep = []; woken = s.asleep ++ s.woken; alls = s.alls - 1 }

  unfoldable pub schedule : List (Event C) → System A C → System A C
  unfolding fire pick
  schedule [] s = s
  schedule (e ∷ es) s = schedule es (fire e s)

-- What holds of all threads holds of the one that is picked and of the others.
module _ {ℓ κ} {T : Type ℓ} (P : T → Type κ) where
  abbrev pub PickAll : Option (T × List T) → Type κ
  PickAll none = Unit
  PickAll (some (t, rest)) = P t × All P rest

  pick_later :
      (k : T) (o : Option (T × List T))
      → P k
      → PickAll o
      → PickAll (elim o [ none ↦ none | some (j, rest) ↦ some (j, k ∷ rest) ])
  pick_later k none h p = tt
  pick_later k (some (j, rest)) h p = (p.0, (h, p.1))

  pub pick-All : (i : ℕ) (ts : List T) → All P ts → PickAll (pick i ts)
  unfolding pick
  pick-All i [] h = tt
  pick-All zero (k ∷ ks) h = h
  pick-All (suc i) (k ∷ ks) h = pick_later k (pick i ks) h.0 (pick-All i ks h.1)
