-- ===== src/Tests/PrrThreaded.antt =====
-- Two threads at one `prr_cache_threaded`.
use cogutil.Base.{ℕ, ◌+◌, false, List, [], ◌∷◌, Option, some, ◌≡◌, refl, arith, length, All, inr}
use native.Mathlib.Decide.{ℕ_discrete}
use cogutil.Concurrent.Monitor.{pick}
use cogutil.Cache.Lru.{value}
use cogutil.Cache.Lru.Ideal.{lookup, drop_key}
use cogutil.Cache.Prr.{create, full, erase_begin, clear}
use cogutil.Cache.PrrThreaded.{Place, System, Event, step, fire, run, fresh}
use cogutil.Cache.PrrThreaded.Answers.{AllTrue}
use cogutil.Cache.PrrThreaded.Sizes.{Allowed, Fair, answers_lem}
use cogutil.Cache.PrrThreaded.Overfull.{calls_of, AreNew, overfull_lem}

threaded_program : Unit {0}
unfolding run fire step pick create full erase_begin clear lookup drop_key ℕ_discrete
threaded_program = tt

abbrev twice : ℕ → Option ℕ
twice x = some (x + x)

abbrev any_key : List (ℕ × ℕ) → ℕ
any_key [] = 0
any_key ((k, v) ∷ m) = k

-- Both threads find room before one of them stores.
abbrev two_calls : List (Event ℕ)
two_calls =
    Event.calls 1
    ∷ Event.calls 2
    ∷ Event.turns 0
    ∷ Event.turns 0
    ∷ Event.turns 0
    ∷ Event.turns 1
    ∷ Event.turns 0
    ∷ Event.turns 0
    ∷ Event.turns 0
    ∷ Event.turns 1
    ∷ []

abbrev overfull : System ℕ ℕ
overfull = run ℕ_discrete any_key twice two_calls (fresh ℕ_discrete any_key twice 1)

overfull_reached : overfull.cache.map ≡ (2, 4) ∷ (1, 2) ∷ []
unfolding threaded_program
overfull_reached = refl

two_calls-Allowed : All (Allowed false false) two_calls
two_calls-Allowed = (tt, (tt, (tt, (tt, (tt, (tt, (tt, (tt, (tt, (tt, tt))))))))))

answers_lem_example :
    AllTrue ℕ_discrete any_key twice overfull
    × All (Fair ℕ_discrete any_key twice false false overfull.cache.map) overfull.threads
answers_lem_example =
    answers_lem ℕ_discrete any_key twice false false 1 two_calls (inr (omega arith))
      two_calls-Allowed

-- Two more calls, and two more entries.
abbrev two_more : List (ℕ × ℕ)
two_more = (3, 6) ∷ (4, 8) ∷ []

two_more-AreNew : AreNew ℕ_discrete any_key twice two_more overfull.cache.map
unfolding threaded_program
two_more-AreNew = (refl, refl, (refl, refl, tt))

overfull_lem_example :
    let c =
      (run ℕ_discrete any_key twice (calls_of ℕ_discrete any_key twice two_more) overfull).cache in
    (length c.map ≡ 2 + length overfull.cache.map) × (c.capacity ≡ overfull.cache.capacity)
unfolding threaded_program
overfull_lem_example =
    overfull_lem ℕ_discrete any_key twice two_more overfull (omega arith) two_more-AreNew

-- A thread that has found the cache full evicts after another one has cleared it.
abbrev cleared_in_between : List (Event ℕ)
cleared_in_between =
    Event.calls 1
    ∷ Event.turns 0
    ∷ Event.turns 0
    ∷ Event.turns 0
    ∷ Event.turns 0
    ∷ Event.calls 2
    ∷ Event.turns 0
    ∷ Event.turns 0
    ∷ Event.turns 0
    ∷ Event.clears
    ∷ Event.turns 0
    ∷ []

crash_reached :
    (run ℕ_discrete any_key twice cleared_in_between (fresh ℕ_discrete any_key twice 1)).threads
    ≡ Place.crashed ∷ Place.replied 1 (value 2) ∷ []
unfolding threaded_program
crash_reached = refl
