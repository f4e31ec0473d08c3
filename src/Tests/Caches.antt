-- ===== src/Tests/Caches.antt =====
-- An inf_cache, an lru_cache_arg_result and an adaptive_cache at work.
use cogutil.Base.{
  ℕ, ◌+◌, ◌*◌, ◌≤◌, true, false, List, [], ◌∷◌, Option, none, some, ◌≡◌, refl, length, arith,
  if◌then◌else◌,
}
use native.Mathlib.Decide.{ℕ_discrete}
use cogutil.Concurrent.Monitor.{pick}
use cogutil.Cache.Entries
use cogutil.Cache.Lru.{value}
use cogutil.Cache.Lru
use cogutil.Cache.Lru.Ideal.{lookup, drop_key}
use cogutil.Cache.Lru.Histories.{Sound}
use cogutil.Cache.Lru.Resize.{create-Inv}
use cogutil.Cache.Inf
use cogutil.Cache.Inf.Answers.{AllTrue, begun, answers_of_inf_cache}
use cogutil.Cache.Inf.Memory.{never_forgets}
use cogutil.Cache.ArgResult
use cogutil.Cache.ArgResult.Refine.{value_of}
use cogutil.Cache.ArgResult.Uses.{Use, uses_lem}
use cogutil.Cache.ArgResult.Uses
use cogutil.Cache.Adaptive.{
  Reading, Factors, Adaptive, call_adapted, wanted, due, word, call_adapted_lem,
}
use cogutil.Cache.Adaptive

caches_program : Unit {0}
unfolding Inf.run Inf.fire Inf.step pick lookup drop_key ℕ_discrete ArgResult.create ArgResult.full
    ArgResult.find ArgResult.insert_new ArgResult.spliced Uses.run Uses.applied Entries.find
    Entries.erase Entries.unlink Entries.get_last? Entries.drop_last Adaptive.call_adapted
    Adaptive.adapted Lru.create Lru.full Lru.empty Lru.call Lru.insert_call Lru.search_call
    Lru.call_only Lru.evict Lru.checked Lru.resize Lru.shrink Lru.shrink_found
caches_program = tt

abbrev twice : ℕ → Option ℕ
twice x = some (x + x)

-- Two threads call with one argument; the second one searches after the first one has stored.
abbrev two_calls : List (Inf.Event ℕ)
two_calls =
    Inf.Event.calls 3
    ∷ Inf.Event.turns 0
    ∷ Inf.Event.turns 0
    ∷ Inf.Event.turns 0
    ∷ Inf.Event.turns 0
    ∷ Inf.Event.calls 3
    ∷ Inf.Event.turns 0
    ∷ []

second_call_hits : Inf.run ℕ_discrete twice two_calls (Inf.fresh ℕ_discrete twice) ≡ record {
  cache = record { map = (3, 6) ∷ []; hits = 1; misses = 1 };
  threads = Inf.Place.replied 3 (value 6) ∷ Inf.Place.replied 3 (value 6) ∷ [];
}
unfolding caches_program
second_call_hits = refl

answers_of_inf_cache_example :
    AllTrue ℕ_discrete twice (Inf.run ℕ_discrete twice two_calls (Inf.fresh ℕ_discrete twice))
    × (begun ℕ_discrete twice (Inf.run ℕ_discrete twice two_calls (Inf.fresh ℕ_discrete twice)) ≡ 2)
answers_of_inf_cache_example = answers_of_inf_cache ℕ_discrete twice two_calls

never_forgets_example :
    let c =
      (Inf.run ℕ_discrete twice
        (Inf.Event.calls 4 ∷ Inf.Event.turns 0 ∷ [])
        (Inf.run ℕ_discrete twice two_calls (Inf.fresh ℕ_discrete twice))).cache in
    Inf.step ℕ_discrete twice (Inf.Place.looks 3) c
    ≡ (Inf.Place.replied 3 (value 6), record c { hits = c.hits + 1 })
unfolding caches_program
never_forgets_example =
    never_forgets ℕ_discrete twice two_calls (Inf.Event.calls 4 ∷ Inf.Event.turns 0 ∷ []) 3 6 refl

-- In a cache of size 3, the third insertion takes out the entry that was used longest ago.
abbrev three_inserted : List (Use ℕ ℕ)
three_inserted = Use.inserts 1 10 ∷ Use.inserts 2 20 ∷ Use.finds 1 ∷ Use.inserts 3 30 ∷ []

uses_lem_example :
    (value_of ℕ_discrete
        (ArgResult.find ℕ_discrete 2 (Uses.run ℕ_discrete three_inserted (ArgResult.create 3))).0
      ≡ none)
    × (length (Uses.run ℕ_discrete three_inserted (ArgResult.create 3)).map ≤ 2)
unfolding caches_program
uses_lem_example = uses_lem ℕ_discrete 2 three_inserted 2 (refl, (refl, (tt, (refl, tt))))

abbrev one_inserted : List (Use ℕ ℕ)
one_inserted = Use.inserts 1 10 ∷ []

-- In a cache of size 1, nothing stays.
nothing_stays : (Uses.run ℕ_discrete one_inserted (ArgResult.create 1)).map ≡ []
unfolding caches_program
nothing_stays = refl

abbrev doubling : Factors
doubling = record { ncycles = 1; times_lfact = λ n. n * 2; by_ufrac = λ n. n }

abbrev at_start : Adaptive ℕ ℕ
at_start = record { cache = Lru.create 2; counter = 0 }

abbrev no_memory : Reading
no_memory = record { below = false; above = true }

at_start-Sound : Sound ℕ_discrete twice at_start.cache
at_start-Sound = record { es = []; inv = create-Inv ℕ_discrete 2; are_true = tt }

call_adapted_lem_example :
    (s' : Adaptive ℕ ℕ) × (call_adapted ℕ_discrete twice doubling no_memory 5 at_start
      ≡ some (value 10, s'))
    × Sound ℕ_discrete twice s'.cache
    × (length s'.cache.map ≤ s'.cache.capacity)
    × (s'.cache.capacity ≡ (
        if due ℕ_discrete twice doubling at_start
        then wanted ℕ_discrete twice doubling no_memory at_start.cache
        else at_start.cache.capacity))
    × (s'.counter ≡ 1)
unfolding caches_program
call_adapted_lem_example =
    call_adapted_lem ℕ_discrete twice doubling no_memory 5 at_start (omega arith) at_start-Sound
