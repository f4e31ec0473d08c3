-- ===== src/Tests/Cache.antt =====
-- `lru_cache` with room for two results of a function that throws at 9.
use cogutil.Base.{
  ℕ, ◌+◌, ◌-◌, ◌≤◌, List, [], ◌∷◌, Option, none, some, ◌≡◌, refl, arith, length, drop,
  if◌then◌else◌, ◌==◌,
}
use native.Mathlib.Decide.{ℕ_discrete}
use cogutil.Cache.Entries
use cogutil.Cache.Entries.{Entry, contents, erase}
use cogutil.Cache.Lru.{Cache, call, create, resize, value}
use cogutil.Cache.Lru.Histories.{Op, run, call-run}
use cogutil.Cache.Lru.Ideal.{ideal}
use cogutil.Cache.Lru.Inv.{Inv}
use cogutil.Cache.Lru.Refine.{Meets, call-Meets}
use cogutil.Cache.Lru.Resize.{resize_lem}

abbrev square : ℕ → Option ℕ
square x = if x == 9 then none else some (x + x)

abbrev history : List (Op ℕ)
history = Op.calls 1 ∷ Op.calls 2 ∷ Op.calls 9 ∷ Op.calls 1 ∷ Op.calls 3 ∷ []

cache_program : Unit {0}
unfolding run call create resize ℕ_discrete Entries.find Entries.erase Entries.unlink
    Entries.get_last? Entries.drop_last
cache_program = tt

-- 2 was used longest ago, and went.
held : contents (run ℕ_discrete square history (create 2)).map ≡ (3, 6) ∷ (1, 2) ∷ []
unfolding cache_program
held = refl

call-run_example :
    ((call ℕ_discrete square 1 (run ℕ_discrete square history (create 2))).0 ≡ value 2)
    × (length (run ℕ_discrete square history (create 2)).map
        ≤ (run ℕ_discrete square history (create 2)).capacity)
    × (length (run ℕ_discrete square history (create 2)).lru
        ≡ length (run ℕ_discrete square history (create 2)).map)
call-run_example = call-run ℕ_discrete square 2 history 1

abbrev entries : List (Entry ℕ ℕ)
entries = (record { id = 1; key = 3 }, 6) ∷ (record { id = 0; key = 1 }, 2) ∷ []

-- 3 was used last.
abbrev two_held : Cache ℕ ℕ
two_held = record {
  capacity = 2;
  lru = record { id = 1; key = 3 } ∷ record { id = 0; key = 1 } ∷ [];
  map = entries;
  next = 2;
  hits = 0;
  misses = 2;
}

two_held-Inv : Inv ℕ_discrete two_held entries
unfolding Entries.find ℕ_discrete
two_held-Inv = record {
  order = refl;
  agrees = λ k. refl;
  sizes = refl;
  bounded = omega arith;
  distinct = (refl, (refl, tt));
  unique = (refl, (refl, tt));
  ids = (((λ e. omega arith), tt), (tt, tt));
  fresh = omega arith;
}

call-Meets_example :
    Meets ℕ_discrete 2
      (call ℕ_discrete square 5 two_held)
      (ideal ℕ_discrete 2 square 5 (contents entries))
call-Meets_example = call-Meets ℕ_discrete square 5 two_held entries two_held-Inv

-- 3, used last, goes, and 1, used longest ago, stays.
resize_lem_example :
    (c : Cache ℕ ℕ) × (resize ℕ_discrete 1 two_held ≡ some c)
    × Inv ℕ_discrete c (drop (2 - 1) entries)
    × (c.capacity ≡ 1)
resize_lem_example = resize_lem ℕ_discrete 1 two_held entries two_held-Inv
