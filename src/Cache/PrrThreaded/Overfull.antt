-- ===== src/Cache/PrrThreaded/Overfull.antt =====
-- A cache with more entries than its capacity.
use cogutil.Base.{
  ◌<◌, ◌+◌, false, List, [], ◌∷◌, Option, none, some, length, ◌==◌, ◌≡◌, refl, ap, arith,
}
use mathlib.Core.Option
use mathlib.Core.Logic.{if_pos, if_neg}
use cogutil.Concurrent.Monitor.{pick}
use cogutil.Cache.Lru.{value}
use cogutil.Cache.Lru.Ideal.{lookup, drop_key}
use cogutil.Cache.Prr.{full}
use cogutil.Cache.PrrThreaded.{Place, System, Event, run, fire, step}

module _ {ℓ} {K V : Type ℓ} (dec : Discrete K) (begin : List (K × V) → K) (f : K → Option V) where
  drop_absent : (x : K) (m : List (K × V)) → lookup dec x m ≡ none → drop_key dec x m ≡ m
  unfolding lookup drop_key
  drop_absent x [] h = refl
  drop_absent x ((j, w) ∷ m) h = elim (dec j x) [
    | yes p ↦ absurd (Option.some-ne-none w (rw (if_pos _ p) at h))
    | no p ↦ rw (if_neg _ p) (ap (λ a. (j, w) ∷ a) (drop_absent x m (rw (if_neg _ p) at h)))
  ]

  -- The four steps of one thread's call.
  abbrev pub calls_of : List (K × V) → List (Event K)
  calls_of [] = []
  calls_of ((x, v) ∷ ps) =
      Event.calls x ∷ Event.turns 0 ∷ Event.turns 0 ∷ Event.turns 0 ∷ Event.turns 0 ∷ calls_of ps

  -- Each argument is new to the map that the calls before it leave, and the function returns.
  abbrev pub AreNew : List (K × V) → List (K × V) → Type ℓ
  AreNew [] m = Unit
  AreNew ((x, v) ∷ ps) m = (lookup dec x m ≡ none) × (f x ≡ some v) × AreNew ps ((x, v) ∷ m)

  one_call :
      (x : K) (v : V) (es : List (Event K)) (s : System K V)
      → s.cache.capacity < length s.cache.map
      → lookup dec x s.cache.map ≡ none
      → f x ≡ some v
      → run dec begin f
          (Event.calls x ∷ Event.turns 0 ∷ Event.turns 0 ∷ Event.turns 0 ∷ Event.turns 0 ∷ es)
          s
        ≡ run dec begin f es (record {
          cache = record s.cache { map = (x, v) ∷ s.cache.map; misses = s.cache.misses + 1 };
          threads = Place.replied x (value v) ∷ s.threads;
        })
  unfolding run fire pick step full
  one_call x v es s over absent h =
      let not_full : (length s.cache.map == s.cache.capacity) ≡ false = ground arith in
      rw (absent, h, not_full, drop_absent x s.cache.map absent) refl

  -- Once a cache has more entries than its capacity, and while it is not resized or cleared, it takes
  -- nothing out: after any number of calls, one after the other, with arguments that are not kept and
  -- for which the function returns, it has that many entries more, and the same capacity.
  pub overfull_lem :
      (ps : List (K × V)) (s : System K V)
      → s.cache.capacity < length s.cache.map
      → AreNew ps s.cache.map
      → let c = (run dec begin f (calls_of ps) s).cache in
        (length c.map ≡ length ps + length s.cache.map) × (c.capacity ≡ s.cache.capacity)
  unfolding run
  overfull_lem [] s over new = (omega arith, refl)
  overfull_lem ((x, v) ∷ ps) s over (absent, h, new) =
      let s' : System K V = record {
        cache = record s.cache { map = (x, v) ∷ s.cache.map; misses = s.cache.misses + 1 };
        threads = Place.replied x (value v) ∷ s.threads;
      } in
      let (more, same) = overfull_lem ps s' (omega (arith, over)) new in
      rw (one_call x v (calls_of ps) s over absent h) (omega (arith, more), same)
