-- ===== src/Cache/PrrThreaded.antt =====
-- `prr_cache_threaded` of opencog/util/lru_cache.h: threads that call one cache. A thread stands
-- between two sections of the lock, and a step is one section, the call of the function, or the
-- counting of a miss with it.
pub mod Answers
pub mod Overfull
pub mod Sizes
use cogutil.Base.{ℕ, zero, suc, List, [], ◌∷◌, Option, none, some, if◌then◌else◌, ◌==◌, ◌+◌}
use cogutil.Concurrent.Monitor.{pick}
use cogutil.Cache.Lru.{Reply, value, raised, failed}
use cogutil.Cache.Lru.Ideal.{lookup, drop_key}
use cogutil.Cache.Prr.{Prr, create, full, clear, missed, stored, erase_begin, resize}

-- In `operator()`: before the search, before the function, before the test of `full`, before the
-- section that evicts, before the one that only stores; and behind it. `crashed` is `erase(begin())`
-- on an empty map.
pub data Place {ℓ} (K V : Type ℓ) : Type ℓ where
  looks evaluates : K → Place K V
  tests evicts stores : K → V → Place K V
  replied : K → Reply V → Place K V
  crashed : Place K V

pub record System {ℓ} (K V : Type ℓ) : Type ℓ where
  pub cache : Prr K V
  pub threads : List (Place K V)

-- A thread calls the cache; the thread at a place makes a step; another one calls `clear` or
-- `resize`.
pub data Event {ℓ} (K : Type ℓ) : Type ℓ where
  calls : K → Event K
  turns : ℕ → Event K
  clears : Event K
  resizes : ℕ → Event K

module _ {ℓ} {K V : Type ℓ} (dec : Discrete K) (begin : List (K × V) → K) (f : K → Option V) where
  -- `_map[x] = res`, which may replace what another thread has stored.
  abbrev pub assigned : K → V → Prr K V → Prr K V
  assigned x v c = stored x v (record c { map = drop_key dec x c.map })

  abbrev pub found : K → Prr K V → Option V → Place K V × Prr K V
  found x c none = (Place.evaluates x, c)
  found x c (some v) = (Place.replied x (value v), record c { hits = c.hits + 1 })

  -- `incmis_f`.
  abbrev pub computed : K → Prr K V → Option V → Place K V × Prr K V
  computed x c none = (Place.replied x raised, missed c)
  computed x c (some v) = (Place.tests x v, missed c)

  abbrev pub evicted : K → V → Prr K V → Option (Prr K V) → Place K V × Prr K V
  evicted x v c none = (Place.crashed, c)
  evicted x v c (some c') = (Place.replied x (value v), assigned x v c')

  unfoldable pub step : Place K V → Prr K V → Place K V × Prr K V
  unfolding full erase_begin
  step (Place.looks x) c = found x c (lookup dec x c.map)
  step (Place.evaluates x) c = computed x c (f x)
  step (Place.tests x v) c = (if full c then Place.evicts x v else Place.stores x v, c)
  step (Place.evicts x v) c =
      if c.capacity == 0
      then (Place.replied x failed, c)
      else evicted x v c (erase_begin dec begin c)
  step (Place.stores x v) c = (Place.replied x (value v), assigned x v c)
  step (Place.replied x r) c = (Place.replied x r, c)
  step Place.crashed c = (Place.crashed, c)

  abbrev pub stepped : List (Place K V) → Place K V × Prr K V → System K V
  stepped rest (t, c) = record { cache = c; threads = t ∷ rest }

  abbrev pub next : System K V → Option (Place K V × List (Place K V)) → System K V
  next s none = s
  next s (some (t, rest)) = stepped rest (step t s.cache)

  -- `resize` erases only while there are more entries than room.
  abbrev pub resized : Prr K V → Option (Prr K V) → Prr K V
  resized c none = c
  resized c (some c') = c'

  unfoldable pub fire : Event K → System K V → System K V
  unfolding pick step clear resize
  fire (Event.calls x) s = record s { threads = Place.looks x ∷ s.threads }
  fire (Event.turns i) s = next s (pick i s.threads)
  fire Event.clears s = record s { cache = clear s.cache }
  fire (Event.resizes n) s = record s { cache = resized s.cache (resize dec begin n s.cache) }

  unfoldable pub run : List (Event K) → System K V → System K V
  unfolding fire
  run [] s = s
  run (e ∷ es) s = run es (fire e s)

  -- The constructor.
  abbrev pub fresh : ℕ → System K V
  fresh n = record { cache = create n; threads = [] }
