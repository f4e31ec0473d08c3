-- ===== src/Cache/Inf.antt =====
-- `inf_cache` of opencog/util/lru_cache.h: threads that call one cache without a limit. A thread
-- stands between two accesses to what is shared: a section of the lock, the counting of a miss, and
-- the call of the function. The function is a parameter, `none` where it throws.
pub mod Answers
pub mod Memory
use cogutil.Base.{ℕ, List, [], ◌∷◌, Option, none, some, ◌+◌}
use cogutil.Concurrent.Monitor.{pick}
use cogutil.Cache.Lru.{Reply, value, raised}
use cogutil.Cache.Lru.Ideal.{lookup, drop_key}

pub record Inf {ℓ} (K V : Type ℓ) : Type ℓ where
  pub map : List (K × V)
  pub hits : ℕ
  pub misses : ℕ

-- In `operator()`: before the search, before the miss is counted, before the function, before the
-- result is stored, and behind it.
pub data Place {ℓ} (K V : Type ℓ) : Type ℓ where
  looks counts evaluates : K → Place K V
  stores : K → V → Place K V
  replied : K → Reply V → Place K V

pub record System {ℓ} (K V : Type ℓ) : Type ℓ where
  pub cache : Inf K V
  pub threads : List (Place K V)

-- A thread calls the cache, or the thread at a place makes a step.
pub data Event {ℓ} (K : Type ℓ) : Type ℓ where
  calls : K → Event K
  turns : ℕ → Event K

module _ {ℓ} {K V : Type ℓ} (dec : Discrete K) (f : K → Option V) where
  abbrev pub found : K → Inf K V → Option V → Place K V × Inf K V
  found x c none = (Place.counts x, c)
  found x c (some v) = (Place.replied x (value v), record c { hits = c.hits + 1 })

  abbrev pub computed : K → Option V → Place K V
  computed x none = Place.replied x raised
  computed x (some v) = Place.stores x v

  -- `_map[x] = y`, which may replace what another thread has stored.
  abbrev pub assigned : K → V → Inf K V → Inf K V
  assigned x v c = record c { map = (x, v) ∷ drop_key dec x c.map }

  unfoldable pub step : Place K V → Inf K V → Place K V × Inf K V
  step (Place.looks x) c = found x c (lookup dec x c.map)
  step (Place.counts x) c = (Place.evaluates x, record c { misses = c.misses + 1 })
  step (Place.evaluates x) c = (computed x (f x), c)
  step (Place.stores x v) c = (Place.replied x (value v), assigned x v c)
  step (Place.replied x r) c = (Place.replied x r, c)

  abbrev pub next : System K V → Option (Place K V × List (Place K V)) → System K V
  next s none = s
  next s (some (t, rest)) =
      let (t', c) = step t s.cache in record { cache = c; threads = t' ∷ rest }

  unfoldable pub fire : Event K → System K V → System K V
  unfolding pick step
  fire (Event.calls x) s = record s { threads = Place.looks x ∷ s.threads }
  fire (Event.turns i) s = next s (pick i s.threads)

  unfoldable pub run : List (Event K) → System K V → System K V
  unfolding fire
  run [] s = s
  run (e ∷ es) s = run es (fire e s)

  -- The constructor.
  abbrev pub fresh : System K V
  fresh = record { cache = record { map = []; hits = 0; misses = 0 }; threads = [] }
