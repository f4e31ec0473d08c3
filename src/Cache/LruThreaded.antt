-- ===== src/Cache/LruThreaded.antt =====
-- `lru_cache_threaded` of opencog/util/lru_cache.h: each method that it declares is one section of
-- its lock around the method of lru_cache.
use cogutil.Base.{ℕ, Bool, Option, List, [], ◌∷◌, ◌≤◌, length, ◌≡◌, refl, subst, sym, ap}
use cogutil.Cache.Lru.{Cache, Reply, create, full, empty, remove, clear, call}
use cogutil.Cache.Lru.Histories
use cogutil.Cache.Lru.Histories.{Op, reply_of}

pub data Method {ℓ} (K : Type ℓ) : Type ℓ where
  is_full is_empty gets_max_size clears : Method K
  removes calls : K → Method K

-- What a section returns.
pub data Result {ℓ} (V : Type ℓ) : Type ℓ where
  holds : Bool → Result V
  size : ℕ → Result V
  replied : Reply V → Result V
  nothing : Result V

module _ {ℓ} {K V : Type ℓ} (dec : Discrete K) (f : K → Option V) where
  unfoldable pub section : Method K → Cache K V → Result V × Cache K V
  unfolding full empty remove clear call
  section Method.is_full c = (Result.holds (full c), c)
  section Method.is_empty c = (Result.holds (empty c), c)
  section Method.gets_max_size c = (Result.size c.capacity, c)
  section Method.clears c = (Result.nothing, clear c)
  section (Method.removes x) c = (Result.nothing, remove dec x c)
  section (Method.calls x) c = let (r, c') = call dec f x c in (Result.replied r, c')

  -- The sections of all threads, in the order in which they get the lock.
  unfoldable pub run : List (Method K) → Cache K V → Cache K V
  unfolding section
  run [] c = c
  run (m ∷ ms) c = run ms (section m c).1

  -- The sections that change something, as calls of one lru_cache.
  abbrev ops : List (Method K) → List (Op K)
  ops [] = []
  ops (Method.clears ∷ ms) = Op.clears ∷ ops ms
  ops (Method.removes x ∷ ms) = Op.removes x ∷ ops ms
  ops (Method.calls x ∷ ms) = Op.calls x ∷ ops ms
  ops (m ∷ ms) = ops ms

  run-ops : (ms : List (Method K)) (c : Cache K V) → run ms c ≡ Histories.run dec f (ops ms) c
  unfolding run section Histories.run Histories.apply
  run-ops [] c = refl
  run-ops (Method.is_full ∷ ms) c = run-ops ms c
  run-ops (Method.is_empty ∷ ms) c = run-ops ms c
  run-ops (Method.gets_max_size ∷ ms) c = run-ops ms c
  run-ops (Method.clears ∷ ms) c = run-ops ms (clear c)
  run-ops (Method.removes x ∷ ms) c = run-ops ms (remove dec x c)
  run-ops (Method.calls x ∷ ms) c = run-ops ms (call dec f x c).1

  -- In whatever order threads get the lock of a new lru_cache_threaded, a call gives what the
  -- function gives, its exception included, and the map and the list have one size, at most the
  -- capacity.
  section_lem :
      (n : ℕ) (ms : List (Method K)) (x : K)
      → let c = run ms (create n) in
        ((section (Method.calls x) c).0 ≡ Result.replied (reply_of (f x)))
        × (length c.map ≤ c.capacity)
        × (length c.lru ≡ length c.map)
  unfolding section
  section_lem n ms x =
      let (reply, few, same) = Histories.call-run dec f n (ops ms) x in
      subst
        (λ (c : Cache K V).
          ((section (Method.calls x) c).0 ≡ Result.replied (reply_of (f x)))
          × (length c.map ≤ c.capacity)
          × (length c.lru ≡ length c.map))
        (sym (run-ops ms (create n))) (ap Result.replied reply, few, same)
