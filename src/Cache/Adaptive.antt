-- ===== src/Cache/Adaptive.antt =====
-- `adaptive_cache` of opencog/util/lru_cache.h around an lru_cache. What the readings of the memory
-- say, and the floating-point products and quotients of sizes, are parameters.
use cogutil.Base.{
  ℕ, ◌+◌, ◌%◌, ◌-◌, ◌≤◌, ◌<◌, Bool, true, false, ◌&&◌, Option, none, some, if◌then◌else◌, ◌==◌,
  length, ◌≡◌, refl, ap, ◌∙◌, Bool-cases, inl, inr, drop, arith,
}
use cogutil.Cache.Lru.{Cache, Reply, full, resize, call}
use cogutil.Cache.Lru.Histories.{reply_of, Sound, call-Sound, contents-drop-AreTrue}
use cogutil.Cache.Lru.Refine.{call-Meets}
use cogutil.Cache.Lru.Resize.{resize_lem}

-- `free_mem_ratio < _llimit` and `free_mem_ratio > _ulimit`.
pub record Reading : Type 0 where
  pub below : Bool
  pub above : Bool

pub record Adaptive {ℓ} (K V : Type ℓ) : Type ℓ where
  pub cache : Cache K V
  pub counter : ℕ

-- `_ncycles`, and the sizes times `_lfact` and by `_ufrac`, as unsigned numbers.
pub record Factors : Type 0 where
  pub ncycles : ℕ
  pub times_lfact : ℕ → ℕ
  pub by_ufrac : ℕ → ℕ

abbrev pub word : ℕ
word = 4294967296

abbrev at_least_one : ℕ → ℕ
at_least_one n = if n == 0 then 1 else n

module _ {ℓ} {K V : Type ℓ} (dec : Discrete K) (f : K → Option V) (k : Factors) where
  -- The exception of a first `resize` leads to a second one.
  abbrev pub or_max : Cache K V → Option (Cache K V) → Option (Cache K V)
  unfolding resize
  or_max c none = resize dec (word - 1) c
  or_max c (some c') = some c'

  -- `none` is an exception that goes on.
  unfoldable pub adapted : Reading → Cache K V → Option (Cache K V)
  unfolding resize full
  adapted r c =
      if r.below && full c
      then or_max c (resize dec (k.times_lfact c.capacity) c)
      else if r.above
      then resize dec (at_least_one (k.by_ufrac c.capacity)) c
      else some c

  abbrev pub then_call : K → ℕ → Option (Cache K V) → Option (Reply V × Adaptive K V)
  unfolding call
  then_call x n none = none
  then_call x n (some c) =
      let (r, c') = call dec f x c in some (r, record { cache = c'; counter = n })

  -- `operator()`: no result also for the remainder of a division by 0, where `_ncycles` is 0.
  unfoldable pub call_adapted : Reading → K → Adaptive K V → Option (Reply V × Adaptive K V)
  unfolding adapted
  call_adapted r x s =
      if k.ncycles == 0
      then none
      else then_call x ((s.counter + 1) % word)
          (if s.counter % k.ncycles == 0 then adapted r s.cache else some s.cache)

  resize-Sound :
      (n : ℕ) (c : Cache K V)
      → Sound dec f c
      → (c' : Cache K V) × (resize dec n c ≡ some c') × Sound dec f c' × (c'.capacity ≡ n)
  resize-Sound n c s =
      let (c', done, i, size) = resize_lem dec n c s.es s.inv in
      (
        c',
        done,
        record {
          es = drop (length s.es - n) s.es;
          inv = i;
          are_true = contents-drop-AreTrue dec f (length s.es - n) s.es s.are_true;
        },
        size,
      )

  -- The size that a reading asks for.
  abbrev pub wanted : Reading → Cache K V → ℕ
  unfolding full
  wanted r c =
      if r.below && full c
      then k.times_lfact c.capacity
      else if r.above
      then at_least_one (k.by_ufrac c.capacity)
      else c.capacity

  abbrev Adapts : Reading → Cache K V → Type ℓ
  Adapts r c =
      (c' : Cache K V) × (adapted r c ≡ some c') × Sound dec f c' × (c'.capacity ≡ wanted r c)

  adapted-Sound : (r : Reading) (c : Cache K V) → Sound dec f c → Adapts r c
  unfolding adapted
  adapted-Sound r c s =
      let (grown, done, sound, size) = resize-Sound (k.times_lfact c.capacity) c s in
      let (less, done', sound', size') = resize-Sound (at_least_one (k.by_ufrac c.capacity)) c s in
      elim (Bool-cases (r.below && full c)) [
        | inl grows ↦ (grown, rw grows (ap (or_max c) done), sound, rw grows size)
        | inr stays ↦ elim (Bool-cases r.above) [
          | inl shrinks ↦ (less, rw (stays, shrinks) done', sound', rw (stays, shrinks) size')
          | inr kept ↦ (c, rw (stays, kept) refl, s, rw (stays, kept) refl)
        ]
      ]

  abbrev pub due : Adaptive K V → Bool
  due s = s.counter % k.ncycles == 0

  turn-Sound :
      (r : Reading) (s : Adaptive K V) (b : Bool)
      → Sound dec f s.cache
      → (c' : Cache K V) × ((if b then adapted r s.cache else some s.cache) ≡ some c')
        × Sound dec f c'
        × (c'.capacity ≡ (if b then wanted r s.cache else s.cache.capacity))
  turn-Sound r s true sound = adapted-Sound r s.cache sound
  turn-Sound r s false sound = (s.cache, refl, sound, refl)

  -- On an adaptive_cache around an lru_cache that keeps only true results, with an _ncycles above 0, and
  -- whatever the memory readings, a call gives what the function gives, its exception included, and never an exception of the
  -- cache. The cache keeps only true results again, and no more than its size, which changes only every
  -- ncycles-th call, to the size that the reading asks for.
  pub call_adapted_lem :
      (r : Reading) (x : K) (s : Adaptive K V)
      → 0 < k.ncycles
      → Sound dec f s.cache
      → (s' : Adaptive K V) × (call_adapted r x s ≡ some (reply_of (f x), s'))
        × Sound dec f s'.cache
        × (length s'.cache.map ≤ s'.cache.capacity)
        × (s'.cache.capacity ≡ (if due s then wanted r s.cache else s.cache.capacity))
        × (s'.counter ≡ (s.counter + 1) % word)
  unfolding call_adapted then_call
  call_adapted_lem r x s cycles sound =
      let divides : (k.ncycles == 0) ≡ false = ground (arith, cycles) in
      let (c, done, sound', size) = turn-Sound r s (due s) sound in
      let (reply, sound'') = call-Sound dec f x c sound' in
      let m = call-Meets dec f x c sound'.es sound'.inv in
      let n = (s.counter + 1) % word in
      let s' : Adaptive K V = record { cache = (call dec f x c).1; counter = n } in
      (
        s',
        rw divides (ap (then_call x n) done ∙ ap (λ (q : Reply V). some (q, s')) reply),
        sound'',
        omega (arith, sound''.inv.sizes, sound''.inv.bounded),
        m.size ∙ size,
        refl,
      )
