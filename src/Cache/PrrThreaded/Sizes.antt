-- ===== src/Cache/PrrThreaded/Sizes.antt =====
-- What the threads around a prr_cache_threaded are answered, and when an assertion fails or an entry
-- of an empty map is erased.
use cogutil.Base.{
  ℕ, ◌<◌, Bool, true, false, ◌||◌, List, [], ◌∷◌, Option, none, some, All, ◌≡◌, refl, sym, subst,
  length, inl, inr, ◌==◌, Bool-cases, ◌⊎◌, arith,
}
use cogutil.Concurrent.Monitor.{pick, PickAll, pick-All}
use cogutil.Cache.Lru.{Reply, value, raised, failed}
use cogutil.Cache.Lru.Ideal.{lookup}
use cogutil.Cache.Prr.{Prr, create, full, clear, erase_begin, resize}
use cogutil.Cache.Prr.Shrinks.{Erases, erase_begin-Erases, Shrinks, shrink-Shrinks}
use cogutil.Cache.PrrThreaded.{
  Place, System, Event, found, computed, evicted, step, next, resized, fire, run, fresh,
}
use cogutil.Cache.PrrThreaded.Answers.{AllTrue, run-True}

abbrev pub is_failed {ℓ} : {V : Type ℓ} → Reply V → Bool
is_failed (value v) = false
is_failed raised = false
is_failed failed = true

-- `z` tells whether the size may be 0 at some time, `k` whether the cache may be cleared.
abbrev pub MayBe : Bool → ℕ → Type 0
MayBe z n = (z ≡ true) ⊎ (0 < n)

abbrev pub Allowed {ℓ} : {K : Type ℓ} → Bool → Bool → Event K → Type 0
Allowed z k Event.clears = k ≡ true
Allowed z k (Event.resizes n) = MayBe z n
Allowed z k other = Unit

module _ {ℓ} {K V : Type ℓ} (dec : Discrete K) (begin : List (K × V) → K) (f : K → Option V) where
  module _ (z k : Bool) where
    abbrev Loose : Type 0
    Loose = (z || k) ≡ true

    abbrev Held : List (K × V) → Type 0
    Held m = Loose ⊎ (0 < length m)

    -- What is known at a place, with the map that is kept: an assertion has failed only if the size
    -- may be 0, and an entry of an empty map was erased only if it may be 0 or the cache be cleared.
    abbrev pub Fair : List (K × V) → Place K V → Type 0
    Fair m (Place.evicts x v) = Held m
    Fair m (Place.replied x r) = (is_failed r ≡ false) ⊎ (z ≡ true)
    Fair m Place.crashed = Loose
    Fair m other = Unit

    loose : (n : ℕ) → MayBe z n → (n == 0) ≡ true → z ≡ true
    loose n (inl may) e = may
    loose n (inr more) e = ground (arith, more, e)

    -- The state of a thread and of the cache after a step on `c`.
    abbrev Steps : Prr K V → Place K V × Prr K V → Type 0
    Steps c (t, c') = Fair c'.map t × (c'.capacity ≡ c.capacity) × (Held c.map → Held c'.map)

    found-Steps : (x : K) (c : Prr K V) (o : Option V) → Steps c (found dec begin f x c o)
    found-Steps x c none = (tt, refl, λ h. h)
    found-Steps x c (some v) = (inl refl, refl, λ h. h)

    computed-Steps : (x : K) (c : Prr K V) (o : Option V) → Steps c (computed dec begin f x c o)
    computed-Steps x c none = (inl refl, refl, λ h. h)
    computed-Steps x c (some v) = (tt, refl, λ h. h)

    evicted-Steps :
        (x : K) (v : V) (c : Prr K V) (o : Option (Prr K V))
        → Held c.map
        → Erases dec begin c o
        → Steps c (evicted dec begin f x v c o)
    evicted-Steps x v c none (inl any) e = (any, refl, λ h. h)
    evicted-Steps x v c none (inr there) e = absurd (omega (arith, there, e))
    evicted-Steps x v c (some c') held (same, most) = (inl refl, same, λ h. inr (omega arith))

    full_holds : (c : Prr K V) → MayBe z c.capacity → full c ≡ true → Held c.map
    unfolding full
    full_holds c (inl may) e = inl (ground (arith, may))
    full_holds c (inr more) e = inr (ground (arith, more, e))

    step-Steps :
        (t : Place K V) (c : Prr K V)
        → MayBe z c.capacity
        → Fair c.map t
        → Steps c (step dec begin f t c)
    unfolding step
    step-Steps (Place.looks x) c size fair = found-Steps x c (lookup dec x c.map)
    step-Steps (Place.evaluates x) c size fair = computed-Steps x c (f x)
    step-Steps (Place.tests x v) c size fair = elim (Bool-cases (full c)) [
      | inl is_full ↦ rw is_full (full_holds c size is_full, refl, λ h. h)
      | inr room ↦ rw room (tt, refl, λ h. h)
    ]
    step-Steps (Place.evicts x v) c size fair = elim (Bool-cases (c.capacity == 0)) [
      | inl no_room ↦ rw no_room (inr (loose c.capacity size no_room), refl, λ h. h)
      | inr room ↦
          rw room
            (evicted-Steps x v c (erase_begin dec begin c) fair (erase_begin-Erases dec begin c))
    ]
    step-Steps (Place.stores x v) c size fair = (inl refl, refl, λ h. inr (omega arith))
    step-Steps (Place.replied x r) c size fair = (fair, refl, λ h. h)
    step-Steps Place.crashed c size fair = (fair, refl, λ h. h)

    Fair-moved : (m m' : List (K × V)) (t : Place K V) → (Held m → Held m') → Fair m t → Fair m' t
    Fair-moved m m' (Place.looks x) h fair = tt
    Fair-moved m m' (Place.evaluates x) h fair = tt
    Fair-moved m m' (Place.tests x v) h fair = tt
    Fair-moved m m' (Place.evicts x v) h fair = h fair
    Fair-moved m m' (Place.stores x v) h fair = tt
    Fair-moved m m' (Place.replied x r) h fair = fair
    Fair-moved m m' Place.crashed h fair = fair

    All-moved :
        (m m' : List (K × V)) (ts : List (Place K V))
        → (Held m → Held m')
        → All (Fair m) ts
        → All (Fair m') ts
    All-moved m m' [] h fair = tt
    All-moved m m' (t ∷ ts) h (fair, fairs) = (Fair-moved m m' t h fair, All-moved m m' ts h fairs)

    abbrev AllFair : System K V → Type 0
    AllFair s = MayBe z s.cache.capacity × All (Fair s.cache.map) s.threads

    next-AllFair :
        (s : System K V) (o : Option (Place K V × List (Place K V)))
        → AllFair s
        → PickAll (Fair s.cache.map) o
        → AllFair (next dec begin f s o)
    next-AllFair s none h p = h
    next-AllFair s (some (t, rest)) (size, fairs) (fair, others) =
        let (now, same, held) = step-Steps t s.cache size fair in
        (
          subst (MayBe z) (sym same) size,
          (now, All-moved s.cache.map (step dec begin f t s.cache).1.map rest held others),
        )

    resized-Held :
        (n : ℕ) (c : Prr K V) (o : Option (Prr K V))
        → MayBe z n
        → MayBe z c.capacity
        → Shrinks dec begin (record c { capacity = n }) o
        → MayBe z (resized dec begin f c o).capacity
          × (Held c.map → Held (resized dec begin f c o).map)
    resized-Held n c none to from h = (from, λ held. held)
    resized-Held n c (some c') (inl may) from (same, keeps) =
        (inl may, λ held. inl (ground (arith, may)))
    resized-Held n c (some c') (inr more) from (same, keeps) = (
      inr (omega (arith, same, more)),
      λ held. elim held [ inl any ↦ inl any | inr there ↦ inr (keeps more there) ],
    )

    fire-AllFair :
        (e : Event K) (s : System K V) → Allowed z k e → AllFair s → AllFair (fire dec begin f e s)
    unfolding fire clear resize
    fire-AllFair (Event.calls x) s may (size, fairs) = (size, (tt, fairs))
    fire-AllFair (Event.turns i) s may h =
        next-AllFair s (pick i s.threads) h (pick-All (Fair s.cache.map) i s.threads h.1)
    fire-AllFair Event.clears s may (size, fairs) =
        (size, All-moved s.cache.map [] s.threads (λ held. inl (ground (arith, may))) fairs)
    fire-AllFair (Event.resizes n) s may (size, fairs) =
        let o = resize dec begin n s.cache in
        let (size', held) =
          resized-Held n s.cache o may size
            (shrink-Shrinks dec begin (length s.cache.map) (record s.cache { capacity = n })) in
        (size', All-moved s.cache.map (resized dec begin f s.cache o).map s.threads held fairs)

    run-AllFair :
        (es : List (Event K)) (s : System K V)
        → All (Allowed z k) es
        → AllFair s
        → AllFair (run dec begin f es s)
    unfolding run
    run-AllFair [] s may h = h
    run-AllFair (e ∷ es) s (may, mays) h =
        run-AllFair es (fire dec begin f e s) mays (fire-AllFair e s may h)

    -- However the steps of any threads that call one prr_cache_threaded are interleaved, with calls of
    -- `clear` and `resize` between them, each thread that is answered is answered as the function does,
    -- its exception included, or by the failed assertion, and what is kept is what the function gives.
    -- The assertion fails only if the cache was made or resized to the size 0 at some time, and a
    -- thread erases an entry of an empty map only then or if the cache was cleared at some time.
    pub answers_lem :
        (n : ℕ) (es : List (Event K))
        → MayBe z n
        → All (Allowed z k) es
        → let s = run dec begin f es (fresh dec begin f n) in
          AllTrue dec begin f s × All (Fair s.cache.map) s.threads
    unfolding create
    answers_lem n es size may =
        let s = fresh dec begin f n in
        (run-True dec begin f es s (tt, tt), (run-AllFair es s may (size, tt)).1)
