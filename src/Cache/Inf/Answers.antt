-- ===== src/Cache/Inf/Answers.antt =====
-- What the threads around an inf_cache are answered, and how often the function is called.
use cogutil.Base.{ℕ, ◌+◌, List, [], ◌∷◌, Option, none, some, All, ◌≡◌, refl, sym, ap, ◌∙◌, arith}
use cogutil.Concurrent.Monitor.{pick, PickAll, pick-All}
use cogutil.Async.Threads.{total, total-pick}
use cogutil.Cache.Lru.Ideal.{lookup}
use cogutil.Cache.Lru.Histories.{reply_of, AreTrue, lookup-AreTrue, drop_key-AreTrue}
use package.cogutil.Cache.Inf.{
  Inf, Place, System, Event, found, computed, step, next, fire, run, fresh,
}

module _ {ℓ} {K V : Type ℓ} (dec : Discrete K) (f : K → Option V) where
  -- What a thread carries is what the function gives, and so is what it is answered.
  abbrev pub Truthful : Place K V → Type ℓ
  Truthful (Place.looks x) = Unit
  Truthful (Place.counts x) = Unit
  Truthful (Place.evaluates x) = Unit
  Truthful (Place.stores x v) = f x ≡ some v
  Truthful (Place.replied x r) = r ≡ reply_of (f x)

  abbrev StepTrue : Place K V × Inf K V → Type ℓ
  StepTrue (t, c) = Truthful t × AreTrue dec f c.map

  found-True :
      (x : K) (c : Inf K V) (o : Option V)
      → lookup dec x c.map ≡ o
      → AreTrue dec f c.map
      → StepTrue (found dec f x c o)
  found-True x c none e a = (tt, a)
  found-True x c (some v) e a = (sym (ap reply_of (lookup-AreTrue dec f x c.map v a e)), a)

  computed-True : (x : K) (o : Option V) → f x ≡ o → Truthful (computed dec f x o)
  computed-True x none e = sym (ap reply_of e)
  computed-True x (some v) e = e

  step-True :
      (t : Place K V) (c : Inf K V) → Truthful t → AreTrue dec f c.map → StepTrue (step dec f t c)
  unfolding step
  step-True (Place.looks x) c h a = found-True x c (lookup dec x c.map) refl a
  step-True (Place.counts x) c h a = (tt, a)
  step-True (Place.evaluates x) c h a = (computed-True x (f x) refl, a)
  step-True (Place.stores x v) c h a = (sym (ap reply_of h), (h, drop_key-AreTrue dec f x c.map a))
  step-True (Place.replied x r) c h a = (h, a)

  abbrev pub AllTrue : System K V → Type ℓ
  AllTrue s = AreTrue dec f s.cache.map × All Truthful s.threads

  next-True :
      (s : System K V) (o : Option (Place K V × List (Place K V)))
      → AllTrue s
      → PickAll Truthful o
      → AllTrue (next dec f s o)
  next-True s none h p = h
  next-True s (some (t, rest)) h p =
      let (truthful, kept) = step-True t s.cache p.0 h.0 in (kept, (truthful, p.1))

  pub fire-True : (e : Event K) (s : System K V) → AllTrue s → AllTrue (fire dec f e s)
  unfolding fire
  fire-True (Event.calls x) s h = (h.0, (tt, h.1))
  fire-True (Event.turns i) s h =
      next-True s (pick i s.threads) h (pick-All Truthful i s.threads h.1)

  pub run-True : (es : List (Event K)) (s : System K V) → AllTrue s → AllTrue (run dec f es s)
  unfolding run
  run-True [] s h = h
  run-True (e ∷ es) s h = run-True es (fire dec f e s) (fire-True e s h)

  -- A call that is neither a hit nor a miss yet.
  abbrev pub uncounted : Place K V → ℕ
  uncounted (Place.looks x) = 1
  uncounted (Place.counts x) = 1
  uncounted (Place.evaluates x) = 0
  uncounted (Place.stores x v) = 0
  uncounted (Place.replied x r) = 0

  abbrev calls_of : Event K → ℕ
  calls_of (Event.calls x) = 1
  calls_of (Event.turns i) = 0

  abbrev pub sum_of_calls : List (Event K) → ℕ
  sum_of_calls = total calls_of

  -- All calls that have been begun.
  abbrev pub begun : System K V → ℕ
  begun s = s.cache.hits + s.cache.misses + total uncounted s.threads

  found-begun :
      (x : K) (c : Inf K V) (o : Option V)
      → (found dec f x c o).1.hits + (found dec f x c o).1.misses + uncounted (found dec f x c o).0
        ≡ c.hits + c.misses + 1
  found-begun x c none = omega arith
  found-begun x c (some v) = omega arith

  uncounted-computed : (x : K) (o : Option V) → uncounted (computed dec f x o) ≡ 0
  uncounted-computed x none = refl
  uncounted-computed x (some v) = refl

  step-begun :
      (t : Place K V) (c : Inf K V)
      → (step dec f t c).1.hits + (step dec f t c).1.misses + uncounted (step dec f t c).0
        ≡ c.hits + c.misses + uncounted t
  unfolding step
  step-begun (Place.looks x) c = found-begun x c (lookup dec x c.map)
  step-begun (Place.counts x) c = omega arith
  step-begun (Place.evaluates x) c = omega (arith, uncounted-computed x (f x))
  step-begun (Place.stores x v) c = refl
  step-begun (Place.replied x r) c = refl

  next-begun :
      (s : System K V) (o : Option (Place K V × List (Place K V)))
      → ((t : Place K V) (rest : List (Place K V))
          → o ≡ some (t, rest)
          → total uncounted s.threads ≡ uncounted t + total uncounted rest)
      → begun (next dec f s o) ≡ begun s
  next-begun s none h = refl
  next-begun s (some (t, rest)) h = omega (arith, h t rest refl, step-begun t s.cache)

  fire-begun : (e : Event K) (s : System K V) → begun (fire dec f e s) ≡ begun s + calls_of e
  unfolding fire
  fire-begun (Event.calls x) s = omega arith
  fire-begun (Event.turns i) s = omega (
    arith,
    next-begun s (pick i s.threads) (λ t rest e. total-pick uncounted i s.threads t rest e),
  )

  run-begun :
      (es : List (Event K)) (s : System K V) → begun (run dec f es s) ≡ begun s + sum_of_calls es
  unfolding run
  run-begun [] s = omega arith
  run-begun (e ∷ es) s = omega (arith, run-begun es (fire dec f e s), fire-begun e s)

  -- However the steps of any threads that call one inf_cache are interleaved, each is answered as the
  -- function does, its exception included, what is kept is what the function gives, and each call
  -- is counted as one hit or one miss, or will be.
  pub answers_of_inf_cache :
      (es : List (Event K))
      → AllTrue (run dec f es (fresh dec f))
        × (begun (run dec f es (fresh dec f)) ≡ sum_of_calls es)
  answers_of_inf_cache es =
      (run-True es (fresh dec f) (tt, tt), run-begun es (fresh dec f) ∙ omega arith)
