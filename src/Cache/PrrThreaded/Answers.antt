-- ===== src/Cache/PrrThreaded/Answers.antt =====
-- What the threads around a prr_cache_threaded carry is what the function gives.
use cogutil.Base.{
  ℕ, zero, suc, List, [], ◌∷◌, Option, none, some, All, ◌≡◌, refl, sym, ap, ltb, is_nil, length,
  inl, inr, ◌==◌, Bool-cases, ◌⊎◌,
}
use cogutil.Concurrent.Monitor.{pick, PickAll, pick-All}
use cogutil.Cache.Lru.{failed}
use cogutil.Cache.Lru.Ideal.{lookup}
use cogutil.Cache.Lru.Histories.{reply_of, AreTrue, lookup-AreTrue, drop_key-AreTrue}
use cogutil.Cache.Prr.{Prr, full, clear, erase_begin, shrink, resize}
use cogutil.Cache.PrrThreaded.{
  Place, System, Event, found, computed, evicted, assigned, step, next, resized, fire, run,
}

module _ {ℓ} {K V : Type ℓ} (dec : Discrete K) (begin : List (K × V) → K) (f : K → Option V) where
  -- What a thread carries is what the function gives, and so is what it is answered, but for the
  -- assertion on a cache of size 0.
  abbrev pub Truthful : Place K V → Type ℓ
  Truthful (Place.looks x) = Unit
  Truthful (Place.evaluates x) = Unit
  Truthful (Place.tests x v) = f x ≡ some v
  Truthful (Place.evicts x v) = f x ≡ some v
  Truthful (Place.stores x v) = f x ≡ some v
  Truthful (Place.replied x r) = (r ≡ reply_of (f x)) ⊎ (r ≡ failed)
  Truthful Place.crashed = Unit

  abbrev StepTrue : Place K V × Prr K V → Type ℓ
  StepTrue (t, c) = Truthful t × AreTrue dec f c.map

  found-True :
      (x : K) (c : Prr K V) (o : Option V)
      → lookup dec x c.map ≡ o
      → AreTrue dec f c.map
      → StepTrue (found dec begin f x c o)
  found-True x c none e a = (tt, a)
  found-True x c (some v) e a = (inl (sym (ap reply_of (lookup-AreTrue dec f x c.map v a e))), a)

  computed-True :
      (x : K) (c : Prr K V) (o : Option V)
      → f x ≡ o
      → AreTrue dec f c.map
      → StepTrue (computed dec begin f x c o)
  computed-True x c none e a = (inl (sym (ap reply_of e)), a)
  computed-True x c (some v) e a = (e, a)

  assigned-True :
      (x : K) (v : V) (c : Prr K V)
      → f x ≡ some v
      → AreTrue dec f c.map
      → AreTrue dec f (assigned dec begin f x v c).map
  assigned-True x v c e a = (e, drop_key-AreTrue dec f x c.map a)

  -- What is kept, where there is a cache at all.
  abbrev OptionTrue : Option (Prr K V) → Type ℓ
  OptionTrue none = Unit
  OptionTrue (some c) = AreTrue dec f c.map

  erase_begin-True : (c : Prr K V) → AreTrue dec f c.map → OptionTrue (erase_begin dec begin c)
  unfolding erase_begin
  erase_begin-True c a = elim (Bool-cases (is_nil c.map)) [
    | inl nothing ↦ rw nothing tt
    | inr some_map ↦ rw some_map (drop_key-AreTrue dec f (begin c.map) c.map a)
  ]

  evicted-True :
      (x : K) (v : V) (c : Prr K V) (o : Option (Prr K V))
      → f x ≡ some v
      → OptionTrue o
      → AreTrue dec f c.map
      → StepTrue (evicted dec begin f x v c o)
  evicted-True x v c none e o a = (tt, a)
  evicted-True x v c (some c') e o a = (inl (sym (ap reply_of e)), assigned-True x v c' e o)

  step-True :
      (t : Place K V) (c : Prr K V)
      → Truthful t
      → AreTrue dec f c.map
      → StepTrue (step dec begin f t c)
  unfolding step
  step-True (Place.looks x) c h a = found-True x c (lookup dec x c.map) refl a
  step-True (Place.evaluates x) c h a = computed-True x c (f x) refl a
  step-True (Place.tests x v) c h a = elim (Bool-cases (full c)) [
    | inl is_full ↦ rw is_full (h, a)
    | inr room ↦ rw room (h, a)
  ]
  step-True (Place.evicts x v) c h a = elim (Bool-cases (c.capacity == 0)) [
    | inl no_room ↦ rw no_room (inr refl, a)
    | inr room ↦ rw room (evicted-True x v c (erase_begin dec begin c) h (erase_begin-True c a) a)
  ]
  step-True (Place.stores x v) c h a = (inl (sym (ap reply_of h)), assigned-True x v c h a)
  step-True (Place.replied x r) c h a = (h, a)
  step-True Place.crashed c h a = (tt, a)

  shrink_next :
      (fuel : ℕ) (c : Prr K V) (o : Option (Prr K V))
      → ((c' : Prr K V) → AreTrue dec f c'.map → OptionTrue (shrink dec begin fuel c'))
      → OptionTrue o
      → OptionTrue (elim o [ none ↦ none | some c' ↦ shrink dec begin fuel c' ])
  shrink_next fuel c none next h = tt
  shrink_next fuel c (some c') next h = next c' h

  shrink-True :
      (fuel : ℕ) (c : Prr K V) → AreTrue dec f c.map → OptionTrue (shrink dec begin fuel c)
  unfolding shrink
  shrink-True zero c a = a
  shrink-True (suc fuel) c a = elim (Bool-cases (ltb c.capacity (length c.map))) [
    | inl over ↦
        rw over
          (shrink_next fuel c (erase_begin dec begin c) (shrink-True fuel) (erase_begin-True c a))
    | inr fits ↦ rw fits a
  ]

  -- What is kept, and all threads.
  abbrev pub AllTrue : System K V → Type ℓ
  AllTrue s = AreTrue dec f s.cache.map × All Truthful s.threads

  next-True :
      (s : System K V) (o : Option (Place K V × List (Place K V)))
      → AllTrue s
      → PickAll Truthful o
      → AllTrue (next dec begin f s o)
  next-True s none h p = h
  next-True s (some (t, rest)) h p =
      let (truthful, kept) = step-True t s.cache p.0 h.0 in (kept, (truthful, p.1))

  resized-True :
      (c : Prr K V) (o : Option (Prr K V))
      → AreTrue dec f c.map
      → OptionTrue o
      → AreTrue dec f (resized dec begin f c o).map
  resized-True c none a o = a
  resized-True c (some c') a o = o

  fire-True : (e : Event K) (s : System K V) → AllTrue s → AllTrue (fire dec begin f e s)
  unfolding fire clear resize
  fire-True (Event.calls x) s h = (h.0, (tt, h.1))
  fire-True (Event.turns i) s h =
      next-True s (pick i s.threads) h (pick-All Truthful i s.threads h.1)
  fire-True Event.clears s h = (tt, h.1)
  fire-True (Event.resizes n) s h = (
    resized-True s.cache (resize dec begin n s.cache) h.0
        (shrink-True (length s.cache.map) (record s.cache { capacity = n }) h.0),
    h.1,
  )

  pub run-True : (es : List (Event K)) (s : System K V) → AllTrue s → AllTrue (run dec begin f es s)
  unfolding run
  run-True [] s h = h
  run-True (e ∷ es) s h = run-True es (fire dec begin f e s) (fire-True e s h)
