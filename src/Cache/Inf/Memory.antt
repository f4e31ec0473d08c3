-- ===== src/Cache/Inf/Memory.antt =====
-- What an inf_cache keeps.
use cogutil.Base.{List, [], ◌∷◌, Option, none, some, ◌≡◌, refl, sym, ap, ◌∙◌, arith, ◌+◌}
use mathlib.Core.Logic.{if_pos, if_neg}
use cogutil.Concurrent.Monitor.{pick, PickAll, pick-All}
use cogutil.Cache.Lru.{value}
use cogutil.Cache.Lru.Ideal.{lookup, drop_key}
use cogutil.Cache.Lru.Histories.{lookup-AreTrue}
use package.cogutil.Cache.Inf.{
  Inf, Place, System, Event, found, assigned, step, next, fire, run, fresh,
}
use package.cogutil.Cache.Inf.Answers.{Truthful, AllTrue, fire-True, run-True}

module _ {ℓ} {K V : Type ℓ} (dec : Discrete K) (f : K → Option V) where
  lookup-drop_key_ne :
      (x y : K) (m : List (K × V)) → (y ≡ x → ⊥) → lookup dec x (drop_key dec y m) ≡ lookup dec x m
  unfolding lookup drop_key
  lookup-drop_key_ne x y [] h = refl
  lookup-drop_key_ne x y ((k, v) ∷ m) h = ground (arith, lookup-drop_key_ne x y m h, h)

  -- What is stored for an argument stays.
  assigned-lookup :
      (x y : K) (v w : V) (c : Inf K V)
      → f x ≡ some v
      → f y ≡ some w
      → lookup dec x c.map ≡ some v
      → lookup dec x (assigned dec f y w c).map ≡ some v
  unfolding lookup
  assigned-lookup x y v w c e e' h = elim (dec y x) [
    | yes p ↦ rw (if_pos _ p) (sym e' ∙ ap f p ∙ e)
    | no p ↦ rw (if_neg _ p) (lookup-drop_key_ne x y c.map p ∙ h)
  ]

  found-map : (x : K) (c : Inf K V) (o : Option V) → (found dec f x c o).1.map ≡ c.map
  found-map x c none = refl
  found-map x c (some v) = refl

  step-lookup :
      (x : K) (v : V) (t : Place K V) (c : Inf K V)
      → f x ≡ some v
      → Truthful dec f t
      → lookup dec x c.map ≡ some v
      → lookup dec x (step dec f t c).1.map ≡ some v
  unfolding step
  step-lookup x v (Place.looks y) c e h kept =
      ap (lookup dec x) (found-map y c (lookup dec y c.map)) ∙ kept
  step-lookup x v (Place.counts y) c e h kept = kept
  step-lookup x v (Place.evaluates y) c e h kept = kept
  step-lookup x v (Place.stores y w) c e h kept = assigned-lookup x y v w c e h kept
  step-lookup x v (Place.replied y r) c e h kept = kept

  next-lookup :
      (x : K) (v : V) (s : System K V) (o : Option (Place K V × List (Place K V)))
      → f x ≡ some v
      → PickAll (Truthful dec f) o
      → lookup dec x s.cache.map ≡ some v
      → lookup dec x (next dec f s o).cache.map ≡ some v
  next-lookup x v s none e p kept = kept
  next-lookup x v s (some (t, rest)) e p kept = step-lookup x v t s.cache e p.0 kept

  run-lookup :
      (x : K) (v : V) (es : List (Event K)) (s : System K V)
      → f x ≡ some v
      → AllTrue dec f s
      → lookup dec x s.cache.map ≡ some v
      → lookup dec x (run dec f es s).cache.map ≡ some v
  unfolding run fire
  run-lookup x v [] s e h kept = kept
  run-lookup x v (Event.calls y ∷ es) s e h kept =
      run-lookup x v es (fire dec f (Event.calls y) s) e (fire-True dec f (Event.calls y) s h) kept
  run-lookup x v (Event.turns i ∷ es) s e h kept =
      run-lookup x v es (fire dec f (Event.turns i) s) e (fire-True dec f (Event.turns i) s h)
        (next-lookup x v s (pick i s.threads) e (pick-All (Truthful dec f) i s.threads h.1) kept)

  -- Once an inf_cache has a result for an argument, then after whatever steps of any threads the
  -- search of a call finds that result, and the call is a hit that leaves the map as it is.
  pub never_forgets :
      (es es' : List (Event K)) (x : K) (v : V)
      → lookup dec x (run dec f es (fresh dec f)).cache.map ≡ some v
      → let c = (run dec f es' (run dec f es (fresh dec f))).cache in
        step dec f (Place.looks x) c ≡ (Place.replied x (value v), record c { hits = c.hits + 1 })
  unfolding step
  never_forgets es es' x v kept =
      let s = run dec f es (fresh dec f) in
      let all = run-True dec f es (fresh dec f) (tt, tt) in
      let e = lookup-AreTrue dec f x s.cache.map v all.0 kept in
      ap (found dec f x (run dec f es' s).cache) (run-lookup x v es' s e all kept)
