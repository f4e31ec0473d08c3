-- ===== src/Cache/Prr/Bounded.antt =====
-- Properties of `prr_cache` of opencog/util/lru_cache.h.
use cogutil.Base.{
  suc, ◌+◌, ◌≤◌, ◌<◌, true, false, List, [], ◌∷◌, Option, none, some, length, is_nil, ◌≡◌, refl,
  arith, Bool-cases, inl, inr, ap,
}
use mathlib.Core.Logic.{if_pos, if_neg}
use cogutil.Cache.Lru.{Reply}
use cogutil.Cache.Lru.Ideal.{lookup, drop_key}
use cogutil.Cache.Lru.Histories.{reply_of, AreTrue, lookup-AreTrue, drop_key-AreTrue}
use package.cogutil.Cache.Prr.{
  Prr, create, call, full, erase_begin, evaluated, answered, then_stored, stored, missed,
}

module _ {ℓ} {K V : Type ℓ} (dec : Discrete K) where
  length-drop_key :
      (k : K) (v : V) (m : List (K × V))
      → lookup dec k m ≡ some v
      → suc (length (drop_key dec k m)) ≡ length m
  unfolding lookup drop_key
  length-drop_key k v [] h = cc
  length-drop_key k v ((j, w) ∷ m) h = elim (dec j k) [
    | yes p ↦ rw (if_pos _ p) refl
    | no p ↦ rw (if_neg _ p) (ap suc (length-drop_key k v m (rw (if_neg _ p) at h)))
  ]

  -- An iteration over a map that is not empty begins at one of its keys.
  abbrev Begins : (List (K × V) → K) → Type ℓ
  Begins begin = (m : List (K × V)) → is_nil m ≡ false → (v : V) × (lookup dec (begin m) m ≡ some v)

module _ {ℓ} {K V : Type ℓ} (dec : Discrete K) (f : K → Option V) where
  -- There is room for a result, none too many are kept, and those that are kept are true.
  record Inv (c : Prr K V) : Type ℓ where
    pub room : 0 < c.capacity
    pub bounded : length c.map ≤ c.capacity
    pub are_true : AreTrue dec f c.map

  module _ (begin : List (K × V) → K) (begins : Begins dec begin) where
    -- A step ends, replies as the function does, and keeps the invariant.
    abbrev Good : K → Option (Reply V × Prr K V) → Type ℓ
    Good x r = (c' : Prr K V) × (r ≡ some (reply_of (f x), c')) × Inv c'

    has_begin : (m : List (K × V)) → 0 < length m → is_nil m ≡ false
    has_begin [] h = absurd (omega (arith, h))
    has_begin (p ∷ m) h = refl

    evicted-Good :
        (x : K) (v : V) (c : Prr K V)
        → Inv c
        → f x ≡ some v
        → full c ≡ true
        → Good x (then_stored dec begin x v (erase_begin dec begin c))
    unfolding full erase_begin
    evicted-Good x v c i h is_full =
        let size : length c.map ≡ c.capacity = ground (arith, is_full) in
        let some' = has_begin c.map (omega (arith, i.room, size)) in
        let one_less =
          length-drop_key dec (begin c.map) (begins c.map some').0 c.map (begins c.map some').1 in
        (
          stored x v (record c { map = drop_key dec (begin c.map) c.map }),
          rw (erase_begin, some', h) refl,
          record {
            room = i.room;
            bounded = omega (arith, one_less, i.bounded);
            are_true = (h, drop_key-AreTrue dec f (begin c.map) c.map i.are_true);
          },
        )

    kept-Good :
        (x : K) (v : V) (c : Prr K V)
        → Inv c
        → f x ≡ some v
        → full c ≡ false
        → Good x (then_stored dec begin x v (some c))
    unfolding full
    kept-Good x v c i h not_full = (
      stored x v c,
      rw h refl,
      record {
        room = i.room;
        bounded = ground (arith, not_full, i.bounded);
        are_true = (h, i.are_true);
      },
    )

    evaluated-Good :
        (x : K) (c : Prr K V) (r : Option V) → Inv c → f x ≡ r → Good x (evaluated dec begin x c r)
    unfolding evaluated
    evaluated-Good x c none i h = (c, rw h refl, i)
    evaluated-Good x c (some v) i h = elim (Bool-cases (full c)) [
      | inl is_full ↦ rw is_full (evicted-Good x v c i h is_full)
      | inr not_full ↦ rw not_full (kept-Good x v c i h not_full)
    ]

    answered-Good :
        (x : K) (c : Prr K V) (r : Option V)
        → Inv c
        → lookup dec x c.map ≡ r
        → Good x (answered dec begin f x c r)
    unfolding answered
    answered-Good x c none i h =
        evaluated-Good x (missed c) (f x)
          (record { room = i.room; bounded = i.bounded; are_true = i.are_true }) refl
    answered-Good x c (some v) i h = (
      record c { hits = c.hits + 1 },
      rw (lookup-AreTrue dec f x c.map v i.are_true h) refl,
      record { room = i.room; bounded = i.bounded; are_true = i.are_true },
    )

    -- A call of a cache that has room for a result, keeps no more than that and only what the
    -- function gives, replies as the function does, its exception included, and keeps the
    -- invariant, whichever entry goes.
    call-Good : (x : K) (c : Prr K V) → Inv c → Good x (call dec begin f x c)
    unfolding call
    call-Good x c i = answered-Good x c (lookup dec x c.map) i refl

    -- A call of a new cache of size 0 follows the iterator of an empty map, wherever the function
    -- gives a result.
    call_without_room : (x : K) (v : V) → f x ≡ some v → call dec begin f x (create 0) ≡ none
    unfolding call lookup create answered evaluated full erase_begin
    call_without_room x v h = rw h refl
