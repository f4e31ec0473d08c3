-- ===== src/Cache/ArgResult/Refine.antt =====
-- Single calls of `lru_cache_arg_result` against the ideal cache of one result less.
use cogutil.Base.{
  ℕ, suc, ◌+◌, ◌-◌, ◌<◌, List, ◌∷◌, Option, none, some, if◌then◌else◌, length, ltb, ◌==◌, ◌≡◌, refl,
  sym, ap, ◌∙◌, subst, arith, Bool-cases, inl, inr,
}
use cogutil.Cache.Entries.{Node, Entry, contents, unlink, erase, drop_last, get_last?}
use cogutil.Cache.Entries
use cogutil.Cache.Entries.Laws.{find_key}
use cogutil.Cache.Lru.{Cache, evict}
use cogutil.Cache.Lru.Ideal.{
  lookup, drop_key, find-lookup, find-lookup-none, contents-erase, length-contents,
}
use cogutil.Cache.Lru.Inv.{Inv, hit-Inv, miss-Inv, throw-Inv, evict-Inv}
use cogutil.Cache.Lru.Refine.{contents-trim}
use package.cogutil.Cache.ArgResult.{ArgResult, find, insert_new, full, spliced}

module _ {ℓ} {K V : Type ℓ} (dec : Discrete K) where
  -- The state as that of an lru_cache with one result less.
  abbrev as_cache : ArgResult K V → Cache K V
  as_cache c = record {
    capacity = c.capacity - 1;
    lru = c.lru;
    map = c.map;
    next = c.next;
    hits = 0;
    misses = 0;
  }

  -- The cache holds these arguments and results, the most recently used first.
  pub record Holds (c : ArgResult K V) (a : List (K × V)) : Type ℓ where
    pub es : List (Entry K V)
    pub are : contents es ≡ a
    pub inv : Inv dec (as_cache c) es

  recount :
      (c : Cache K V) (es : List (Entry K V)) (h m : ℕ)
      → Inv dec c es
      → Inv dec (record c { hits = h; misses = m }) es
  recount c es h m i = record {
    order = i.order;
    agrees = i.agrees;
    sizes = i.sizes;
    bounded = i.bounded;
    distinct = i.distinct;
    unique = i.unique;
    ids = i.ids;
    fresh = i.fresh;
  }

  -- What a search leaves.
  abbrev pub after_search : K → List (K × V) → Option V → List (K × V)
  after_search x a none = a
  after_search x a (some v) = (x, v) ∷ drop_key dec x a

  spliced-Holds :
      (x : K) (c : ArgResult K V) (es : List (Entry K V)) (o : Option (Entry K V))
      → Inv dec (as_cache c) es
      → Entries.find dec x es ≡ o
      → Holds
          (spliced (record c { next = c.next + 1 }) o).1
          (after_search x (contents es) (lookup dec x (contents es)))
  unfolding spliced
  spliced-Holds x c es none i h = rw (find-lookup-none dec x es h) (record {
    es = es;
    are = refl;
    inv =
        recount (record (as_cache c) { next = c.next + 1; misses = 1 }) es 0 0
          (throw-Inv dec (as_cache c) es i);
  })
  spliced-Holds x c es (some e) i h = rw (find-lookup dec x es e h) (record {
    es = e ∷ erase dec x es;
    are = rw (find_key dec x es e h, contents-erase dec x es) refl;
    inv =
        recount
          (record (as_cache c) { lru = e.0 ∷ unlink e.0.id c.lru; next = c.next + 1; hits = 1 })
          (e ∷ erase dec x es) 0 0 (hit-Inv dec x (as_cache c) es e i h);
  })

  pub find-Holds :
      (x : K) (c : ArgResult K V) (a : List (K × V))
      → Holds c a
      → Holds (find dec x c).1 (after_search x a (lookup dec x a))
  unfolding find
  find-Holds x c a h =
      subst (λ (b : List (K × V)). Holds (find dec x c).1 (after_search x b (lookup dec x b))) h.are
        (rw (h.inv.agrees x) (spliced-Holds x c h.es (Entries.find dec x h.es) h.inv refl))

  -- What `find` returns.
  abbrev pub value_of : Option (Entry K V) → Option V
  value_of none = none
  value_of (some e) = some e.1

  value_of-spliced : (c : ArgResult K V) (o : Option (Entry K V)) → (spliced c o).0 ≡ o
  unfolding spliced
  value_of-spliced c none = refl
  value_of-spliced c (some e) = refl

  value_of-find :
      (x : K) (es : List (Entry K V)) (o : Option (Entry K V))
      → Entries.find dec x es ≡ o
      → value_of o ≡ lookup dec x (contents es)
  value_of-find x es none h = sym (find-lookup-none dec x es h)
  value_of-find x es (some e) h = sym (find-lookup dec x es e h)

  pub find-value :
      (x : K) (c : ArgResult K V) (a : List (K × V))
      → Holds c a
      → value_of (find dec x c).0 ≡ lookup dec x a
  unfolding find
  find-value x c a h =
      ap value_of (value_of-spliced (record c { next = c.next + 1 }) (Entries.find dec x c.map))
      ∙ value_of-find x h.es (Entries.find dec x c.map) (sym (h.inv.agrees x))
      ∙ ap (lookup dec x) h.are

  -- What an insertion leaves of an ideal cache of a size.
  abbrev pub after_insertion : ℕ → K → V → List (K × V) → List (K × V)
  after_insertion n x y a = if ltb n (suc (length a)) then drop_last ((x, y) ∷ a) else (x, y) ∷ a

  insert_new-evict :
      (x : K) (y : V) (c : ArgResult K V) (es : List (Entry K V))
      → 0 < c.capacity
      → Inv dec (as_cache c) es
      → Entries.find dec x c.map ≡ none
      → as_cache (insert_new dec x y c)
        ≡ evict dec (record (as_cache c) {
          lru = record { id = c.next; key = x } ∷ c.lru;
          map = (record { id = c.next; key = x }, y) ∷ c.map;
          next = c.next + 1;
        })
  unfolding insert_new full evict
  insert_new-evict x y c es room i h =
      let same : ltb (c.capacity - 1) (suc (length c.map)) ≡ (suc (length c.map) == c.capacity) =
        ground (arith, room, i.sizes, i.bounded) in
      elim (Bool-cases (suc (length c.map) == c.capacity)) [
        | inl too_many ↦ rw (h, too_many, same ∙ too_many) refl
        | inr enough ↦ rw (h, enough, same ∙ enough) refl
      ]

  insert_new-Inv :
      (x : K) (y : V) (c : ArgResult K V) (es : List (Entry K V))
      → 0 < c.capacity
      → Inv dec (as_cache c) es
      → Entries.find dec x es ≡ none
      → Holds (insert_new dec x y c) (after_insertion (c.capacity - 1) x y (contents es))
  insert_new-Inv x y c es room i h =
      let node : Node K = record { id = c.next; key = x } in
      let added = record (as_cache c) {
        lru = node ∷ c.lru;
        map = (node, y) ∷ c.map;
        next = c.next + 1;
      } in
      let kept =
        if ltb (c.capacity - 1) (suc (length es))
        then drop_last ((node, y) ∷ es)
        else (node, y) ∷ es in
      record {
        es = kept;
        are = rw (length-contents es) (contents-trim dec (c.capacity - 1) (node, y) es);
        inv =
            subst (λ (z : Cache K V). Inv dec z kept)
              (sym (insert_new-evict x y c es room i (i.agrees x ∙ h)))
              (evict-Inv dec added (node, y) es
                (recount (record added { capacity = suc (c.capacity - 1); misses = 1 })
                  ((node, y) ∷ es) 0 0
                  (miss-Inv dec x y (as_cache c) es (suc (c.capacity - 1)) i h
                    (omega (arith, i.bounded)))));
      }

  lookup-find-none :
      (x : K) (es : List (Entry K V)) (o : Option (Entry K V))
      → Entries.find dec x es ≡ o
      → lookup dec x (contents es) ≡ none
      → Entries.find dec x es ≡ none
  lookup-find-none x es none h e = h
  lookup-find-none x es (some n) h e = cc (find-lookup dec x es n h, e)

  pub insert_new-Holds :
      (x : K) (y : V) (c : ArgResult K V) (a : List (K × V))
      → 0 < c.capacity
      → Holds c a
      → lookup dec x a ≡ none
      → Holds (insert_new dec x y c) (after_insertion (c.capacity - 1) x y a)
  insert_new-Holds x y c a room h absent =
      subst
        (λ (b : List (K × V)).
          Holds (insert_new dec x y c) (after_insertion (c.capacity - 1) x y b))
        h.are
        (insert_new-Inv x y c h.es room h.inv (
          lookup-find-none x h.es (Entries.find dec x h.es) refl
            (ap (lookup dec x) h.are ∙ absent)))
