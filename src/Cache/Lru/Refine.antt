-- ===== src/Cache/Lru/Refine.antt =====
-- `lru_cache` against a list of arguments and results, the most recently used first.
use cogutil.Base.{
  ℕ, suc, ◌+◌, ◌<◌, true, List, [], ◌∷◌, Option, none, some, ◌≡◌, refl, arith, length, ◌==◌,
  if◌then◌else◌, ap, ltb, is_nil, Bool-cases, inl, inr,
}
use cogutil.Cache.Entries.{Entry, contents, find, erase, drop_last}
use cogutil.Cache.Entries.Laws.{find_key}
use cogutil.Cache.Lru.{
  Cache, Reply, value, call, search_call, insert_call, call_only, evict, checked, push_front,
  new_node, full, evicted, replied,
}
use cogutil.Cache.Lru.Ideal.{
  lookup, drop_key, missed, ideal, find-lookup, find-lookup-none, contents-erase,
  contents-drop_last, length-contents,
}
use cogutil.Cache.Lru.Inv.{Inv, hit-Inv, miss-Inv, throw-Inv, counted, evict-Inv, length-nodes}

module _ {ℓ} {K V : Type ℓ} (dec : Discrete K) where
  -- What a call has to give: the ideal reply, and a state for the ideal contents.
  pub record Meets (n : ℕ) (out : Reply V × Cache K V) (spec : Reply V × List (K × V))
      : Type ℓ where
    pub reply : out.0 ≡ spec.0
    pub size : out.1.capacity ≡ n
    pub es : List (Entry K V)
    pub holds : contents es ≡ spec.1
    pub inv : Inv dec out.1 es

  -- A miss for which the function returns: the new entry in front, and the last one gone if there
  -- is one too many. The assertions hold.
  checked_lem :
      (v : V) (c : Cache K V) (es : List (Entry K V)) → Inv dec c es → checked v c ≡ (value v, c)
  unfolding checked
  checked_lem v c es i = ground (arith, i.sizes, i.bounded, ap length i.order, length-nodes es)

  capacity-evict : (c : Cache K V) → (evict dec c).capacity ≡ c.capacity
  unfolding evict
  capacity-evict c = ground arith

  pub contents-trim :
      (n : ℕ) (x : Entry K V) (es : List (Entry K V))
      → contents (if ltb n (suc (length es)) then drop_last (x ∷ es) else x ∷ es) ≡ (
          if ltb n (suc (length es))
          then drop_last ((x.0.key, x.1) ∷ contents es)
          else (x.0.key, x.1) ∷ contents es)
  contents-trim n x es = elim (Bool-cases (ltb n (suc (length es)))) [
    | inl more ↦ rw more (contents-drop_last (x ∷ es))
    | inr enough ↦ rw enough refl
  ]

  -- The state after a miss, and the reply.
  miss_returns :
      (f : K → Option V) (x : K) (v : V) (c : Cache K V) (es : List (Entry K V))
      → Inv dec c es
      → find dec x es ≡ none
      → f x ≡ some v
      → Meets c.capacity
          (evicted dec (insert_call f x (new_node x c) (push_front x c)))
          (missed c.capacity x (contents es) (some v))
  unfolding insert_call
  miss_returns f x v c es i h r =
      let added = record (push_front x c) {
        map = (new_node x c, v) ∷ c.map;
        misses = c.misses + 1;
      } in
      let kept =
        if ltb c.capacity (suc (length es))
        then drop_last ((new_node x c, v) ∷ es)
        else (new_node x c, v) ∷ es in
      let i' =
        evict-Inv dec added (new_node x c, v) es
          (miss-Inv dec x v c es (suc c.capacity) i h (omega (arith, i.bounded))) in
      rw (r, insert_call, checked_lem v (evict dec added) kept i')
        (record {
          reply = refl;
          size = capacity-evict added;
          es = kept;
          holds = rw (length-contents es) (contents-trim c.capacity (new_node x c, v) es);
          inv = i';
        })

  miss_throws :
      (f : K → Option V) (x : K) (c : Cache K V) (es : List (Entry K V))
      → Inv dec c es
      → f x ≡ none
      → Meets c.capacity
          (evicted dec (insert_call f x (new_node x c) (push_front x c)))
          (missed c.capacity x (contents es) none)
  unfolding insert_call
  miss_throws f x c es i r =
      rw (r, insert_call)
        (record { reply = refl; size = refl; es = es; holds = refl; inv = throw-Inv dec c es i })

  miss-Meets :
      (f : K → Option V) (x : K) (c : Cache K V) (es : List (Entry K V)) (r : Option V)
      → Inv dec c es
      → find dec x es ≡ none
      → f x ≡ r
      → Meets c.capacity
          (evicted dec (insert_call f x (new_node x c) (push_front x c)))
          (missed c.capacity x (contents es) r)
  miss-Meets f x c es none i h e = miss_throws f x c es i e
  miss-Meets f x c es (some v) i h e = miss_returns f x v c es i h e

  hit-Meets :
      (f : K → Option V) (x : K) (c : Cache K V) (es : List (Entry K V)) (e : Entry K V)
      → Inv dec c es
      → find dec x es ≡ some e
      → Meets c.capacity
          (search_call dec f x (new_node x c) (push_front x c) (some e))
          (value e.1, (x, e.1) ∷ drop_key dec x (contents es))
  unfolding search_call
  hit-Meets f x c es e i h = record {
    reply = refl;
    size = refl;
    es = e ∷ erase dec x es;
    holds = rw (find_key dec x es e h, contents-erase dec x es) refl;
    inv = hit-Inv dec x c es e i h;
  }

  search-Meets :
      (f : K → Option V) (x : K) (c : Cache K V) (es : List (Entry K V)) (p : Option (Entry K V))
      → Inv dec c es
      → find dec x es ≡ p
      → Meets c.capacity
          (search_call dec f x (new_node x c) (push_front x c) p)
          (ideal dec c.capacity f x (contents es))
  unfolding ideal
  search-Meets f x c es none i h =
      rw (find-lookup-none dec x es h, ideal)
        (unfold search_call in miss-Meets f x c es (f x) i h refl)
  search-Meets f x c es (some e) i h =
      rw (find-lookup dec x es e h, ideal) (hit-Meets f x c es e i h)

  -- The first call: a cache of size 0 computes, any other one keeps the result.
  only-Meets :
      (f : K → Option V) (x : K) (c : Cache K V) (r : Option V)
      → Inv dec c []
      → c.capacity ≡ 0
      → f x ≡ r
      → Meets c.capacity (call_only f x c) (missed c.capacity x [] r)
  unfolding call_only drop_last
  only-Meets f x c none i z e =
      rw (e, call_only)
        (record { reply = refl; size = refl; es = []; holds = refl; inv = counted dec c i })
  only-Meets f x c (some v) i z e =
      rw (e, call_only)
        (record { reply = refl; size = refl; es = []; holds = rw z refl; inv = counted dec c i })

  first-Meets :
      (f : K → Option V) (x : K) (c : Cache K V) (r : Option V)
      → Inv dec c []
      → 0 < c.capacity
      → f x ≡ r
      → Meets c.capacity
          (replied (insert_call f x (new_node x c) (push_front x c)))
          (missed c.capacity x [] r)
  unfolding insert_call find
  first-Meets f x c none i z e =
      rw (e, insert_call)
        (record { reply = refl; size = refl; es = []; holds = refl; inv = throw-Inv dec c [] i })
  first-Meets f x c (some v) i z e =
      rw (e, insert_call)
        (record {
          reply = refl;
          size = refl;
          es = (new_node x c, v) ∷ [];
          holds = ground arith;
          inv = miss-Inv dec x v c [] c.capacity i refl z;
        })

  empty-Meets :
      (f : K → Option V) (x : K) (c : Cache K V) (es : List (Entry K V))
      → Inv dec c es
      → es ≡ []
      → Meets c.capacity
          (if full c
            then call_only f x c
            else replied (insert_call f x (new_node x c) (push_front x c)))
          (ideal dec c.capacity f x (contents es))
  unfolding full ideal lookup
  empty-Meets f x c [] i h = elim (Bool-cases (length c.map == c.capacity)) [
    | inl none' ↦ rw none' (only-Meets f x c (f x) i (ground (arith, i.sizes)) refl)
    | inr room ↦ rw room (first-Meets f x c (f x) i (ground (arith, i.sizes)) refl)
  ]
  empty-Meets f x c (e ∷ es) i h = cc

  is_nil-eq : (xs ys : List (Entry K V)) → is_nil xs ≡ true → length xs ≡ length ys → ys ≡ []
  is_nil-eq [] [] h e = refl
  is_nil-eq [] (y ∷ ys) h e = absurd (omega arith)
  is_nil-eq (x ∷ xs) ys h e = cc

  -- A call on a cache that holds certain arguments and results, the most recently used first,
  -- replies as the ideal cache does, and holds what the ideal cache holds then, in the same order:
  -- a hit is not computed again and moves to the front, a miss is put in front and the least
  -- recently used result goes if there is no room, an exception changes nothing. No assertion
  -- fails. This includes the cache of size 0, which keeps nothing.
  pub call-Meets :
      (f : K → Option V) (x : K) (c : Cache K V) (es : List (Entry K V))
      → Inv dec c es
      → Meets c.capacity (call dec f x c) (ideal dec c.capacity f x (contents es))
  unfolding call
  call-Meets f x c es i = elim (Bool-cases (is_nil c.map)) [
    | inl none' ↦ rw none' (empty-Meets f x c es i (is_nil-eq c.map es none' i.sizes))
    | inr some' ↦ rw (some', i.agrees x) (search-Meets f x c es (find dec x es) i refl)
  ]
