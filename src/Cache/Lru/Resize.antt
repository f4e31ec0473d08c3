-- ===== src/Cache/Lru/Resize.antt =====
-- `remove`, `clear` and `resize` of `lru_cache` against the list of arguments and results.
use cogutil.Base.{
  ℕ, zero, suc, ◌+◌, ◌-◌, ◌≤◌, ◌<◌, false, List, [], ◌∷◌, Option, none, some, ◌≡◌, refl, arith,
  length, ap, sym, subst, ◌∙◌, ltb, Bool-cases, inl, inr, drop,
}
use mathlib.Core.Logic.{if_pos}
use cogutil.Cache.Entries.{Node, Entry, find, erase, unlink}
use cogutil.Cache.Entries.Laws.{
  find_key, erase_absent, length-erase, All-find, unlink-erase, IdsBelow-mono,
}
use cogutil.Cache.Lru.{
  Cache, create, remove, remove_found, clear, push_front, new_node, pop_front, resize, shrink,
  shrink_found, front_found,
}
use cogutil.Cache.Lru.Inv.{Inv, erase-Inv, Inv-capacity, length-nodes}

module _ {ℓ} {K : Type ℓ} where
  unlink_behind :
      (n : Node K) (ns : List (Node K)) (i : ℕ) → i < n.id → unlink i (n ∷ ns) ≡ n ∷ unlink i ns
  unfolding unlink
  unlink_behind n ns i h = ground arith

module _ {ℓ} {K V : Type ℓ} (dec : Discrete K) where
  pub create-Inv : (n : ℕ) → Inv {V = V} dec (create n) []
  unfolding create find
  create-Inv n = record {
    order = refl;
    agrees = λ k. refl;
    sizes = refl;
    bounded = omega arith;
    distinct = tt;
    unique = tt;
    ids = tt;
    fresh = tt;
  }

  pub clear-Inv : (c : Cache K V) (es : List (Entry K V)) → Inv dec c es → Inv dec (clear c) []
  unfolding clear find
  clear-Inv c es i = record {
    order = refl;
    agrees = λ k. refl;
    sizes = refl;
    bounded = omega arith;
    distinct = tt;
    unique = tt;
    ids = tt;
    fresh = tt;
  }

  -- The identity that a temporary node takes.
  skip-Inv :
      (c : Cache K V) (es : List (Entry K V))
      → Inv dec c es
      → Inv dec (record c { next = c.next + 1 }) es
  skip-Inv c es i = record {
    order = i.order;
    agrees = i.agrees;
    sizes = i.sizes;
    bounded = i.bounded;
    distinct = i.distinct;
    unique = i.unique;
    ids = i.ids;
    fresh = IdsBelow-mono c.next (c.next + 1) es (omega arith) i.fresh;
  }

  removed-Inv :
      (x : K) (c : Cache K V) (es : List (Entry K V)) (p : Option (Entry K V))
      → Inv dec c es
      → find dec x es ≡ p
      → Inv dec (pop_front (remove_found dec (push_front x c) p)) (erase dec x es)
  unfolding remove_found
  removed-Inv x c es none i h = rw (erase_absent dec x es h) (skip-Inv c es i)
  removed-Inv x c es (some e) i h =
      let old : e.0.id < c.next = All-find dec (λ y. y.0.id < c.next) x es e i.fresh h in
      rw (unlink_behind (new_node x c) c.lru e.0.id old, find_key dec x es e h)
        (erase-Inv dec x (record c { next = c.next + 1 }) es e (unlink e.0.id c.lru) c.capacity
          (skip-Inv c es i) h (ap (unlink e.0.id) i.order ∙ unlink-erase dec x es e h i.ids)
          (omega (arith, i.bounded, length-erase dec x es e h)))

  -- `remove` takes the argument out, wherever it stands, and nothing else.
  pub remove-Inv :
      (x : K) (c : Cache K V) (es : List (Entry K V))
      → Inv dec c es
      → Inv dec (remove dec x c) (erase dec x es)
  unfolding remove
  remove-Inv x c es i = rw (i.agrees x) (removed-Inv x c es (find dec x es) i refl)

  -- Each round of `resize` takes the entry in front: the one that was used last.
  abbrev Shrunk : Cache K V → List (Entry K V) → Option (Cache K V) → Type ℓ
  Shrunk c es r =
      (c' : Cache K V) × (r ≡ some c')
      × Inv dec c' (drop (length es - c.capacity) es)
      × (c'.capacity ≡ c.capacity)

  enough :
      (c : Cache K V) (es : List (Entry K V)) (m : ℕ)
      → Inv dec (record c { capacity = m }) es
      → length es ≤ c.capacity
      → Shrunk c es (some c)
  enough c es m i h =
      let none' : length es - c.capacity ≡ 0 = omega arith in
      (c, refl, rw none' (Inv-capacity dec (record c { capacity = m }) es c.capacity i h), refl)

  front_Inv :
      (c : Cache K V) (x : Entry K V) (es : List (Entry K V)) (m : ℕ)
      → Inv dec (record c { capacity = m }) (x ∷ es)
      → (shrink_found dec c (front_found dec c c.lru)
          ≡ some (record c { lru = unlink x.0.id c.lru; map = erase dec x.0.key c.map }))
        × Inv dec
            (record c { capacity = m; lru = unlink x.0.id c.lru; map = erase dec x.0.key c.map })
            es
  unfolding shrink_found
  front_Inv c x es m i =
      let here : find dec x.0.key (x ∷ es) ≡ some x =
        unfold find in if_pos (dec x.0.key x.0.key) refl _ _ in
      let rest : erase dec x.0.key (x ∷ es) ≡ es =
        unfold erase in if_pos (dec x.0.key x.0.key) refl _ _ in
      let front : front_found dec c c.lru ≡ some x =
        ap (front_found dec c) i.order ∙ (i.agrees x.0.key ∙ here) in
      (
        rw front refl,
        subst
            (Inv dec
              (record c { capacity = m; lru = unlink x.0.id c.lru; map = erase dec x.0.key c.map }))
            rest
            (erase-Inv dec x.0.key (record c { capacity = m }) (x ∷ es) x (unlink x.0.id c.lru) m i
              here (ap (unlink x.0.id) i.order ∙ unlink-erase dec x.0.key (x ∷ es) x here i.ids)
              (omega (arith, i.bounded, ap length rest))),
      )

  shrink_lem :
      (fuel : ℕ) (c : Cache K V) (es : List (Entry K V)) (m : ℕ)
      → Inv dec (record c { capacity = m }) es
      → length es ≤ fuel + c.capacity
      → Shrunk c es (shrink dec fuel c)
  unfolding shrink
  shrink_lem zero c es m i h = enough c es m i (omega arith)
  shrink_lem (suc fuel) c [] m i h =
      let less : ltb c.capacity (length c.map) ≡ false = ground (arith, i.sizes) in
      rw less (enough c [] m i (omega arith))
  shrink_lem (suc fuel) c (x ∷ es) m i h = elim (Bool-cases (ltb c.capacity (length c.map))) [
    | inl more ↦
        let (found, i') = front_Inv c x es m i in
        let one_less : suc (length es) - c.capacity ≡ suc (length es - c.capacity) =
          ground (arith, i.sizes) in
        rw (more, found)
          (rw one_less (
            shrink_lem fuel (record c { lru = unlink x.0.id c.lru; map = erase dec x.0.key c.map })
              es m i' (omega arith)))
    | inr fits ↦ rw fits (enough c (x ∷ es) m i (ground (arith, i.sizes)))
  ]

  resize_done :
      (n : ℕ) (c c' : Cache K V)
      → shrink dec (length c.map) (record c { capacity = n }) ≡ some c'
      → length c'.lru ≡ length c'.map
      → resize dec n c ≡ some c'
  unfolding resize
  resize_done n c c' h e = rw (h, resize) (ground arith)

  -- `resize` finds every argument, and keeps as many results as there is room for, but those
  -- that were used longest ago: what goes are the most recently used ones.
  pub resize_lem :
      (n : ℕ) (c : Cache K V) (es : List (Entry K V))
      → Inv dec c es
      → (c' : Cache K V) × (resize dec n c ≡ some c')
        × Inv dec c' (drop (length es - n) es)
        × (c'.capacity ≡ n)
  resize_lem n c es i =
      let (c', done, i', size) =
        shrink_lem (length c.map) (record c { capacity = n }) es c.capacity i
          (omega (arith, i.sizes)) in
      let even : length c'.lru ≡ length c'.map =
        ap length i'.order ∙ length-nodes (drop (length es - n) es) ∙ sym i'.sizes in
      (c', resize_done n c c' done even, i', size)
