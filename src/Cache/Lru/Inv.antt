-- ===== src/Cache/Lru/Inv.antt =====
-- The invariant of `lru_cache`, and the changes of state that keep it.
use cogutil.Base.{
  ℕ, suc, ◌+◌, ◌≤◌, ◌<◌, true, false, List, [], ◌∷◌, none, some, ◌≡◌, refl, arith, length,
  if◌then◌else◌, ap, sym, subst, ◌∙◌, ltb, Bool-cases, inl, inr, lt→ltb, ltb→lt,
}
use mathlib.Core.Logic.{ite, if_pos, if_neg}
use cogutil.Cache.Entries.{
  Node, Entry, nodes, find, erase, Distinct, unlink, get_last?, drop_last, IdsDistinct, IdsBelow,
}
use cogutil.Cache.Entries.Laws.{
  find_key, find-erase_ne, find-erase_self, length-erase, erase-Distinct, All-find, All-erase,
  found-Unused, IdsBelow-mono, IdsBelow-Unused, length-drop_last, get_last?-cons, unlink-erase,
  erase-IdsDistinct, erase-drop_last, find-last_self, get_last?-nodes, drop_last-nodes,
}
use cogutil.Cache.Lru.{Cache, evict, new_node}

module _ {ℓ} {K V : Type ℓ} (dec : Discrete K) where
  -- The state against the entries in the order of the list: the map finds the same as they do.
  pub record Inv (c : Cache K V) (es : List (Entry K V)) : Type ℓ where
    pub order : c.lru ≡ nodes es
    pub agrees : (k : K) → find dec k c.map ≡ find dec k es
    pub sizes : length c.map ≡ length es
    pub bounded : length es ≤ c.capacity
    pub distinct : Distinct dec es
    pub unique : Distinct dec c.map
    pub ids : IdsDistinct es
    pub fresh : IdsBelow c.next es

  pub hit-Inv :
      (x : K) (c : Cache K V) (es : List (Entry K V)) (e : Entry K V)
      → Inv c es
      → find dec x es ≡ some e
      → Inv
          (record c { lru = e.0 ∷ unlink e.0.id c.lru; next = c.next + 1; hits = c.hits + 1 })
          (e ∷ erase dec x es)
  unfolding find
  hit-Inv x c es e v h =
      let here : e.0.key ≡ x = find_key dec x es e h in
      record {
        order = ap (◌∷◌ e.0) (ap (unlink e.0.id) v.order ∙ unlink-erase dec x es e h v.ids);
        agrees = λ k. elim (dec e.0.key k) [
          | yes p ↦
              rw (if_pos _ p) (v.agrees k ∙ subst (λ z. find dec z es ≡ some e) (sym here ∙ p) h)
          | no p ↦
              rw (if_neg _ p) (v.agrees k ∙ sym (find-erase_ne dec x k es (λ q. p (here ∙ sym q))))
        ];
        sizes = omega (arith, v.sizes, length-erase dec x es e h);
        bounded = omega (arith, v.bounded, length-erase dec x es e h);
        distinct = (
          subst (λ z. find dec z (erase dec x es) ≡ none) (sym here)
              (find-erase_self dec x es v.distinct),
          erase-Distinct dec x es v.distinct,
        );
        unique = v.unique;
        ids = (found-Unused dec x es e h v.ids, erase-IdsDistinct dec x es v.ids);
        fresh = IdsBelow-mono c.next (c.next + 1) (e ∷ erase dec x es) (omega arith) (
          All-find dec (λ y. y.0.id < c.next) x es e v.fresh h,
          All-erase dec (λ y. y.0.id < c.next) x es v.fresh,
        );
      }

  -- A new entry, before the size is looked at.
  pub miss-Inv :
      (x : K) (v : V) (c : Cache K V) (es : List (Entry K V)) (n : ℕ)
      → Inv c es
      → find dec x es ≡ none
      → length es < n
      → Inv
          (record c {
            capacity = n;
            lru = new_node x c ∷ c.lru;
            map = (new_node x c, v) ∷ c.map;
            next = c.next + 1;
            misses = c.misses + 1;
          })
          ((new_node x c, v) ∷ es)
  unfolding find
  miss-Inv x v c es n i h l = record {
    order = ap (◌∷◌ (new_node x c)) i.order;
    agrees = λ k. ap (ite (dec x k) (some (new_node x c, v))) (i.agrees k);
    sizes = ap suc i.sizes;
    bounded = l;
    distinct = (h, i.distinct);
    unique = (i.agrees x ∙ h, i.unique);
    ids = (IdsBelow-Unused c.next es i.fresh, i.ids);
    fresh = (omega arith, IdsBelow-mono c.next (c.next + 1) es (omega arith) i.fresh);
  }

  pub counted : (c : Cache K V) → Inv c [] → Inv (record c { misses = c.misses + 1 }) []
  counted c i = record {
    order = i.order;
    agrees = i.agrees;
    sizes = i.sizes;
    bounded = i.bounded;
    distinct = i.distinct;
    unique = i.unique;
    ids = i.ids;
    fresh = i.fresh;
  }

  -- A throw leaves a node's identity used, and nothing else.
  pub throw-Inv :
      (c : Cache K V) (es : List (Entry K V))
      → Inv c es
      → Inv (record c { next = c.next + 1; misses = c.misses + 1 }) es
  throw-Inv c es i = record {
    order = i.order;
    agrees = i.agrees;
    sizes = i.sizes;
    bounded = i.bounded;
    distinct = i.distinct;
    unique = i.unique;
    ids = i.ids;
    fresh = IdsBelow-mono c.next (c.next + 1) es (omega arith) i.fresh;
  }

  -- An entry goes from the map, and its node from the list.
  pub erase-Inv :
      (k : K) (c : Cache K V) (es : List (Entry K V)) (e : Entry K V) (l : List (Node K)) (n : ℕ)
      → Inv c es
      → find dec k es ≡ some e
      → l ≡ nodes (erase dec k es)
      → length (erase dec k es) ≤ n
      → Inv (record c { capacity = n; lru = l; map = erase dec k c.map }) (erase dec k es)
  erase-Inv k c es e l n i h o b = record {
    order = o;
    agrees = λ q. elim (dec q k) [
      | yes p ↦
          subst (λ z. find dec z (erase dec k c.map) ≡ find dec z (erase dec k es)) (sym p)
            (find-erase_self dec k c.map i.unique ∙ sym (find-erase_self dec k es i.distinct))
      | no p ↦ find-erase_ne dec k q c.map p ∙ i.agrees q ∙ sym (find-erase_ne dec k q es p)
    ];
    sizes =
        omega
          (arith, length-erase dec k es e h, length-erase dec k c.map e (i.agrees k ∙ h), i.sizes);
    bounded = b;
    distinct = erase-Distinct dec k es i.distinct;
    unique = erase-Distinct dec k c.map i.unique;
    ids = erase-IdsDistinct dec k es i.ids;
    fresh = All-erase dec (λ y. y.0.id < c.next) k es i.fresh;
  }

  -- The last entry goes where there is one too many.
  evict_full :
      (c : Cache K V) (es : List (Entry K V)) (e : Entry K V)
      → Inv (record c { capacity = suc c.capacity }) es
      → get_last? es ≡ some e
      → c.capacity < length es
      → evict dec c ≡ record c { lru = drop_last c.lru; map = erase dec e.0.key c.map }
  unfolding evict
  evict_full c es e i last h =
      let more : ltb c.capacity (length c.map) ≡ true =
        lt→ltb c.capacity (length c.map) (omega (arith, i.sizes)) in
      let end' : get_last? c.lru ≡ some e.0 = ap get_last? i.order ∙ get_last?-nodes es e last in
      rw (more, end')

  evict_fits : (c : Cache K V) → ltb c.capacity (length c.map) ≡ false → evict dec c ≡ c
  unfolding evict
  evict_fits c h = rw h

  pub Inv-capacity :
      (c : Cache K V) (es : List (Entry K V)) (n : ℕ)
      → Inv c es
      → length es ≤ n
      → Inv (record c { capacity = n }) es
  Inv-capacity c es n i h = record {
    order = i.order;
    agrees = i.agrees;
    sizes = i.sizes;
    bounded = h;
    distinct = i.distinct;
    unique = i.unique;
    ids = i.ids;
    fresh = i.fresh;
  }

  pub evict-Inv :
      (c : Cache K V) (x : Entry K V) (es : List (Entry K V))
      → Inv (record c { capacity = suc c.capacity }) (x ∷ es)
      → Inv (evict dec c) (if ltb c.capacity (suc (length es)) then drop_last (x ∷ es) else x ∷ es)
  evict-Inv c x es i = elim (Bool-cases (ltb c.capacity (suc (length es)))) [
    | inl more ↦
        let (e, last) = get_last?-cons x es in
        let gone : erase dec e.0.key (x ∷ es) ≡ drop_last (x ∷ es) =
          erase-drop_last dec (x ∷ es) e i.distinct last in
        let many : c.capacity < suc (length es) = ltb→lt c.capacity (suc (length es)) more in
        let order : drop_last c.lru ≡ nodes (erase dec e.0.key (x ∷ es)) =
          ap drop_last i.order ∙ drop_last-nodes (x ∷ es) ∙ ap nodes (sym gone) in
        rw (more, evict_full c (x ∷ es) e i last many)
          (subst (Inv (record c { lru = drop_last c.lru; map = erase dec e.0.key c.map })) gone (
            erase-Inv e.0.key (record c { capacity = suc c.capacity }) (x ∷ es) e (drop_last c.lru)
              c.capacity i (find-last_self dec (x ∷ es) e i.distinct last) order
              (omega (arith, i.bounded, ap length gone, length-drop_last (x ∷ es)))))
    | inr enough ↦
        let fits : length (x ∷ es) ≤ c.capacity = ground arith in
        let less : ltb c.capacity (length c.map) ≡ false = rw i.sizes enough in
        rw (enough, evict_fits c less)
          (Inv-capacity (record c { capacity = suc c.capacity }) (x ∷ es) c.capacity i fits)
  ]

module _ {ℓ} {K V : Type ℓ} where
  pub length-nodes : (es : List (Entry K V)) → length (nodes es) ≡ length es
  length-nodes [] = refl
  length-nodes (x ∷ es) = ap suc (length-nodes es)
