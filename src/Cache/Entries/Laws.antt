-- ===== src/Cache/Entries/Laws.antt =====
-- What a search finds after the list or the map has changed.
use cogutil.Base.{
  ℕ, ◌+◌, ◌-◌, ◌≤◌, List, [], ◌∷◌, none, some, ◌≡◌, ◌≢◌, refl, arith, All, length, ap, sym, subst,
}
use mathlib.Core.Logic.{if_pos, if_neg}
use mathlib.Core.Option.{some-injective}
use cogutil.Cache.Entries.{
  Entry, nodes, find, erase, Distinct, unlink, get_last?, drop_last, Unused, IdsDistinct, IdsBelow,
}

module _ {ℓ} {K V : Type ℓ} (dec : Discrete K) where
  pub find_key :
      (k : K) (es : List (Entry K V)) (e : Entry K V) → find dec k es ≡ some e → e.0.key ≡ k
  unfolding find
  find_key k [] e h = cc
  find_key k (x ∷ es) e h = ground (arith, find_key k es e)

  pub find-erase_ne :
      (k q : K) (es : List (Entry K V)) → q ≢ k → find dec q (erase dec k es) ≡ find dec q es
  unfolding find erase
  find-erase_ne k q [] h = refl
  find-erase_ne k q (e ∷ es) h = ground (arith, find-erase_ne k q es)

  pub find-erase_self :
      (k : K) (es : List (Entry K V)) → Distinct dec es → find dec k (erase dec k es) ≡ none
  unfolding find erase
  find-erase_self k [] d = refl
  find-erase_self k (e ∷ es) d = elim (dec e.0.key k) [
    | yes p ↦ rw (if_pos _ p) (subst (λ z. find dec z es ≡ none) p d.0)
    | no p ↦ rw (if_neg _ p) (rw (if_neg _ p) (find-erase_self k es d.1))
  ]

  pub erase_absent : (k : K) (es : List (Entry K V)) → find dec k es ≡ none → erase dec k es ≡ es
  unfolding find erase
  erase_absent k [] h = refl
  erase_absent k (e ∷ es) h = ground (arith, erase_absent k es)

  pub length-erase :
      (k : K) (es : List (Entry K V)) (e : Entry K V)
      → find dec k es ≡ some e
      → length (erase dec k es) + 1 ≡ length es
  unfolding find erase
  length-erase k [] e h = cc
  length-erase k (x ∷ es) e h = ground (arith, length-erase k es e)

  find-erase-none :
      (k q : K) (es : List (Entry K V)) → find dec q es ≡ none → find dec q (erase dec k es) ≡ none
  unfolding find erase
  find-erase-none k q [] h = refl
  find-erase-none k q (e ∷ es) h = ground (arith, find-erase-none k q es)

  pub erase-Distinct :
      (k : K) (es : List (Entry K V)) → Distinct dec es → Distinct dec (erase dec k es)
  unfolding erase
  erase-Distinct k [] d = tt
  erase-Distinct k (e ∷ es) d =
      ground (arith, erase-Distinct k es d.1, find-erase-none k e.0.key es d.0)

  -- What holds of all entries holds of the one that is found, and of those that stay.
  pub All-find {κ} :
      (P : Entry K V → Type κ) (k : K) (es : List (Entry K V)) (e : Entry K V)
      → All P es
      → find dec k es ≡ some e
      → P e
  unfolding find
  All-find P k [] e a h = cc
  All-find P k (x ∷ es) e a h = elim (dec x.0.key k) [
    | yes p ↦ subst P (some-injective x e (rw (if_pos _ p) at h)) a.0
    | no p ↦ All-find P k es e a.1 (rw (if_neg _ p) at h)
  ]

  pub All-erase {κ} :
      (P : Entry K V → Type κ) (k : K) (es : List (Entry K V)) → All P es → All P (erase dec k es)
  unfolding erase
  All-erase P k [] a = tt
  All-erase P k (x ∷ es) a = elim (dec x.0.key k) [
    | yes p ↦ rw (if_pos _ p) a.1
    | no p ↦ rw (if_neg _ p) (a.0, All-erase P k es a.1)
  ]

  -- The node of the entry that is found is the one that goes from the list.
  pub unlink-erase :
      (k : K) (es : List (Entry K V)) (e : Entry K V)
      → find dec k es ≡ some e
      → IdsDistinct es
      → unlink e.0.id (nodes es) ≡ nodes (erase dec k es)
  unfolding find erase unlink
  unlink-erase k [] e h d = cc
  unlink-erase k (x ∷ es) e h d =
      ground (arith, unlink-erase k es e, All-find (λ e'. e'.0.id ≢ x.0.id) k es e d.0)

  pub erase-IdsDistinct :
      (k : K) (es : List (Entry K V)) → IdsDistinct es → IdsDistinct (erase dec k es)
  unfolding erase
  erase-IdsDistinct k [] d = tt
  erase-IdsDistinct k (e ∷ es) d =
      ground (arith, erase-IdsDistinct k es d.1, All-erase (λ e'. e'.0.id ≢ e.0.id) k es d.0)

  find-last :
      (es : List (Entry K V)) (e : Entry K V) → get_last? es ≡ some e → find dec e.0.key es ≢ none
  unfolding find get_last?
  find-last [] e h = cc
  find-last (x ∷ []) e h = ground arith
  find-last (x ∷ y ∷ es) e h = ground (arith, find-last (y ∷ es) e)

  -- The last entry, and the others.
  pub erase-drop_last :
      (es : List (Entry K V)) (e : Entry K V)
      → Distinct dec es
      → get_last? es ≡ some e
      → erase dec e.0.key es ≡ drop_last es
  unfolding find erase get_last? drop_last
  erase-drop_last [] e d h = cc
  erase-drop_last (x ∷ []) e d h = ground arith
  erase-drop_last (x ∷ y ∷ es) e d h = elim (dec x.0.key e.0.key) [
    | yes p ↦ absurd (find-last (y ∷ es) e h (subst (λ k. find dec k (y ∷ es) ≡ none) p d.0))
    | no p ↦ rw (if_neg _ p) (ap (◌∷◌ x) (erase-drop_last (y ∷ es) e d.1 h))
  ]

  pub find-last_self :
      (es : List (Entry K V)) (e : Entry K V)
      → Distinct dec es
      → get_last? es ≡ some e
      → find dec e.0.key es ≡ some e
  unfolding find get_last?
  find-last_self [] e d h = cc
  find-last_self (x ∷ []) e d h = ground arith
  find-last_self (x ∷ y ∷ es) e d h = elim (dec x.0.key e.0.key) [
    | yes p ↦ absurd (find-last (y ∷ es) e h (subst (λ k. find dec k (y ∷ es) ≡ none) p d.0))
    | no p ↦ rw (if_neg _ p) (find-last_self (y ∷ es) e d.1 h)
  ]

  -- The identity of the entry that is found is not used among the others.
  pub found-Unused :
      (k : K) (es : List (Entry K V)) (e : Entry K V)
      → find dec k es ≡ some e
      → IdsDistinct es
      → Unused e.0.id (erase dec k es)
  unfolding find erase
  found-Unused k [] e h d = cc
  found-Unused k (x ∷ es) e h d = elim (dec x.0.key k) [
    | yes p ↦ rw (if_pos _ p) (
        subst (λ (y : Entry K V). Unused y.0.id es) (some-injective x e (rw (if_pos _ p) at h)) d.0)
    | no p ↦
        let found : find dec k es ≡ some e = rw (if_neg _ p) at h in
        rw (if_neg _ p) (
          (λ q. All-find (λ y. y.0.id ≢ x.0.id) k es e d.0 found (sym q)),
          found-Unused k es e found d.1,
        )
  ]

module _ {ℓ} {K V : Type ℓ} where
  pub IdsBelow-mono : (m n : ℕ) (es : List (Entry K V)) → m ≤ n → IdsBelow m es → IdsBelow n es
  IdsBelow-mono m n [] h b = tt
  IdsBelow-mono m n (e ∷ es) h b = (omega arith, IdsBelow-mono m n es h b.1)

  pub IdsBelow-Unused : (n : ℕ) (es : List (Entry K V)) → IdsBelow n es → Unused n es
  IdsBelow-Unused n [] b = tt
  IdsBelow-Unused n (e ∷ es) b = (omega arith, IdsBelow-Unused n es b.1)

  pub length-drop_last : (es : List (Entry K V)) → length (drop_last es) ≡ length es - 1
  unfolding drop_last
  length-drop_last [] = omega arith
  length-drop_last (x ∷ []) = omega arith
  length-drop_last (x ∷ y ∷ es) = omega (arith, length-drop_last (y ∷ es))

  pub get_last?-cons :
      (x : Entry K V) (es : List (Entry K V)) → (e : Entry K V) × (get_last? (x ∷ es) ≡ some e)
  unfolding get_last?
  get_last?-cons x [] = (x, refl)
  get_last?-cons x (y ∷ es) = get_last?-cons y es

  pub get_last?-nodes :
      (es : List (Entry K V)) (e : Entry K V)
      → get_last? es ≡ some e
      → get_last? (nodes es) ≡ some e.0
  unfolding get_last?
  get_last?-nodes [] e h = cc
  get_last?-nodes (x ∷ []) e h = ground arith
  get_last?-nodes (x ∷ y ∷ es) e h = get_last?-nodes (y ∷ es) e h

  pub drop_last-nodes : (es : List (Entry K V)) → drop_last (nodes es) ≡ nodes (drop_last es)
  unfolding drop_last
  drop_last-nodes [] = refl
  drop_last-nodes (x ∷ []) = refl
  drop_last-nodes (x ∷ y ∷ es) = ap (◌∷◌ x.0) (drop_last-nodes (y ∷ es))
