-- ===== src/Concurrent/Set/Take.antt =====
-- What `try_get` of opencog/util/concurrent_set.h takes from the front or the back of the set.
use cogutil.Base.{
  ℕ, zero, suc, ◌+◌, ◌≤◌, Bool, true, false, List, [], ◌∷◌, ◌++◌, Option, none, some, ◌≡◌, refl,
  inl, inr, arith, if◌then◌else◌, is_nil, append_assoc, append-nil, length, ap, ltb, Bool-cases,
  length-append, sym, ◌∙◌,
}
use mathlib.Core.List.{reverse, reverse-cons}
use cogutil.Concurrent.Chan.{Chan, returns, quiet}
use cogutil.Concurrent.Set.{try_get_many, take_many, take_first, take_last, one_more}

abbrev pub at_most : ℕ → ℕ → ℕ
at_most n size = if ltb size n then size else n

at_most_le : (n size : ℕ) → at_most n size ≤ size
at_most_le n size = ground arith

module _ {ℓ} {A : Type ℓ} where
  -- An item taken from the front or from the back, and the others.
  abbrev pub Front : List A → Option (A × List A) → Type ℓ
  Front xs none = xs ≡ []
  Front xs (some (x, rest)) = xs ≡ x ∷ rest

  abbrev pub Back : List A → Option (A × List A) → Type ℓ
  Back xs none = xs ≡ []
  Back xs (some (x, rest)) = xs ≡ rest ++ x ∷ []

  pub take_first-Front : (xs : List A) → Front xs (take_first xs)
  unfolding take_first
  take_first-Front [] = refl
  take_first-Front (x ∷ xs) = refl

  one_more-Back :
      (y : A) (xs : List A) (p : Option (A × List A)) → Back xs p → Back (y ∷ xs) (one_more y p)
  one_more-Back y xs none e = ap (◌∷◌ y) e
  one_more-Back y xs (some (x, rest)) e = ap (◌∷◌ y) e

  pub take_last-Back : (xs : List A) → Back xs (take_last xs)
  unfolding take_last
  take_last-Back [] = refl
  take_last-Back (x ∷ xs) = one_more-Back x xs (take_last xs) (take_last-Back xs)

  -- A taken item leaves one item less.
  abbrev pub OneLess : List A → Option (A × List A) → Type 0
  OneLess xs none = length xs ≡ 0
  OneLess xs (some (x, rest)) = length xs ≡ length rest + 1

  pub Front-OneLess : (xs : List A) (p : Option (A × List A)) → Front xs p → OneLess xs p
  Front-OneLess xs none e = ap length e
  Front-OneLess xs (some (x, rest)) e = omega (arith, ap length e)

  pub Back-OneLess : (xs : List A) (p : Option (A × List A)) → Back xs p → OneLess xs p
  Back-OneLess xs none e = ap length e
  Back-OneLess xs (some (x, rest)) e = omega (arith, ap length e, length-append rest (x ∷ []))

  -- What is taken and what stays: from the front in order, from the back in reverse order.
  abbrev pub Split : Bool → List A → List A × List A → Type ℓ
  Split true xs (vec, rest) = xs ≡ rest ++ reverse vec
  Split false xs (vec, rest) = xs ≡ vec ++ rest

  pub length-Split :
      (r : Bool) (xs : List A) (p : List A × List A) → Split r xs p → length p.1 ≤ length xs
  length-Split true xs (vec, rest) e = omega (arith, ap length e, length-append rest (reverse vec))
  length-Split false xs (vec, rest) e = omega (arith, ap length e, length-append vec rest)

  last_round :
      (j : ℕ) (xs : List A) (p : Option (A × List A))
      → take_last xs ≡ p
      → Back xs p
      → ((ys : List A) → Split true ys (take_many true j ys))
      → Split true xs (take_many true (suc j) xs)
  unfolding take_many
  last_round j xs none t e ih = rw (t, take_many) (sym (append-nil xs))
  last_round j xs (some (x, rest)) t e ih =
      let (vec, left) = take_many true j rest in
      rw (t, take_many)
        (e
          ∙ ap (λ ys. ys ++ x ∷ []) (ih rest)
          ∙ append_assoc left (reverse vec) (x ∷ [])
          ∙ ap (◌++◌ left) (sym (reverse-cons x vec)))

  first_round :
      (j : ℕ) (xs : List A) (p : Option (A × List A))
      → take_first xs ≡ p
      → Front xs p
      → ((ys : List A) → Split false ys (take_many false j ys))
      → Split false xs (take_many false (suc j) xs)
  unfolding take_many
  first_round j xs none t e ih = rw (t, take_many) refl
  first_round j xs (some (x, rest)) t e ih = rw (t, take_many) (e ∙ ap (◌∷◌ x) (ih rest))

  pub take_many-Split :
      (reverse' : Bool) (j : ℕ) (xs : List A) → Split reverse' xs (take_many reverse' j xs)
  unfolding take_many
  take_many-Split true zero xs = sym (append-nil xs)
  take_many-Split false zero xs = refl
  take_many-Split true (suc j) xs =
      last_round j xs (take_last xs) refl (take_last-Back xs) (take_many-Split true j)
  take_many-Split false (suc j) xs =
      first_round j xs (take_first xs) refl (take_first-Front xs) (take_many-Split false j)

  count_round :
      (r : Bool) (j : ℕ) (xs : List A) (p : Option (A × List A))
      → (if r then take_last xs else take_first xs) ≡ p
      → OneLess xs p
      → suc j ≤ length xs
      → ((ys : List A) → j ≤ length ys → length (take_many r j ys).0 ≡ j)
      → length (take_many r (suc j) xs).0 ≡ suc j
  unfolding take_many
  count_round r j xs none t e h ih = omega (arith, e, h)
  count_round r j xs (some (x, rest)) t e h ih =
      rw (take_many, t) (ap suc (ih rest (omega (arith, e, h))))

  length-take_many :
      (r : Bool) (j : ℕ) (xs : List A) → j ≤ length xs → length (take_many r j xs).0 ≡ j
  unfolding take_many
  length-take_many r zero xs h = refl
  length-take_many true (suc j) xs h =
      count_round true j xs (take_last xs) refl (Back-OneLess xs (take_last xs) (take_last-Back xs))
        h (length-take_many true j)
  length-take_many false (suc j) xs h =
      count_round false j xs (take_first xs) refl
        (Front-OneLess xs (take_first xs) (take_first-Front xs)) h (length-take_many false j)

  nothing : (r : Bool) (xs : List A) → Split r xs ([], xs)
  nothing true xs = sym (append-nil xs)
  nothing false xs = refl

  none_left : (nelt : ℕ) (xs : List A) → is_nil xs ≡ true → 0 ≡ at_most nelt (length xs)
  none_left nelt [] h = ground arith
  none_left nelt (x ∷ xs) h = ground arith

  -- `try_get` for many, canceled or not, takes `nelt` items, or all if there are fewer, and keeps
  -- the others: from the front the least ones in order, from the back the greatest ones, the
  -- greatest first.
  try_get_many_lem :
      (nelt : ℕ) (r : Bool) (c : Chan A)
      → (vec rest : List A) × (try_get_many nelt r c
          ≡ returns vec (record c { items = rest }) quiet)
        × Split r c.items (vec, rest)
        × (length vec ≡ at_most nelt (length c.items))
  unfolding try_get_many
  try_get_many_lem nelt r c = elim (Bool-cases (is_nil c.items)) [
    | inl none' ↦ (
      [],
      c.items,
      rw (try_get_many, none') refl,
      nothing r c.items,
      none_left nelt c.items none',
    )
    | inr some' ↦
        let n = at_most nelt (length c.items) in
        let (vec, rest) = take_many r n c.items in
        (
          vec,
          rest,
          rw (try_get_many, some') refl,
          take_many-Split r n c.items,
          length-take_many r n c.items (at_most_le nelt (length c.items)),
        )
  ]
