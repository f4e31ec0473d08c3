-- ===== src/Counter/Product.antt =====
-- `*=` by another counter in opencog/util/Counter.h.
use cogutil.Base.{
  true, List, [], ◌∷◌, Option, none, some, ◌≡◌, refl, arith, Bool-cases, inl, inr, sym, ◌∙◌,
}
use cogutil.Base.Order.{Less}
use cogutil.Sorted.Laws.{asym}
use cogutil.Counter.{Number, find, multiply, zeroed}
use cogutil.Counter.Lookup.{InOrder, KeyAbove}

module _ {ℓ κ} {T : Type ℓ} {C : Type κ} (o : Less T) (n : Number C) where
  open o use {less, irrefl, trans, total}

  -- A key of both counters counts for the product, a key of one of them for `CT()`.
  abbrev pub product : Option C → Option C → Option C
  product none none = none
  product none (some w) = some n.zero
  product (some v) none = some n.zero
  product (some v) (some w) = some (n.times v w)

  find-zeroed : (q : T) (m : List (T × C)) → find o n q (zeroed o n m) ≡ product none (find o n q m)
  unfolding find zeroed
  find-zeroed q [] = refl
  find-zeroed q ((k, v) ∷ m) = ground (arith, find-zeroed q m)

  product_comm_none : (c : Option C) → product c none ≡ product none c
  product_comm_none none = refl
  product_comm_none (some v) = refl

  module _ (q k j : T) (v w : C) (m other rest : List (T × C)) where
    below_step :
        less k j ≡ true
        → KeyAbove o n j other
        → find o n q rest ≡ product (find o n q m) (find o n q ((j, w) ∷ other))
        → find o n q ((k, n.zero) ∷ rest)
          ≡ product (find o n q ((k, v) ∷ m)) (find o n q ((j, w) ∷ other))
    unfolding find
    below_step h t e = ground (arith, trans q k j, total q k, total q j, asym o q j, asym o k j)

    above_step :
        less j k ≡ true
        → find o n q rest ≡ product (find o n q ((k, v) ∷ m)) (find o n q other)
        → find o n q ((j, n.zero) ∷ rest)
          ≡ product (find o n q ((k, v) ∷ m)) (find o n q ((j, w) ∷ other))
    unfolding find
    above_step h e = ground (arith, trans q j k, total q k, total q j, asym o q k, asym o j k)

    level_step :
        k ≡ j
        → find o n q rest ≡ product (find o n q m) (find o n q other)
        → find o n q ((k, n.times v w) ∷ rest)
          ≡ product (find o n q ((k, v) ∷ m)) (find o n q ((j, w) ∷ other))
    unfolding find
    level_step h e = ground arith

  -- The product of two counters has the keys of both: a key of both counts for the product of its
  -- counts, and a key of one only for `CT()`.
  pub find-multiply :
      (q : T) (m other : List (T × C))
      → InOrder o n m
      → InOrder o n other
      → find o n q (multiply o n m other) ≡ product (find o n q m) (find o n q other)
  unfolding find multiply
  find-multiply q [] other s t = find-zeroed q other
  find-multiply q ((k, v) ∷ m) [] s t =
      find-zeroed q ((k, v) ∷ m) ∙ sym (product_comm_none (find o n q ((k, v) ∷ m)))
  find-multiply q ((k, v) ∷ m) ((j, w) ∷ other) s t = elim (Bool-cases (less k j)) [
    | inl below ↦
        let ih = find-multiply q m ((j, w) ∷ other) s.1 t in
        rw (below, multiply)
          (below_step q k j v w m other (multiply o n m ((j, w) ∷ other)) below t.0 ih)
    | inr level ↦ elim (Bool-cases (less j k)) [
      | inl above ↦
          let ih = find-multiply q ((k, v) ∷ m) other s t.1 in
          rw (level, above, multiply)
            (above_step q k j v w m other (multiply o n ((k, v) ∷ m) other) above ih)
      | inr equal ↦
          let ih = find-multiply q m other s.1 t.1 in
          rw (level, equal, multiply)
            (level_step q k j v w m other (multiply o n m other) (total k j level equal) ih)
    ]
  ]
