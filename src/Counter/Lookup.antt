-- ===== src/Counter/Lookup.antt =====
-- What a key counts for after the operations of opencog/util/Counter.h.
use cogutil.Base.{
  true, false, List, [], ◌∷◌, Option, none, some, if◌then◌else◌, ◌≡◌, refl, arith, ◌∙◌, ap, sym,
  subst, All, Bool-cases, inl, inr,
}
use cogutil.Base.Order.{Less}
use cogutil.Sorted.{same}
use cogutil.Sorted.Laws.{asym, same_eq}
use cogutil.Counter.{Number, find, update, init, get, or_else, each}

module _ {ℓ κ} {T : Type ℓ} {C : Type κ} (o : Less T) (n : Number C) where
  open o use {less, irrefl, trans, total}

  -- Keys in ascending order.
  abbrev pub KeyAbove : T → List (T × C) → Type 0
  KeyAbove k = All (λ p. less k p.0 ≡ true)

  abbrev pub InOrder : List (T × C) → Type 0
  InOrder [] = Unit
  InOrder ((k, v) ∷ m) = KeyAbove k m × InOrder m

  KeyAbove-trans : (k j : T) (m : List (T × C)) → less k j ≡ true → KeyAbove j m → KeyAbove k m
  KeyAbove-trans k j [] h a = tt
  KeyAbove-trans k j ((i, v) ∷ m) h a = (trans k j i h a.0, KeyAbove-trans k j m h a.1)

  pub find_above : (k : T) (m : List (T × C)) → KeyAbove k m → find o n k m ≡ none
  unfolding find
  find_above k [] a = refl
  find_above k ((j, v) ∷ m) a = rw a.0

  KeyAbove-update :
      (i k : T) (f : C → C) (m : List (T × C))
      → less i k ≡ true
      → KeyAbove i m
      → KeyAbove i (update o n k f m)
  unfolding update
  KeyAbove-update i k f [] h a = (h, tt)
  KeyAbove-update i k f ((j, v) ∷ m) h a = ground (arith, KeyAbove-update i k f m h a.1)

  pub update-InOrder :
      (k : T) (f : C → C) (m : List (T × C)) → InOrder m → InOrder (update o n k f m)
  unfolding update
  update-InOrder k f [] s = (tt, tt)
  update-InOrder k f ((j, v) ∷ m) s =
      ground
        (arith, update-InOrder k f m s.1, KeyAbove-trans k j m, KeyAbove-update j k f m, total k j)

  -- An assignment changes one key.
  pub find-update :
      (q k : T) (f : C → C) (m : List (T × C))
      → InOrder m
      → find o n q (update o n k f m)
        ≡ (if same o q k then some (f (or_else (find o n k m) n.zero)) else find o n q m)
  unfolding find update
  find-update q k f [] s = ground (arith, total q k)
  find-update q k f ((j, v) ∷ m) s = ground (
    arith,
    find-update q k f m s.1,
    total q k,
    total k j,
    total q j,
    trans q k j,
    trans k j q,
    trans q j k,
    asym o k j,
    asym o q j,
    irrefl j,
  )

  pub get-update :
      (q k : T) (f : C → C) (m : List (T × C))
      → InOrder m
      → get o n q n.zero (update o n k f m)
        ≡ (if same o q k then f (get o n q n.zero m) else get o n q n.zero m)
  unfolding get
  get-update q k f m s = elim (Bool-cases (same o q k)) [
    | inl here ↦
        rw (find-update q k f m s, here)
          (ap (λ z. f (or_else (find o n z m) n.zero)) (sym (same_eq o q k here)))
    | inr other ↦ rw (find-update q k f m s, other) refl
  ]

  -- How often the code adds one to a count, an occurrence of the key after the other.
  unfoldable pub counted : T → List T → C → C
  counted q [] c = c
  counted q (x ∷ xs) c = counted q xs (if same o q x then n.plus c n.one else c)

  pub init-InOrder : (xs : List T) (m : List (T × C)) → InOrder m → InOrder (init o n xs m)
  unfolding init
  init-InOrder [] m s = s
  init-InOrder (x ∷ xs) m s =
      init-InOrder xs (update o n x (λ c. n.plus c n.one) m)
        (update-InOrder x (λ c. n.plus c n.one) m s)

  -- A counter of a sequence counts every key as often as it occurs, in whatever type of numbers:
  -- one is added to what the key counted for at first, or to `CT()`, for each occurrence.
  get-init :
      (q : T) (xs : List T) (m : List (T × C))
      → InOrder m
      → get o n q n.zero (init o n xs m) ≡ counted q xs (get o n q n.zero m)
  unfolding init counted get
  get-init q [] m s = refl
  get-init q (x ∷ xs) m s =
      get-init q xs (update o n x (λ c. n.plus c n.one) m)
        (update-InOrder x (λ c. n.plus c n.one) m s)
      ∙ ap (counted q xs) (get-update q x (λ c. n.plus c n.one) m s)

  -- What an entry of the other counter does to a count.
  abbrev pub combined : (C → C → C) → C → Option C → C
  combined op c none = c
  combined op c (some v) = op c v

  each-InOrder :
      (op : C → C → C) (m other : List (T × C)) → InOrder m → InOrder (each o n op m other)
  unfolding each
  each-InOrder op m [] s = s
  each-InOrder op m ((k, v) ∷ other) s =
      each-InOrder op (update o n k (λ c. op c v) m) other (update-InOrder k (λ c. op c v) m s)

  pub find_not_greater :
      (q k : T) (m : List (T × C)) → KeyAbove k m → less k q ≡ false → find o n q m ≡ none
  find_not_greater q k m a h = elim (Bool-cases (less q k)) [
    | inl below ↦ find_above q m (KeyAbove-trans q k m below a)
    | inr level ↦ subst (λ z. find o n z m ≡ none) (total k q h level) (find_above k m a)
  ]

  step-each :
      (op : C → C → C) (q k : T) (v : C) (m other : List (T × C))
      → InOrder m
      → KeyAbove k other
      → combined op (get o n q n.zero (update o n k (λ c. op c v) m)) (find o n q other)
        ≡ combined op
            (get o n q n.zero m)
            (if less q k then none else if less k q then find o n q other else some v)
  step-each op q k v m other s a =
      rw (get-update q k (λ c. op c v) m s)
        (ground (arith, find_not_greater q k other a, asym o q k))

  -- `+=`, `-=` and `/=` by another counter change the count of each key of the other one, by its
  -- count there; a key that was not there counts for `CT()` before; all other keys stay.
  get-each :
      (op : C → C → C) (q : T) (m other : List (T × C))
      → InOrder m
      → InOrder other
      → get o n q n.zero (each o n op m other) ≡ combined op (get o n q n.zero m) (find o n q other)
  unfolding each find
  get-each op q m [] s t = refl
  get-each op q m ((k, v) ∷ other) s t =
      get-each op q (update o n k (λ c. op c v) m) other (update-InOrder k (λ c. op c v) m s) t.1
      ∙ step-each op q k v m other s t.0
