-- ===== src/Async/Buffer/Inserts.antt =====
-- What an insertion does to the set of an async_buffer.
use cogutil.Base.{
  ℕ, suc, ◌+◌, Bool, true, false, List, [], ◌∷◌, if◌then◌else◌, ltb, ◌≡◌, refl, arith, length, ◌⊎◌,
  inr,
}
use cogutil.Base.Order.{Less}
use cogutil.Sorted
use cogutil.Concurrent.Chan.{Chan, Outcome, returns, throws, waits, notify_one}
use cogutil.Concurrent.Set
use cogutil.Async.Threads.{total, bit}

module _ {ℓ} {A : Type ℓ} (o : Less A) (w : A → ℕ) where
  -- An insertion puts the item in, or leaves the set as it is.
  insert_counts :
      (x : A) (xs : List A)
      → ((length (Sorted.insert o x xs) ≡ length xs)
          × (total w (Sorted.insert o x xs) ≡ total w xs))
        ⊎ ((length (Sorted.insert o x xs) ≡ suc (length xs))
            × (total w (Sorted.insert o x xs) ≡ w x + total w xs))
  unfolding Sorted.insert
  insert_counts x [] = inr (refl, refl)
  insert_counts x (y ∷ ys) = ground (arith, insert_counts x ys)

  -- The same, by the answer that `insert` gives.
  insert_by_answer :
      (x : A) (xs : List A) (new : Bool)
      → ltb (length xs) (length (Sorted.insert o x xs)) ≡ new
      → (length (Sorted.insert o x xs) ≡ bit new + length xs)
        × (total w (Sorted.insert o x xs) ≡ (if new then w x else 0) + total w xs)
  insert_by_answer x xs true h = ground (arith, insert_counts x xs)
  insert_by_answer x xs false h = ground (arith, insert_counts x xs)

  -- What an insertion that returns does to the set.
  abbrev pub Inserts : A → Chan A → Outcome A Bool → Type 0
  Inserts y c (returns new q g) =
      (length q.items ≡ bit new + length c.items)
      × (total w q.items ≡ (if new then w y else 0) + total w c.items)
  Inserts y c throws = Unit
  Inserts y c waits = Unit

  by_flag :
      (y : A) (c : Chan A) (canceled : Bool)
      → Inserts y c (
          if canceled
          then throws
          else returns
              (ltb (length c.items) (length (Sorted.insert o y c.items)))
              (record c { items = Sorted.insert o y c.items })
              notify_one)
  by_flag y c true = tt
  by_flag y c false =
      insert_by_answer y c.items (ltb (length c.items) (length (Sorted.insert o y c.items))) refl

  pub insert-Inserts : (y : A) (c : Chan A) → Inserts y c (Set.insert o y c)
  unfolding Set.insert
  insert-Inserts y c = by_flag y c c.is_canceled
