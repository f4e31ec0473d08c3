-- ===== src/Selection/Entries.antt =====
-- The nodes and the sums of a NodeSelector after any additions, whatever the sums.
use cogutil.Base.{
  ℕ, zero, suc, ◌+◌, ◌<◌, Bool, true, false, List, [], ◌∷◌, ◌++◌, if◌then◌else◌, leb, length, map,
  ◌==◌, ◌≡◌, refl, sym, ◌∙◌, ap, arith, Bool-cases, inl, inr, append_assoc, append-nil,
}
use package.cogutil.Selection.{NodeSelector, grown, added, at_index, resized, sum_of}
use package.cogutil.Selection.Vectors.{
  get_or, get_or-resized, get_or-changed, length-resized, length-changed,
}

-- What is added: a node, its arity and its score.
abbrev pub Addition {ℓ} : Type ℓ → Type ℓ
Addition N = N × ℕ × ℕ

module _ {ℓ} {N : Type ℓ} where
  -- Any additions, without regard to the bound of the sums.
  unfoldable pub run_added : List (Addition N) → NodeSelector N → NodeSelector N
  unfolding added
  run_added [] s = s
  run_added ((n, arity, prob) ∷ l) s = run_added l (added n arity prob s)

  -- The nodes that were added with an arity, in order, with their scores.
  abbrev pub of_arity : ℕ → List (Addition N) → List (N × ℕ)
  of_arity k [] = []
  of_arity k ((n, arity, prob) ∷ l) =
      let rest = of_arity k l in if arity == k then (n, prob) ∷ rest else rest

  abbrev pub scores : List (N × ℕ) → List ℕ
  scores = map (λ p. p.1)

  abbrev pub entries : ℕ → NodeSelector N → List (N × ℕ)
  entries k s = get_or [] (at_index k s.by_arity)

  abbrev pub sum_at : ℕ → NodeSelector N → ℕ
  sum_at k s = get_or 0 (at_index k s.arity_sums)

  -- The two vectors have one size, and what `grown` leaves has room.
  abbrev pub Even : NodeSelector N → Type 0
  Even s = length s.by_arity ≡ length s.arity_sums

  grown-room :
      (a : ℕ) (s : NodeSelector N)
      → Even s
      → (a < length (grown a s).by_arity) × (a < length (grown a s).arity_sums)
  grown-room a s e = elim (Bool-cases (leb (length s.by_arity) a)) [
    | inl more ↦ rw more (
      omega (arith, length-resized [] (suc a) s.by_arity),
      omega (arith, length-resized 0 (suc a) s.arity_sums),
    )
    | inr room ↦ rw room (ground arith, ground (arith, e))
  ]

  length-resized-eq :
      {B : Type 0} (n : ℕ) (d : List (N × ℕ)) (b : B) (xs : List (List (N × ℕ))) (ys : List B)
      → length xs ≡ length ys
      → length (resized n d xs) ≡ length (resized n b ys)
  unfolding resized
  length-resized-eq zero d b xs ys e = e
  length-resized-eq (suc n) d b [] [] e = ap suc (length-resized-eq n d b [] [] refl)
  length-resized-eq (suc n) d b (x ∷ xs) [] e = absurd (omega (arith, e))
  length-resized-eq (suc n) d b [] (y ∷ ys) e = absurd (omega (arith, e))
  length-resized-eq (suc n) d b (x ∷ xs) (y ∷ ys) e =
      ap suc (length-resized-eq n d b xs ys (omega (arith, e)))

  grown-Even : (a : ℕ) (s : NodeSelector N) → Even s → Even (grown a s)
  grown-Even a s e = elim (Bool-cases (leb (length s.by_arity) a)) [
    | inl more ↦ rw more (length-resized-eq (suc a) [] 0 s.by_arity s.arity_sums e)
    | inr room ↦ rw room e
  ]

  pub entries-grown :
      (a k : ℕ) (s : NodeSelector N)
      → (entries k (grown a s) ≡ entries k s) × (sum_at k (grown a s) ≡ sum_at k s)
  unfolding at_index
  entries-grown a k s = elim (Bool-cases (leb (length s.by_arity) a)) [
    | inl more ↦
        rw more (get_or-resized [] (suc a) k s.by_arity, get_or-resized 0 (suc a) k s.arity_sums)
    | inr room ↦ rw room (refl, refl)
  ]

  pub added-Even : (n : N) (a p : ℕ) (s : NodeSelector N) → Even s → Even (added n a p s)
  unfolding added
  added-Even n a p s e =
      length-changed a (λ (ps : List (N × ℕ)). ps ++ (n, p) ∷ []) (grown a s).by_arity
      ∙ grown-Even a s e
      ∙ sym (length-changed a (λ (k : ℕ). k + p) (grown a s).arity_sums)

  pub entries-added :
      (n : N) (a p k : ℕ) (s : NodeSelector N)
      → Even s
      → (entries k (added n a p s) ≡ (if a == k then entries k s ++ (n, p) ∷ [] else entries k s))
        × (sum_at k (added n a p s) ≡ (if a == k then sum_at k s + p else sum_at k s))
  unfolding added
  entries-added n a p k s e =
      let (room, room') = grown-room a s e in
      let (same, same') = entries-grown a k s in
      (
        get_or-changed [] a k (λ (ps : List (N × ℕ)). ps ++ (n, p) ∷ []) (grown a s).by_arity room
            ∙ ap (λ (ps : List (N × ℕ)). if a == k then ps ++ (n, p) ∷ [] else ps) same,
        get_or-changed 0 a k (λ (q : ℕ). q + p) (grown a s).arity_sums room'
            ∙ ap (λ (q : ℕ). if a == k then q + p else q) same',
      )

  -- A block of what is added behind what is there.
  appended :
      (b : Bool) (xs : List (N × ℕ)) (e : N × ℕ) (rest : List (N × ℕ))
      → (if b then xs ++ e ∷ [] else xs) ++ rest ≡ xs ++ (if b then e ∷ rest else rest)
  appended true xs e rest = append_assoc xs (e ∷ []) rest
  appended false xs e rest = refl

  pub summed :
      (b : Bool) (k : ℕ) (n : N) (p : ℕ) (rest : List (N × ℕ))
      → (if b then k + p else k) + sum_of (scores rest)
        ≡ k + sum_of (scores (if b then (n, p) ∷ rest else rest))
  summed true k n p rest = omega arith
  summed false k n p rest = refl

  pub run_added_lem :
      (l : List (Addition N)) (k : ℕ) (s : NodeSelector N)
      → Even s
      → (entries k (run_added l s) ≡ entries k s ++ of_arity k l)
        × (sum_at k (run_added l s) ≡ sum_at k s + sum_of (scores (of_arity k l)))
  unfolding run_added
  run_added_lem [] k s e = (sym (append-nil (entries k s)), omega arith)
  run_added_lem ((n, a, p) ∷ l) k s e =
      let (there, sums) = run_added_lem l k (added n a p s) (added-Even n a p s e) in
      let (now, sum) = entries-added n a p k s e in
      (
        there
            ∙ ap (λ (xs : List (N × ℕ)). xs ++ of_arity k l) now
            ∙ appended (a == k) (entries k s) (n, p) (of_arity k l),
        sums
            ∙ ap (λ (q : ℕ). q + sum_of (scores (of_arity k l))) sum
            ∙ summed (a == k) (sum_at k s) n p (of_arity k l),
      )
