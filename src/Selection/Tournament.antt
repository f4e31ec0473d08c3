-- ===== src/Selection/Tournament.antt =====
-- opencog/util/selection.h: tournament_selection. The elements that are drawn, `from +
-- rng.randint(d)`, are an argument, in the order of the draws; `none` is that they are too few.
use cogutil.Base.{
  ℕ, suc, zero, ◌+◌, ◌*◌, ◌≤◌, true, false, List, [], ◌∷◌, Option, none, some, if◌then◌else◌,
  length, take, drop, length-drop, All, ◌≡◌, refl, inl, inr, arith, Bool-cases, ap, ◌∙◌,
}
use cogutil.Base.Order.{Less}
use package.cogutil.Selection.{at_index}

module _ {ℓ} {A : Type ℓ} (o : Less A) where
  abbrev better : A → A → A
  better res tmp = if o.less res tmp then tmp else res

  -- The inner loop: the best element so far against `n` more that are drawn.
  unfoldable pub contest : ℕ → A → List A → Option (A × List A)
  contest zero res draws = some (res, draws)
  contest (suc n) res [] = none
  contest (suc n) res (tmp ∷ draws) = contest n (better res tmp) draws

  unfoldable pub tournament : ℕ → List A → Option (A × List A)
  unfolding contest
  tournament more [] = none
  tournament more (res ∷ draws) = contest more res draws

  abbrev pub with_winner : A → Option (List A) → Option (List A)
  with_winner w none = none
  with_winner w (some ws) = some (w ∷ ws)

  abbrev pub then_others : (List A → Option (List A)) → Option (A × List A) → Option (List A)
  then_others others none = none
  then_others others (some (w, rest)) = with_winner w (others rest)

  -- `operator()`: the winners of `n` tournaments of `more + 1` elements each.
  unfoldable pub tournaments : ℕ → ℕ → List A → Option (List A)
  unfolding tournament
  tournaments zero more draws = some []
  tournaments (suc n) more draws = then_others (tournaments n more) (tournament more draws)

  abbrev pub IsAmong : A → List A → Type ℓ
  IsAmong w xs = (i : ℕ) × (at_index i xs ≡ some w)

  -- One of the elements, and not below any of them.
  abbrev pub IsBest : A → List A → Type ℓ
  IsBest w xs = IsAmong w xs × All (λ x. o.less w x ≡ false) xs

  abbrev pub AreWinners : ℕ → List A → List A → Type ℓ
  AreWinners t [] draws = Unit
  AreWinners t (w ∷ ws) draws = IsBest w (take t draws) × AreWinners t ws (drop t draws)

  -- An element not below a better one is not below the other.
  not_below : (w a b : A) → o.less w b ≡ false → o.less a b ≡ true → o.less w a ≡ false
  not_below w a b h more = elim (Bool-cases (o.less w a)) [
    | inl below ↦ cc (o.trans w a b below more, h)
    | inr above ↦ above
  ]

  not_above : (w a b : A) → o.less w a ≡ false → o.less a b ≡ false → o.less w b ≡ false
  not_above w a b h h' = elim (Bool-cases (o.less w b)) [
    | inl below ↦ elim (Bool-cases (o.less a w)) [
      | inl lower ↦ cc (o.trans a w b lower below, h')
      | inr other ↦ cc (o.total w a h other, h')
    ]
    | inr above ↦ above
  ]

  IsAmong-later : (w x y : A) (xs : List A) → IsAmong w (x ∷ xs) → IsAmong w (x ∷ y ∷ xs)
  unfolding at_index
  IsAmong-later w x y xs (zero, e) = (0, e)
  IsAmong-later w x y xs (suc i, e) = (suc (suc i), e)

  contest_lem :
      (n : ℕ) (res : A) (draws : List A)
      → n ≤ length draws
      → (w : A) × (contest n res draws ≡ some (w, drop n draws)) × IsBest w (res ∷ take n draws)
  unfolding contest at_index
  contest_lem zero res draws h = (res, refl, ((0, refl), (o.irrefl res, tt)))
  contest_lem (suc n) res [] h = absurd (omega (arith, h))
  contest_lem (suc n) res (tmp ∷ draws) h = elim (Bool-cases (o.less res tmp)) [
    | inl more ↦
        let (w, won, ((i, at), (first, others))) = contest_lem n tmp draws (omega (arith, h)) in
        (w, rw more won, ((suc i, at), (not_below w res tmp first more, (first, others))))
    | inr enough ↦
        let (w, won, (among, (first, others))) = contest_lem n res draws (omega (arith, h)) in
        (
          w,
          rw enough won,
          (
            IsAmong-later w res tmp (take n draws) among,
            (first, (not_above w res tmp first enough, others)),
          ),
        )
  ]

  tournament_lem :
      (more : ℕ) (draws : List A)
      → suc more ≤ length draws
      → (w : A) × (tournament more draws ≡ some (w, drop (suc more) draws))
        × IsBest w (take (suc more) draws)
  unfolding tournament
  tournament_lem more [] h = absurd (omega (arith, h))
  tournament_lem more (res ∷ draws) h = contest_lem more res draws (omega (arith, h))

  -- With enough draws, there is a winner of each tournament: one of the elements drawn for it, and
  -- not below any of them.
  pub tournaments_lem :
      (n more : ℕ) (draws : List A)
      → n * suc more ≤ length draws
      → (ws : List A) × (tournaments n more draws ≡ some ws)
        × (length ws ≡ n)
        × AreWinners (suc more) ws draws
  unfolding tournaments
  tournaments_lem zero more draws h = ([], refl, refl, tt)
  tournaments_lem (suc n) more draws h =
      let room : suc more + n * suc more ≤ length draws = omega (arith, h) in
      let (w, won, best) = tournament_lem more draws (omega (arith, room)) in
      let (ws, rest, count, others) =
        tournaments_lem n more (drop (suc more) draws)
          (omega (arith, room, length-drop (suc more) draws)) in
      (
        w ∷ ws,
        ap (then_others (tournaments n more)) won ∙ ap (with_winner w) rest,
        ap suc count,
        (best, others),
      )
