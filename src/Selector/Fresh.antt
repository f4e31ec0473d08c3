-- ===== src/Selector/Fresh.antt =====
-- Properties of a single call of opencog/util/lazy_selector.cc.
use cogutil.Base.{
  ℕ, zero, suc, ◌+◌, ◌%◌, ◌≤◌, ◌<◌, true, false, List, [], ◌∷◌, Option, some, ◌==◌, leb, ◌≡◌, refl,
  arith, All, Bool-cases, inl, inr, ◌∙◌, ap, sym, subst,
}
use package.cogutil.Selector.{Selector, Pick, word, empty, member, till_free, chosen, call}

-- The lower bound is in the range, and free; what was picked is below the upper bound.
pub record Inv (s : Selector) : Type 0 where
  pub fits : s.u < word
  pub in_range : s.l ≤ s.u
  pub free : member s.l s.picked ≡ false
  pub below : All (λ p. p < s.u) s.picked

wrap : (n : ℕ) → n < word → n % word ≡ n
wrap n h = omega (arith, h)

member_below : (n u : ℕ) (ps : List ℕ) → All (λ p. p < u) ps → member n ps ≡ true → n < u
member_below n u [] a h = ground arith
member_below n u (p ∷ ps) a h = ground (arith, a.0, member_below n u ps a.1)

abbrev round : ℕ → List ℕ → ℕ → Option ℕ
round fuel ps n = elim (member n ps) [ true ↦ till_free fuel n ps | false ↦ some n ]

round_taken :
    (fuel n : ℕ) (ps : List ℕ) → member n ps ≡ true → round fuel ps n ≡ till_free fuel n ps
round_taken fuel n ps t = rw (round, t) refl

round_free : (fuel n : ℕ) (ps : List ℕ) → member n ps ≡ false → round fuel ps n ≡ some n
round_free fuel n ps t = rw (round, t) refl

till_free-round :
    (fuel l : ℕ) (ps : List ℕ) → l + 1 < word → till_free (suc fuel) l ps ≡ round fuel ps (l + 1)
unfolding till_free
till_free-round fuel l ps h = ap (round fuel ps) (wrap (l + 1) h)

pub till_free_lem :
    (fuel l u : ℕ) (ps : List ℕ)
    → u < word
    → l < u
    → u ≤ l + fuel
    → All (λ p. p < u) ps
    → (m : ℕ) × (till_free fuel l ps ≡ some m)
      × (member m ps ≡ false)
      × (l < m)
      × (m ≤ u)
      × ((n : ℕ) → l < n → n < m → member n ps ≡ true)
unfolding till_free
till_free_lem zero l u ps f h e a = absurd (omega (arith, h, e))
till_free_lem (suc fuel) l u ps f h e a = elim (Bool-cases (member (l + 1) ps)) [
  | inl taken ↦
      let below = member_below (l + 1) u ps a taken in
      let (m, run, free, above, most, skips) =
        till_free_lem fuel (l + 1) u ps f below (omega (arith, e)) a in
      (
        m,
        till_free-round fuel l ps (omega (arith, f, h)) ∙ round_taken fuel (l + 1) ps taken ∙ run,
        free,
        omega (arith, above),
        most,
        λ n a b. elim (Bool-cases (n == l + 1)) [
          | inl next ↦
              let same : n ≡ l + 1 = ground arith in
              subst (λ i. member i ps ≡ true) (sym same) taken
          | inr later ↦ skips n (ground arith) b
        ],
      )
  | inr free ↦ (
    l + 1,
    till_free-round fuel l ps (omega (arith, f, h)) ∙ round_free fuel (l + 1) ps free,
    free,
    omega arith,
    omega (arith, h),
    λ n a b. absurd (omega (arith, a, b)),
  )
]

-- What a call does: the number is new, in the range, and recorded, and the bounds move up at most.
pub record Fresh (s : Selector) (p : Pick) : Type 0 where
  pub number : ℕ
  pub after : Selector
  pub picks : p ≡ Pick.pick number after
  pub new : member number s.picked ≡ false
  pub from : s.l ≤ number
  pub to : number < s.u
  pub recorded : after.picked ≡ number ∷ s.picked
  pub upper : after.u ≡ s.u
  pub lower : s.l ≤ after.l
  pub inv : Inv after

behind : (m c l : ℕ) → (c == l) ≡ true → l < m → (m == c) ≡ false
behind m c l h k = ground arith

apart : (l c : ℕ) → (c == l) ≡ false → (l == c) ≡ false
apart l c h = ground arith

pub member-cons :
    (m c : ℕ) (ps : List ℕ) → (m == c) ≡ false → member m ps ≡ false → member m (c ∷ ps) ≡ false
member-cons m c ps h k = rw (h, k) refl

pub chosen_lem :
    (sel : ℕ) (s : Selector)
    → Inv s
    → s.l ≤ sel
    → sel < s.u
    → (member (chosen sel s) s.picked ≡ false) × (s.l ≤ chosen sel s) × (chosen sel s < s.u)
chosen_lem sel s i from to = elim (Bool-cases (member sel s.picked)) [
  | inl taken ↦ rw taken (i.free, omega arith, omega (arith, from, to))
  | inr new ↦ rw new (new, from, to)
]

-- On a selector that is not empty and satisfies the invariant, if `select` gives a number of the
-- range, a call ends, selects a number of the range that was never selected before, and keeps the
-- invariant.
pub call-Fresh : (sel : ℕ) (s : Selector) → Inv s → s.l ≤ sel → sel < s.u → Fresh s (call sel s)
unfolding call empty
call-Fresh sel s i from to =
    let (new, low, high) = chosen_lem sel s i from to in
    let open' : leb s.u s.l ≡ false = ground (arith, from, to) in
    elim (Bool-cases (chosen sel s == s.l)) [
      | inl lowest ↦
          let (m, run, free, above, most, skips) =
            till_free_lem word s.l s.u s.picked i.fits (omega (arith, from, to))
              (omega (arith, i.fits)) i.below in
          record {
            number = chosen sel s;
            after = record { u = s.u; l = m; picked = chosen sel s ∷ s.picked };
            picks = rw (call, open', lowest, run) refl;
            new = new;
            from = low;
            to = high;
            recorded = refl;
            upper = refl;
            lower = omega (arith, above);
            inv = record {
              fits = i.fits;
              in_range = most;
              free =
                  member-cons m (chosen sel s) s.picked (behind m (chosen sel s) s.l lowest above)
                    free;
              below = (high, i.below);
            };
          }
      | inr other ↦ record {
        number = chosen sel s;
        after = record { u = s.u; l = s.l; picked = chosen sel s ∷ s.picked };
        picks = rw (call, open', other) refl;
        new = new;
        from = low;
        to = high;
        recorded = refl;
        upper = refl;
        lower = omega arith;
        inv = record {
          fits = i.fits;
          in_range = i.in_range;
          free = member-cons s.l (chosen sel s) s.picked (apart s.l (chosen sel s) other) i.free;
          below = (high, i.below);
        };
      }
    ]
