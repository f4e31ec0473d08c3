-- ===== src/Selector/Draws.antt =====
-- Sequences of calls of opencog/util/lazy_selector.cc, from a lower bound of 0 on.
use cogutil.Base.{
  ℕ, suc, ◌+◌, ◌≤◌, ◌<◌, true, false, ◌||◌, List, [], ◌∷◌, length, ◌==◌, leb, ◌≡◌, refl, sym, ap,
  ◌-◌, ◌%◌, arith, All, Bool-cases, inl, inr, subst, ltb, ◌⊎◌, some,
}
use package.cogutil.Selector.{Selector, Pick, word, create, empty, member, chosen, call}
use package.cogutil.Selector.Fresh.{Inv, Fresh, call-Fresh, till_free_lem, member-cons}

abbrev pub picks_then : (Selector → List ℕ) → Pick → List ℕ
picks_then next (Pick.pick n s) = n ∷ next s
picks_then next Pick.failed = []
picks_then next Pick.diverges = []

-- The numbers that calls select while the selector is not empty, where `select` gives `sels`.
unfoldable pub draw : List ℕ → Selector → List ℕ
unfolding call empty
draw [] s = []
draw (sel ∷ sels) s = elim (empty s) [
  | true ↦ []
  | false ↦ picks_then (λ t. draw sels t) (call sel s)
]

abbrev pub Unrepeated : List ℕ → Type 0
Unrepeated [] = Unit
Unrepeated (n ∷ ns) = (member n ns ≡ false) × Unrepeated ns

-- All numbers below the lower bound were selected.
abbrev Filled : Selector → Type 0
Filled s = (n : ℕ) → n < s.l → member n s.picked ≡ true

abbrev FilledPick : Pick → Type 0
FilledPick (Pick.pick n s) = Filled s
FilledPick other = Unit

member_more : (n c : ℕ) (ps : List ℕ) → member n ps ≡ true → member n (c ∷ ps) ≡ true
member_more n c ps h = ground arith

call-FilledPick : (sel : ℕ) (s : Selector) → Inv s → s.l < s.u → Filled s → FilledPick (call sel s)
unfolding call empty
call-FilledPick sel s i room filled =
    let open' : leb s.u s.l ≡ false = ground (arith, room) in
    let c = chosen sel s in
    elim (Bool-cases (c == s.l)) [
      | inl lowest ↦
          let (m, run, free, above, most, skips) =
            till_free_lem word s.l s.u s.picked i.fits room (omega (arith, i.fits)) i.below in
          rw (call, open', lowest, run)
            (λ n h. elim (Bool-cases (ltb n s.l)) [
              | inl lower ↦ member_more n c s.picked (filled n (ground arith))
              | inr higher ↦ elim (Bool-cases (n == c)) [
                | inl here ↦ ground arith
                | inr there ↦ member_more n c s.picked (skips n (ground (arith, lowest)) h)
              ]
            ])
      | inr other ↦ rw (call, open', other) (λ n h. member_more n c s.picked (filled n h))
    ]

-- A number below the lower bound stands for the lower bound.
call_lowest : (sel : ℕ) (s : Selector) → Inv s → Filled s → sel < s.l → call sel s ≡ call s.l s
unfolding call
call_lowest sel s i filled h = rw (call, filled sel h, i.free) refl

call_any :
    (sel : ℕ) (s : Selector) → Inv s → Filled s → s.l < s.u → sel < s.u → Fresh s (call sel s)
call_any sel s i filled room to = elim (Bool-cases (ltb sel s.l)) [
  | inl lower ↦
      subst (Fresh s) (sym (call_lowest sel s i filled (ground arith)))
        (call-Fresh s.l s i (omega arith) room)
  | inr higher ↦ call-Fresh sel s i (ground arith) to
]

-- A number that `s` can still select.
abbrev pub Open : Selector → ℕ → Type 0
Open s n = (member n s.picked ≡ false) × (s.l ≤ n) × (n < s.u)

not_in : (m n : ℕ) (ps : List ℕ) → member m (n ∷ ps) ≡ false → member m ps ≡ false
not_in m n ps h = ground arith

head_not : (m n : ℕ) (ps : List ℕ) → member m (n ∷ ps) ≡ false → (n == m) ≡ false
head_not m n ps h = ground arith

tail_Open :
    (s t : Selector) (n m : ℕ)
    → t.picked ≡ n ∷ s.picked
    → s.l ≤ t.l
    → t.u ≡ s.u
    → Open t m
    → Open s m
tail_Open s t n m e l u h = (
  not_in m n s.picked (subst (λ ps. member m ps ≡ false) e h.0),
  omega (arith, h.1, l),
  omega (arith, h.2, u),
)

All-Open :
    (s t : Selector) (n : ℕ) (ms : List ℕ)
    → t.picked ≡ n ∷ s.picked
    → s.l ≤ t.l
    → t.u ≡ s.u
    → All (Open t) ms
    → All (Open s) ms
All-Open s t n [] e l u a = tt
All-Open s t n (m ∷ ms) e l u a = (tail_Open s t n m e l u a.0, All-Open s t n ms e l u a.1)

not_among :
    (t : Selector) (n : ℕ) (ps ms : List ℕ)
    → t.picked ≡ n ∷ ps
    → All (Open t) ms
    → member n ms ≡ false
not_among t n ps [] e a = refl
not_among t n ps (m ∷ ms) e a =
    member-cons n m ms (head_not m n ps (subst (λ qs. member m qs ≡ false) e a.0.0))
      (not_among t n ps ms e a.1)

-- What holds of the numbers that are drawn from `s` on, and of one number.
abbrev Draws : List ℕ → ℕ → Selector → Type 0
Draws sels n s =
    Unrepeated (draw sels s)
    × All (Open s) (draw sels s)
    × ((length (draw sels s) ≡ length sels)
        ⊎ ((member n s.picked || member n (draw sels s)) ≡ true))

found_later :
    (n c : ℕ) (ps ns : List ℕ)
    → (member n (c ∷ ps) || member n ns) ≡ true
    → (member n ps || member n (c ∷ ns)) ≡ true
found_later n c ps ns h = ground arith

draw_lem :
    (sels : List ℕ) (n : ℕ) (s : Selector)
    → All (λ sel. sel < s.u) sels
    → n < s.u
    → Inv s
    → Filled s
    → Draws sels n s
unfolding draw empty
draw_lem [] n s r h i filled = (tt, tt, inl refl)
draw_lem (sel ∷ sels) n s (r, rs) h i filled = elim (Bool-cases (leb s.u s.l)) [
  | inl over ↦ rw (draw, over) (tt, tt, inr (ground (arith, filled n (ground (arith, over, h)))))
  | inr more ↦
      let room : s.l < s.u = ground (arith, more) in
      let f = call_any sel s i filled room r in
      let later = subst FilledPick f.picks (call-FilledPick sel s i room filled) in
      let rs' = subst (λ u. All (λ x. x < u) sels) (sym f.upper) rs in
      let ih = draw_lem sels n f.after rs' (omega (arith, h, f.upper)) f.inv later in
      let ns = draw sels f.after in
      rw (draw, more, f.picks)
        (
          (not_among f.after f.number s.picked ns f.recorded ih.1, ih.0),
          ((f.new, f.from, f.to), All-Open s f.after f.number ns f.recorded f.lower f.upper ih.1),
          elim ih.2 [
            | inl all ↦ inl (ap suc all)
            | inr found ↦ inr (
                found_later n f.number s.picked ns
                  (subst (λ ps. (member n ps || member n ns) ≡ true) f.recorded found))
          ],
        )
]

All-below : (s : Selector) (ms : List ℕ) → All (Open s) ms → All (λ m. m < s.u) ms
All-below s [] a = tt
All-below s (m ∷ ms) (a, rest) = (a.2, All-below s ms rest)

abbrev new_selector : ℕ → Selector
new_selector u = record { u = u; l = 0; picked = [] }

create_new : (u : ℕ) → 0 < u → u < word → create u 0 ≡ some (new_selector u)
unfolding create
create_new u more fits =
    let rest : (u + word - 0) % word ≡ u = omega (arith, fits) in
    let goes : ((u + word - 0) % word == 0) ≡ false = ground (arith, rest, more) in rw goes refl

-- On a new selector of the numbers below an upper bound above 0, let `select` give any numbers below
-- that bound, call after call, for as long as the selector is not empty. Then no number is selected
-- twice, none is out of the range, and the calls select as many numbers as `select` was to give, or
-- all numbers of the range.
pub draws_lem :
    (u : ℕ) (sels : List ℕ) (n : ℕ)
    → 0 < u
    → u < word
    → All (λ sel. sel < u) sels
    → n < u
    → (s : Selector) × (create u 0 ≡ some s)
      × Unrepeated (draw sels s)
      × All (λ m. m < u) (draw sels s)
      × ((length (draw sels s) ≡ length sels) ⊎ (member n (draw sels s) ≡ true))
draws_lem u sels n more fits below h =
    let s = new_selector u in
    let i : Inv s = record { fits = fits; in_range = omega arith; free = refl; below = tt } in
    let (unrepeated, news, all) =
      draw_lem sels n s below h i (λ k less_0. absurd (omega (arith, less_0))) in
    (s, create_new u more fits, unrepeated, All-below s (draw sels s) news, all)
