-- ===== src/Tokenizer/Alt.antt =====
-- `AltStringTokenizer` of opencog/util/StringTokenizer.cc: the loop goes over what is left of the
-- string from `lastPos` on.
use cogutil.Base.{
  ℕ, zero, suc, ◌≤◌, Bool, true, false, List, [], ◌∷◌, ◌++◌, ◌≡◌, refl, if◌then◌else◌, is_nil,
  length, arith, All, Bool-cases, inl, inr, ap, ◌∙◌, sym,
}
use package.cogutil.Tokenizer.{Text}

module _ (is_delimiter : ℕ → Bool) where
  -- `find_first_not_of`: the string from there on.
  unfoldable pub skip_delimiters : Text → Text
  skip_delimiters [] = []
  skip_delimiters (c ∷ s) = let rest = skip_delimiters s in if is_delimiter c then rest else c ∷ s

  -- `find_first_of`: what stands before it, and the string from there on.
  unfoldable pub until_delimiter : Text → Text × Text
  until_delimiter [] = ([], [])
  until_delimiter (c ∷ s) =
      let (word, rest) = until_delimiter s in
      if is_delimiter c then ([], c ∷ s) else (c ∷ word, rest)

  -- Each round takes a character at least, so the size of the string is fuel enough.
  unfoldable pub split_loop : ℕ → Text → List Text
  unfolding skip_delimiters until_delimiter
  split_loop zero s = []
  split_loop (suc fuel) s =
      let at = skip_delimiters s in
      let rest = split_loop fuel (until_delimiter at).1 in
      if is_nil at then [] else (until_delimiter at).0 ∷ rest

  unfoldable pub split : Text → List Text
  unfolding split_loop
  split s = split_loop (length s) s

  -- The characters that are no delimiters.
  unfoldable pub kept : Text → Text
  kept [] = []
  kept (c ∷ s) = let rest = kept s in if is_delimiter c then rest else c ∷ rest

  kept-skip_delimiters : (s : Text) → kept (skip_delimiters s) ≡ kept s
  unfolding kept skip_delimiters
  kept-skip_delimiters [] = refl
  kept-skip_delimiters (c ∷ s) = ground (arith, kept-skip_delimiters s)

  kept-until_delimiter : (s : Text) → (until_delimiter s).0 ++ kept (until_delimiter s).1 ≡ kept s
  unfolding kept until_delimiter
  kept-until_delimiter [] = refl
  kept-until_delimiter (c ∷ s) = elim (Bool-cases (is_delimiter c)) [
    | inl stop ↦ rw stop (rw stop refl)
    | inr go ↦ rw (go, kept) (ap (◌∷◌ c) (kept-until_delimiter s))
  ]

  length-skip_delimiters : (s : Text) → length (skip_delimiters s) ≤ length s
  unfolding skip_delimiters
  length-skip_delimiters [] = omega arith
  length-skip_delimiters (c ∷ s) = ground (arith, length-skip_delimiters s)

  length-until_delimiter : (s : Text) → length (until_delimiter s).1 ≤ length s
  unfolding until_delimiter
  length-until_delimiter [] = omega arith
  length-until_delimiter (c ∷ s) = ground (arith, length-until_delimiter s)

  -- A word begins where no delimiter stands.
  abbrev pub IsBegin : Text → Type 0
  IsBegin [] = Unit
  IsBegin (c ∷ s) = is_delimiter c ≡ false

  skip_delimiters-IsBegin : (s : Text) → IsBegin (skip_delimiters s)
  unfolding skip_delimiters
  skip_delimiters-IsBegin [] = tt
  skip_delimiters-IsBegin (c ∷ s) = elim (Bool-cases (is_delimiter c)) [
    | inl blank ↦ rw blank (skip_delimiters-IsBegin s)
    | inr word ↦ rw word word
  ]

  abbrev pub joined : List Text → Text
  joined [] = []
  joined (w ∷ ws) = w ++ joined ws

  abbrev pub IsWord : Text → Type 0
  IsWord w = (is_nil w ≡ false) × All (λ c. is_delimiter c ≡ false) w

  length-until_begin :
      (s : Text) → IsBegin s → is_nil s ≡ false → suc (length (until_delimiter s).1) ≤ length s
  unfolding until_delimiter
  length-until_begin [] b h = ground arith
  length-until_begin (c ∷ s) b h = rw b (omega (arith, length-until_delimiter s))

  until_delimiter-bare : (s : Text) → All (λ c. is_delimiter c ≡ false) (until_delimiter s).0
  unfolding until_delimiter
  until_delimiter-bare [] = tt
  until_delimiter-bare (c ∷ s) = elim (Bool-cases (is_delimiter c)) [
    | inl stop ↦ rw stop tt
    | inr go ↦ rw go (go, until_delimiter-bare s)
  ]

  until_delimiter-IsWord : (s : Text) → IsBegin s → is_nil s ≡ false → IsWord (until_delimiter s).0
  unfolding until_delimiter
  until_delimiter-IsWord [] b h = ground arith
  until_delimiter-IsWord (c ∷ s) b h = rw b (refl, (b, until_delimiter-bare s))

  kept-nil : (s : Text) → is_nil s ≡ true → kept s ≡ []
  unfolding kept
  kept-nil [] h = refl
  kept-nil (c ∷ s) h = ground arith

  -- What a round of the loop does to a string that it does not end at.
  round_length :
      (s : Text)
      → is_nil (skip_delimiters s) ≡ false
      → suc (length (until_delimiter (skip_delimiters s)).1) ≤ length s
  round_length s h = omega (
    arith,
    length-skip_delimiters s,
    length-until_begin (skip_delimiters s) (skip_delimiters-IsBegin s) h,
  )

  joined-split_loop :
      (fuel : ℕ) (s : Text)
      → length s ≤ fuel
      → (joined (split_loop fuel s) ≡ kept s) × All IsWord (split_loop fuel s)
  unfolding split_loop
  joined-split_loop zero [] h = (sym (kept-nil [] refl), tt)
  joined-split_loop zero (c ∷ s) h = ground arith
  joined-split_loop (suc fuel) s h =
      let at = skip_delimiters s in
      elim (Bool-cases (is_nil at)) [
        | inl done ↦ rw (split_loop, done) (sym (kept-nil at done) ∙ kept-skip_delimiters s, tt)
        | inr more ↦
            let ih =
              joined-split_loop fuel (until_delimiter at).1
                (omega (arith, round_length s more, h)) in
            rw (split_loop, more)
              (
                ap (λ r. (until_delimiter at).0 ++ r) ih.0
                    ∙ kept-until_delimiter at
                    ∙ kept-skip_delimiters s,
                (until_delimiter-IsWord at (skip_delimiters-IsBegin s) more, ih.1),
              )
      ]

  -- The tokens of a string are words, not empty and without delimiters; joined they are the string
  -- without its delimiters, so that no character is lost, added or moved.
  pub split_lem : (s : Text) → (joined (split s) ≡ kept s) × All IsWord (split s)
  unfolding split
  split_lem s = joined-split_loop (length s) s (omega arith)
