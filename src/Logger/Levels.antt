-- ===== src/Logger/Levels.antt =====
-- opencog/util/Logger.h and Logger.cc: the levels and their names. `strcasecmp` is a parameter.
use cogutil.Base.{
  ℕ, suc, Bool, true, ◌&&◌, List, [], ◌∷◌, Option, some, zero, ◌==◌, if◌then◌else◌, map, ◌≡◌, ◌≢◌,
  refl, sym, subst, ◌∙◌, ◌↔◌, ◌⊎◌, inl, inr, Bool-cases, leb, ◌+◌, All, false, arith,
}
use cogutil.Config.Strings.{Text, same_text, same_text_eq, same_text_refl}

pub data Level : Type 0 where
  none error warn info debug fine bad_level : Level

-- The values of the enum.
unfoldable pub value : Level → ℕ
value Level.none = 0
value Level.error = 1
value Level.warn = 2
value Level.info = 3
value Level.debug = 4
value Level.fine = 5
value Level.bad_level = 255

-- The cast of a value of the enum.
unfoldable pub of_value : ℕ → Level
of_value i =
    if i == 0
    then Level.none
    else if i == 1
    then Level.error
    else if i == 2
    then Level.warn
    else if i == 3
    then Level.info
    else if i == 4
    then Level.debug
    else if i == 5
    then Level.fine
    else Level.bad_level

abbrev pub level_strings : List Text
level_strings =
    (b'N' ∷ b'O' ∷ b'N' ∷ b'E' ∷ [])
    ∷ (b'E' ∷ b'R' ∷ b'R' ∷ b'O' ∷ b'R' ∷ [])
    ∷ (b'W' ∷ b'A' ∷ b'R' ∷ b'N' ∷ [])
    ∷ (b'I' ∷ b'N' ∷ b'F' ∷ b'O' ∷ [])
    ∷ (b'D' ∷ b'E' ∷ b'B' ∷ b'U' ∷ b'G' ∷ [])
    ∷ (b'F' ∷ b'I' ∷ b'N' ∷ b'E' ∷ [])
    ∷ []

abbrev bad_level_string : Text
bad_level_string = b'B' ∷ b'a' ∷ b'd' ∷ b' ' ∷ b'l' ∷ b'e' ∷ b'v' ∷ b'e' ∷ b'l' ∷ []

-- The entry of an array, `none` past its end.
unfoldable pub entry : ℕ → List Text → Option Text
entry i [] = Option.none
entry i (t ∷ ts) = elim i [ zero ↦ some t | suc k ↦ entry k ts ]

unfoldable pub get_level_string : Level → Option Text
unfolding value entry
get_level_string Level.bad_level = some bad_level_string
get_level_string level = entry (value level) level_strings

-- The loop from the index `i` on: `equal` tells whether `strcasecmp` gives 0.
unfoldable pub level_loop : (Text → Text → Bool) → Text → ℕ → List Text → Level
unfolding of_value
level_loop equal s i [] = Level.bad_level
level_loop equal s i (t ∷ ts) =
    let rest = level_loop equal s (suc i) ts in if equal s t then of_value i else rest

-- What a function of C reads of `c_str()`: the bytes before the first byte 0.
unfoldable pub c_str : Text → Text
c_str [] = []
c_str (c ∷ s) = let rest = c ∷ c_str s in if c == 0 then [] else rest

unfoldable pub get_level_from_string : (Text → Text → Bool) → Text → Level
unfolding level_loop c_str
get_level_from_string equal s = level_loop equal (c_str s) 0 level_strings

-- `tolower` of the POSIX locale.
abbrev pub tolower : ℕ → ℕ
tolower c = if leb b'A' c && leb c b'Z' then c + 32 else c

-- A string of C, that is, without a byte 0.
abbrev pub HasNoZero : Text → Type 0
HasNoZero = All (λ (c : ℕ). (c == 0) ≡ false)

-- What is documented of `strcasecmp`: it gives 0 for strings of C that are the same but for their
-- case.
abbrev pub IgnoresCase : (Text → Text → Bool) → Type 0
IgnoresCase equal =
    (s t : Text) → HasNoZero s → HasNoZero t → (equal s t ≡ true) ↔ (map tolower s ≡ map tolower t)

c_str-HasNoZero : (s : Text) → HasNoZero (c_str s)
unfolding c_str
c_str-HasNoZero [] = tt
c_str-HasNoZero (c ∷ s) = elim (Bool-cases (c == 0)) [
  | inl ends ↦ rw ends tt
  | inr goes ↦ rw goes (goes, c_str-HasNoZero s)
]

loop-cong :
    (equal : Text → Text → Bool) (f : Text → Bool) (s : Text) (i : ℕ) (ts : List Text)
    → All (λ (n : Text). equal s n ≡ f n) ts
    → level_loop equal s i ts ≡ level_loop (λ r n. f n) s i ts
unfolding level_loop
loop-cong equal f s i [] h = refl
loop-cong equal f s i (t ∷ ts) (h, hs) = rw (h, loop-cong equal f s (suc i) ts hs) refl

-- The names, from the index `i` on, are those of the values.
abbrev Names : ℕ → List Text → Type 0
Names i [] = Unit
Names i (n ∷ ns) = (get_level_string (of_value i) ≡ some n) × HasNoZero n × Names (suc i) ns

abbrev Named : Text → Level → Type 0
Named s l =
    (l ≡ Level.bad_level)
    ⊎ ((t : Text) × (get_level_string l ≡ some t) × (map tolower s ≡ map tolower t))

abbrev Selects : Text → Level → Option Text → Type 0
Selects s l Option.none = ⊥
Selects s l (some t) =
    level_loop (λ r n. same_text (map tolower t) (map tolower n)) s 0 level_strings ≡ l

own_string : (s : Text) (l : Level) → Selects s l (get_level_string l)
unfolding get_level_string level_loop same_text entry of_value
own_string s Level.none = refl
own_string s Level.error = refl
own_string s Level.warn = refl
own_string s Level.info = refl
own_string s Level.debug = refl
own_string s Level.fine = refl
own_string s Level.bad_level = refl

-- The text `s` is the string of the level, but for the case.
abbrev pub IsNameOf : Text → Level → Type 0
IsNameOf s l = (t : Text) × (get_level_string l ≡ some t) × (map tolower s ≡ map tolower t)

true_not_false : true ≡ false → ⊥
true_not_false e = cc

level_strings-Names : Names 0 level_strings
unfolding get_level_string entry of_value value
level_strings-Names = ground arith

module _ (equal : Text → Text → Bool) (ignores : IgnoresCase equal) where
  tested :
      (s t n : Text)
      → HasNoZero s
      → HasNoZero n
      → map tolower s ≡ map tolower t
      → equal s n ≡ same_text (map tolower t) (map tolower n)
  tested s t n clean clean' e = elim (Bool-cases (equal s n)) [
    | inl y ↦ rw (y, sym e, (ignores s n clean clean').0 y) (sym (same_text_refl (map tolower n)))
    | inr y ↦ elim (Bool-cases (same_text (map tolower t) (map tolower n))) [
      | inl same ↦ absurd (
          true_not_false (
            sym
              ((ignores s n clean clean').1 (e ∙ same_text_eq (map tolower t) (map tolower n) same))
            ∙ y))
      | inr differ ↦ y ∙ sym differ
    ]
  ]

  each_tested :
      (s t : Text) (i : ℕ) (ns : List Text)
      → HasNoZero s
      → map tolower s ≡ map tolower t
      → Names i ns
      → All (λ (n : Text). equal s n ≡ same_text (map tolower t) (map tolower n)) ns
  each_tested s t i [] clean e names = tt
  each_tested s t i (n ∷ ns) clean e (name, clean', names) =
      (tested s t n clean clean' e, each_tested s t (suc i) ns clean e names)

  loop-Named :
      (s : Text) (i : ℕ) (ts : List Text)
      → HasNoZero s
      → Names i ts
      → Named s (level_loop equal s i ts)
  unfolding level_loop
  loop-Named s i [] clean h = inl refl
  loop-Named s i (t ∷ ts) clean (h, clean', hs) = elim (Bool-cases (equal s t)) [
    | inl y ↦ rw y (inr (t, h, (ignores s t clean clean').0 y))
    | inr y ↦ rw y (loop-Named s (suc i) ts clean hs)
  ]

  string_gives :
      (l : Level) (s t : Text)
      → HasNoZero s
      → get_level_string l ≡ some t
      → map tolower s ≡ map tolower t
      → level_loop equal s 0 level_strings ≡ l
  string_gives l s t clean got e =
      loop-cong equal (λ n. same_text (map tolower t) (map tolower n)) s 0 level_strings
        (each_tested s t 0 level_strings clean e level_strings-Names)
      ∙ subst (Selects s l) got (own_string s l)

  Named-IsNameOf : (s : Text) (l : Level) → l ≢ Level.bad_level → Named s l → IsNameOf s l
  Named-IsNameOf s l good (inl bad) = absurd (good bad)
  Named-IsNameOf s l good (inr found) = found

  -- Where strcasecmp is as documented of strings of C, get_level_from_string gives a level that is not
  -- BAD_LEVEL exactly for the texts that, up to their first byte 0 if they have one, are what
  -- get_level_string gives for it, but for the case.
  pub get_level_from_string_lem :
      (l : Level) (s : Text)
      → l ≢ Level.bad_level
      → (get_level_from_string equal s ≡ l) ↔ IsNameOf (c_str s) l
  unfolding get_level_from_string
  get_level_from_string_lem l s good =
      let named = loop-Named (c_str s) 0 level_strings (c_str-HasNoZero s) level_strings-Names in
      (
        λ e. Named-IsNameOf (c_str s) l good (subst (Named (c_str s)) e named),
        λ name. string_gives l (c_str s) name.0 (c_str-HasNoZero s) name.1 name.2,
      )
