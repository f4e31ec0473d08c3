-- ===== src/Config/Strings.antt =====
-- `std::string` as the code of Config.cc uses it: the list of its bytes.
use cogutil.Base.{
  ℕ, Bool, true, false, ◌&&◌, ◌||◌, List, [], ◌∷◌, Option, none, some, ◌==◌, if◌then◌else◌, is_nil,
  ltb, ◌≡◌, refl, arith, ==_iff,
}

abbrev pub Text : Type 0
Text = List ℕ

abbrev pub hash : ℕ
hash = 35

abbrev pub equals : ℕ
equals = 61

abbrev pub comma : ℕ
comma = 44

abbrev pub quote : ℕ
quote = 34

abbrev pub slash : ℕ
slash = 47

abbrev pub dot : ℕ
dot = 46

-- `blank_chars`: blank, tab, form feed, vertical tab, line feed, carriage return.
abbrev pub is_blank : ℕ → Bool
is_blank c = c == 32 || c == 9 || c == 12 || c == 11 || c == 10 || c == 13

abbrev pub is_quote : ℕ → Bool
is_quote c = c == quote

-- `find_first_not_of`, and the text from there on.
unfoldable pub strip_front : (ℕ → Bool) → Text → Text
strip_front p [] = []
strip_front p (c ∷ s) = let rest = strip_front p s in if p c then rest else c ∷ s

-- The text as far as `find_last_not_of`.
unfoldable pub strip_back : (ℕ → Bool) → Text → Text
strip_back p [] = []
strip_back p (c ∷ s) = let rest = strip_back p s in if is_nil rest && p c then [] else c ∷ rest

unfoldable pub strip : (ℕ → Bool) → Text → Text
unfolding strip_front strip_back
strip p s = strip_back p (strip_front p s)

-- `find` of a character: what stands before it and after it.
unfoldable pub split_at : ℕ → Text → Option (Text × Text)
split_at c [] = none
split_at c (d ∷ s) = elim (d == c) [
  | true ↦ some ([], s)
  | false ↦ elim (split_at c s) [ none ↦ none | some p ↦ some (d ∷ p.0, p.1) ]
]

-- The line without its comment.
unfoldable pub uncommented : Text → Text
uncommented [] = []
uncommented (d ∷ s) = let rest = d ∷ uncommented s in if d == hash then [] else rest

-- `find_first_not_of(blank_chars) == npos`.
unfoldable pub all_blank : Text → Bool
all_blank [] = true
all_blank (c ∷ s) = is_blank c && all_blank s

-- `value[value.size()-1]`, which no empty text has.
unfoldable pub last_char : Text → Option ℕ
last_char [] = none
last_char (c ∷ s) = elim (last_char s) [ none ↦ some c | some d ↦ some d ]

-- `==` of two texts.
unfoldable pub same_text : Text → Text → Bool
same_text [] [] = true
same_text [] (d ∷ t) = false
same_text (c ∷ s) [] = false
same_text (c ∷ s) (d ∷ t) = c == d && same_text s t

pub same_text_eq : (s t : Text) → same_text s t ≡ true → s ≡ t
unfolding same_text
same_text_eq [] [] h = refl
same_text_eq [] (d ∷ t) h = ground arith
same_text_eq (c ∷ s) [] h = ground arith
same_text_eq (c ∷ s) (d ∷ t) h = ground (arith, same_text_eq s t, ==_iff c d)

pub same_text_refl : (s : Text) → same_text s s ≡ true
unfolding same_text
same_text_refl [] = refl
same_text_refl (c ∷ s) = ground (arith, same_text_refl s)

-- `<` of two texts, the order of the table.
unfoldable pub text_below : Text → Text → Bool
text_below s [] = false
text_below [] (d ∷ t) = true
text_below (c ∷ s) (d ∷ t) = ltb c d || c == d && text_below s t
