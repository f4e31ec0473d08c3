-- ===== src/Tests/Tokenizer.antt =====
-- Strings of letters and blanks.
use cogutil.Base.{ℕ, Bool, [], ◌∷◌, All, ◌≡◌, refl, ◌==◌}
use cogutil.Tokenizer.{Text}
use cogutil.Tokenizer.Alt.{split, joined, kept, IsWord, split_lem}

abbrev is_space : ℕ → Bool
is_space c = c == 32

-- ` ab  c`.
abbrev words : Text
words = 32 ∷ 97 ∷ 98 ∷ 32 ∷ 32 ∷ 99 ∷ []

two_words : split is_space words ≡ (97 ∷ 98 ∷ []) ∷ (99 ∷ []) ∷ []
unfolding split
two_words = refl

split_lem_example :
    (joined is_space (split is_space words) ≡ kept is_space words)
    × All (IsWord is_space) (split is_space words)
split_lem_example = split_lem is_space words
