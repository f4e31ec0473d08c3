-- ===== src/Tokenizer/First.antt =====
-- What `StringTokenizer::next_token` gives from the start of a string and behind a delimiter.
use cogutil.Base.{ℕ, suc, true, false, [], ◌∷◌, ◌++◌, some, ◌==◌, length, ◌≡◌, refl, arith, ==_iff}
use package.cogutil.Tokenizer.{Text, Token, create, starts_with, find_at, next_end, next_token}

starts_with-append : (d s : Text) → starts_with d (d ++ s) ≡ true
unfolding starts_with
starts_with-append [] s = refl
starts_with-append (c ∷ d) s = ground (arith, starts_with-append d s, ==_iff c c)

find_at-append : (c : ℕ) (d s : Text) (pos : ℕ) → find_at (c ∷ d) ((c ∷ d) ++ s) pos ≡ some pos
unfolding find_at
find_at-append c d s pos = rw (starts_with-append (c ∷ d) s) refl

next_end_here : (c : ℕ) (d s : Text) → next_end (create ((c ∷ d) ++ s) (c ∷ d)) 0 ≡ 0
unfolding next_end create
next_end_here c d s = rw (find_at-append c d s 0) refl

zero_ne : (n : ℕ) → (0 == suc n) ≡ false
zero_ne n = ground arith

-- A tokenizer of a string that begins with the delimiter gives an empty token and stays as it was,
-- so that it never comes to the other tokens.
next_token_stuck :
    (c : ℕ) (d s : Text)
    → next_token (create ((c ∷ d) ++ s) (c ∷ d)) ≡ (Token.token [], create ((c ∷ d) ++ s) (c ∷ d))
unfolding next_token create
next_token_stuck c d s = rw (next_token, next_end_here c d s, zero_ne (length (d ++ s))) refl
