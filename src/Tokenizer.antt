-- ===== src/Tokenizer.antt =====
-- opencog/util/StringTokenizer.h and StringTokenizer.cc. A string is the list of its bytes.
pub mod Alt
pub mod First
use cogutil.Base.{
  ℕ, zero, suc, ◌+◌, ◌-◌, Bool, true, false, not, ◌&&◌, ◌||◌, List, [], ◌∷◌, Option, none, some,
  ◌==◌, if◌then◌else◌, is_nil, length, take, drop, ltb,
}

abbrev pub Text : Type 0
Text = List ℕ

pub record Tokenizer : Type 0 where
  pub str : Text
  pub delimiter : Text
  pub start : ℕ
  pub end : ℕ

-- A token, or a failed assertion or `std::out_of_range`.
pub data Token : Type 0 where
  token : Text → Token
  failed : Token

unfoldable pub create : Text → Text → Tokenizer
create s d = record { str = s; delimiter = d; start = 0; end = 0 }

unfoldable pub set_string : Text → Tokenizer → Tokenizer
set_string s t = record t { str = s }

unfoldable pub set_delimiter : Text → Tokenizer → Tokenizer
set_delimiter d t = record t { delimiter = d }

unfoldable pub reset : Tokenizer → Tokenizer
reset t = record t { start = 0; end = 0 }

unfoldable pub delimiter_size : Tokenizer → ℕ
delimiter_size t = length t.delimiter

unfoldable pub starts_with : Text → Text → Bool
starts_with [] s = true
starts_with (c ∷ d) [] = false
starts_with (c ∷ d) (e ∷ s) = c == e && starts_with d s

-- `find`, in what is left of the string from a position on.
unfoldable pub find_at : Text → Text → ℕ → Option ℕ
unfolding starts_with
find_at d [] pos = if is_nil d then some pos else none
find_at d (c ∷ s) pos =
    let later = find_at d s (suc pos) in if starts_with d (c ∷ s) then some pos else later

abbrev pub found_or : Option ℕ → ℕ → ℕ
found_or none n = n
found_or (some i) n = i

-- The position of the delimiter from `pos` on, or the size of the string.
unfoldable pub next_end : Tokenizer → ℕ → ℕ
unfolding find_at
next_end t pos = found_or (find_at t.delimiter (drop pos t.str) pos) (length t.str)

-- `substr`, which throws if the position is beyond the end.
unfoldable pub substr : ℕ → ℕ → Text → Option Text
substr pos n s = if ltb (length s) pos then none else some (take n (drop pos s))

unfoldable pub same_text : Text → Text → Bool
same_text [] [] = true
same_text [] (d ∷ t) = false
same_text (c ∷ s) [] = false
same_text (c ∷ s) (d ∷ t) = c == d && same_text s t

abbrev pub moved : ℕ → ℕ → Tokenizer → Tokenizer
moved i j t = record t { start = i; end = j }

-- The `do` loop. `start` grows in each round, so the size of the string and one is fuel enough.
unfoldable pub skip : ℕ → Tokenizer → Token × Tokenizer
unfolding next_end substr same_text delimiter_size
skip zero t = (Token.failed, t)
skip (suc fuel) t =
    let i = t.end + delimiter_size t in
    let j = next_end t i in
    let again = skip fuel (moved i j t) in
    if i == length t.str then (Token.token [], moved i i t) else elim (substr i (j - i) t.str) [
      | none ↦ (Token.failed, moved i j t)
      | some s ↦ if same_text s t.delimiter || j == i then again else (Token.token s, moved i j t)
    ]

unfoldable pub next_token : Tokenizer → Token × Tokenizer
unfolding skip next_end
next_token t =
    if is_nil t.str || is_nil t.delimiter
    then (Token.failed, t)
    else if t.end == length t.str
    then (Token.token [], t)
    else if t.start == 0 && t.end == 0
    then (Token.token (take (next_end t 0) t.str), moved 0 (next_end t 0) t)
    else skip (suc (length t.str)) t
