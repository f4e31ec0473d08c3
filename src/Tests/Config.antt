-- ===== src/Tests/Config.antt =====
-- Lines of a configuration file: `ab = 1,2#x` and `c = 3#`, and `c=` with no value.
use cogutil.Base.{List, [], ◌∷◌, ◌≡◌, refl}
use cogutil.Config.{create, get, set}
use cogutil.Config.Strings.{
  Text, last_char, strip, strip_front, strip_back, split_at, uncommented, all_blank,
}
use cogutil.Config.Load.{Turn, look, read_line, read_lines, blank_scan}

config_program : Unit {0}
unfolding read_lines read_line create get set
config_program = tt

abbrev two_entries : List (Text × Text × Text)
two_entries = (97 ∷ 98 ∷ [], 49 ∷ 44 ∷ 50 ∷ [], 120 ∷ []) ∷ (99 ∷ [], 51 ∷ [], []) ∷ []

-- An empty value makes the parser read the character before the value's first one.
empty_value_read : read_line (99 ∷ 61 ∷ []) (blank_scan []) [] ≡ Turn.undefined
unfolding config_program look last_char strip strip_front strip_back split_at uncommented all_blank
empty_value_read = refl
