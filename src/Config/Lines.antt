-- ===== src/Config/Lines.antt =====
-- Properties of the table of parameters, and of the lines of a configuration file.
use cogutil.Base.{
  ℕ, true, false, List, [], ◌∷◌, ◌++◌, some, ◌==◌, if◌then◌else◌, ◌≡◌, refl, arith, Bool-cases, inl,
  inr, All,
}
use package.cogutil.Config.Strings.{
  Text, is_blank, is_quote, strip, last_char, equals, comma, hash, same_text, same_text_eq,
  same_text_refl,
}
use package.cogutil.Config.{Config, find, assign, get, set}
use package.cogutil.Config.Load.{Scan}

find-assign :
    (q k v : Text) (t : List (Text × Text))
    → find q (assign k v t) ≡ (if same_text q k then some v else find q t)
unfolding find assign
find-assign q k v [] = refl
find-assign q k v ((j, w) ∷ t) = ground (
  arith,
  find-assign q k v t,
  same_text_eq q k,
  same_text_eq k j,
  same_text_eq q j,
  same_text_refl q,
)

-- After `set` a parameter has the value that was set, and every other parameter what it had, or
-- the default of the call if it has none.
get-set :
    (q k v dfl : Text) (c : Config)
    → get q dfl (set k v c) ≡ (if same_text q k then v else get q dfl c)
unfolding get set
get-set q k v dfl c = elim (Bool-cases (same_text q k)) [
  | inl here ↦ rw (get, find-assign q k v c.table, here) refl
  | inr other ↦ rw (get, find-assign q k v c.table, other) refl
]

-- `name = value#comment`.
abbrev pub entry_line : Text → Text → Text → Text
entry_line name value comment = (name ++ 32 ∷ []) ++ equals ∷ 32 ∷ (value ++ hash ∷ comment)

-- A name and a value that a line of the file can give: nothing is stripped of them, no comma ends
-- the value, and they have no character that ends them early.
pub record IsEntry (name value : Text) : Type 0 where
  pub name_hash : All (λ c. (c == hash) ≡ false) name
  pub name_equals : All (λ c. (c == equals) ≡ false) name
  pub name_bare : strip is_blank name ≡ name
  pub value_hash : All (λ c. (c == hash) ≡ false) value
  pub value_bare : strip is_blank value ≡ value
  pub value_unquoted : strip is_quote value ≡ value
  pub value_ends : (d : ℕ) × (last_char value ≡ some d) × ((d == comma) ≡ false)

abbrev pub AllEntries : List (Text × Text × Text) → Type 0
AllEntries es = All (λ e. IsEntry e.0 e.1) es

abbrev scanned : Text → Text → Scan
scanned name value = record { name = name; value = value; have_name = true; have_value = false }

abbrev pub assigned : List (Text × Text × Text) → List (Text × Text) → List (Text × Text)
assigned [] table = table
assigned (e ∷ es) table = assigned es (assign e.0 e.1 table)
