-- ===== src/Config.antt =====
-- opencog/util/Config.h and Config.cc: the table of parameters and the functions that read it.
-- Config/Load.antt has the parser of a configuration file.
pub mod Strings
pub mod Logging
pub mod Load
pub mod Lines
use cogutil.Base.{ℕ, Bool, true, false, not, List, [], ◌∷◌, ◌++◌, Option, none, some, if◌then◌else◌}
use package.cogutil.Config.Strings.{Text, same_text, text_below, slash, dot}

pub record Config : Type 0 where
  pub table : List (Text × Text)
  pub no_config_loaded : Bool
  pub had_to_search : Bool
  pub path_where_found : Text
  pub abs_path : Text
  pub cfg_filename : Text

-- `InvalidParamException`, by its three causes, or the value.
pub data Answer {ℓ} (A : Type ℓ) : Type ℓ where
  value : A → Answer A
  not_found : Text → Answer A
  invalid : Text → Answer A

-- `std::map::find`.
unfoldable pub find : Text → List (Text × Text) → Option Text
unfolding same_text
find k [] = none
find k ((j, v) ∷ t) = if same_text k j then some v else find k t

-- An assignment to `_table[k]`.
unfoldable pub assign : Text → Text → List (Text × Text) → List (Text × Text)
unfolding same_text text_below
assign k w [] = (k, w) ∷ []
assign k w ((j, v) ∷ t) =
    let rest = (j, v) ∷ assign k w t in
    if same_text k j then (k, w) ∷ t else if text_below k j then (k, w) ∷ (j, v) ∷ t else rest

-- `reset` leaves the path of the last file as it was.
unfoldable pub reset : Config → Config
reset c = record {
  table = [];
  no_config_loaded = true;
  had_to_search = true;
  path_where_found = c.path_where_found;
  abs_path = [];
  cfg_filename = [];
}

unfoldable pub create : Config
unfolding reset
create = record {
  table = [];
  no_config_loaded = true;
  had_to_search = true;
  path_where_found = [];
  abs_path = [];
  cfg_filename = [];
}

abbrev lib : Text
lib = 108 ∷ 105 ∷ 98 ∷ slash ∷ []

abbrev here : Text
here = dot ∷ slash ∷ []

abbrev up : Text
up = dot ∷ dot ∷ slash ∷ []

abbrev etc : Text
etc = slash ∷ 101 ∷ 116 ∷ 99 ∷ []

abbrev opencog : Text
opencog = 111 ∷ 112 ∷ 101 ∷ 110 ∷ 99 ∷ 111 ∷ 103 ∷ []

-- `CONFDIR` is a constant of the build.
abbrev pub default_config_paths : Text → List Text
default_config_paths confdir =
    here
    ∷ up
    ∷ (up ++ up)
    ∷ (up ++ up ++ up)
    ∷ (up ++ up ++ up ++ up)
    ∷ (here ++ lib)
    ∷ (up ++ lib)
    ∷ (up ++ up ++ lib)
    ∷ (up ++ up ++ up ++ lib)
    ∷ (up ++ up ++ up ++ up ++ lib)
    ∷ confdir
    ∷ (etc ++ slash ∷ opencog)
    ∷ etc
    ∷ []

abbrev pub default_config_filename : Text
default_config_filename = opencog ++ dot ∷ 99 ∷ 111 ∷ 110 ∷ 102 ∷ []

unfoldable pub search_paths : Text → Config → List Text
search_paths confdir c = if c.had_to_search then default_config_paths confdir else c.abs_path ∷ []

unfoldable pub has : Text → Config → Bool
unfolding find
has name c = elim (find name c.table) [ none ↦ false | some v ↦ true ]

unfoldable pub set : Text → Text → Config → Config
unfolding assign
set name v c = record {
  table = assign name v c.table;
  no_config_loaded = false;
  had_to_search = c.had_to_search;
  path_where_found = c.path_where_found;
  abs_path = c.abs_path;
  cfg_filename = c.cfg_filename;
}

unfoldable pub get : Text → Text → Config → Text
unfolding find
get name dfl c = elim (find name c.table) [ none ↦ dfl | some v ↦ v ]

-- `operator[]`.
unfoldable pub at : Text → Config → Answer Text
unfolding find
at name c = elim (find name c.table) [ none ↦ Answer.not_found name | some v ↦ Answer.value v ]

-- `get_int`, `get_long` and `get_double`: `cast` is `boost::lexical_cast`, `none` a bad cast.
unfoldable pub get_number {ℓ} : {A : Type ℓ} → (Text → Option A) → Text → A → Config → Answer A
unfolding has get
get_number cast name dfl c =
    if not (has name c)
    then Answer.value dfl
    else elim (cast (get name [] c)) [ none ↦ Answer.invalid name | some n ↦ Answer.value n ]

abbrev pub true_text : Text
true_text = 116 ∷ 114 ∷ 117 ∷ 101 ∷ []

abbrev pub false_text : Text
false_text = 102 ∷ 97 ∷ 108 ∷ 115 ∷ 101 ∷ []

-- `iequals` is `boost::iequals`, equality whatever the case.
unfoldable pub get_bool : (Text → Text → Bool) → Text → Bool → Config → Answer Bool
unfolding has get
get_bool iequals name dfl c =
    if not (has name c)
    then Answer.value dfl
    else if iequals (get name [] c) true_text
    then Answer.value true
    else if iequals (get name [] c) false_text
    then Answer.value false
    else Answer.invalid name
