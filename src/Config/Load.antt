-- ===== src/Config/Load.antt =====
-- opencog/util/Config.cc: `Config::load` and its parser. Files are found and read by
-- a parameter of the model; the warnings that go to the log are not modelled.
use cogutil.Base.{
  ℕ, suc, Bool, true, false, not, ◌&&◌, ◌||◌, List, [], ◌∷◌, ◌++◌, Option, none, some, ◌==◌,
  if◌then◌else◌, is_nil,
}
use package.cogutil.Config.Strings.{
  Text, is_blank, is_quote, strip, split_at, uncommented, all_blank, last_char, equals, comma,
  slash,
}
use package.cogutil.Config.{Config, assign, reset, default_config_paths, default_config_filename}
use package.cogutil.Config.Logging.{World, LogCall, setup_logger}

-- The variables of the loop that reads the lines.
pub record Scan : Type 0 where
  pub name : Text
  pub value : Text
  pub have_name : Bool
  pub have_value : Bool

-- One turn of the loop; `undefined` is the read of `value[value.size()-1]` for an empty value.
pub data Turn : Type 0 where
  next : Scan → List (Text × Text) → Turn
  bad : Turn
  undefined : Turn

-- The end of the loop's body.
unfoldable pub store : Scan → List (Text × Text) → Turn
unfolding assign
store s table =
    if s.have_name && s.have_value
    then Turn.next (record { name = s.name; value = []; have_name = false; have_value = false })
        (assign s.name s.value table)
    else Turn.next s table

-- "Look for trailing comma."
unfoldable pub look : Scan → List (Text × Text) → Turn
unfolding last_char store
look s table = elim (last_char s.value) [
  | none ↦ Turn.undefined
  | some c ↦
      store
        (record {
          name = s.name;
          value = s.value;
          have_name = s.have_name;
          have_value = s.have_value || not (c == comma);
        })
        table
]

unfoldable pub read_line : Text → Scan → List (Text × Text) → Turn
unfolding uncommented split_at strip all_blank look store
read_line raw s table =
    let line = uncommented raw in
    elim (split_at equals line) [
      | some p ↦
          look
            (record {
              name = strip is_blank p.0;
              value = strip is_quote (strip is_blank p.1);
              have_name = true;
              have_value = s.have_value;
            })
            table
      | none ↦
          if all_blank line
          then store s table
          else if s.have_name && not s.have_value
          then look
              (record {
                name = s.name;
                value = s.value ++ strip is_blank line;
                have_name = s.have_name;
                have_value = s.have_value;
              })
              table
          else Turn.bad
    ]

-- How the reading of the lines ends.
pub data Ended : Type 0 where
  finished : Ended
  bad_entry : ℕ → Ended
  undefined : Ended

-- The loop over the lines, from a line number on: the table and the end.
unfoldable pub read_lines : ℕ → Scan → List (Text × Text) → List Text → List (Text × Text) × Ended
unfolding read_line
read_lines n s table [] = (table, Ended.finished)
read_lines n s table (line ∷ lines) = elim (read_line line s table) [
  | Turn.next s' table' ↦ read_lines (suc n) s' table' lines
  | Turn.bad ↦ (table, Ended.bad_entry (suc n))
  | Turn.undefined ↦ (table, Ended.undefined)
]

abbrev pub blank_scan : Text → Scan
blank_scan name = record { name = name; value = []; have_name = false; have_value = false }

abbrev starts_with_slash : Text → Bool
starts_with_slash [] = false
starts_with_slash (c ∷ s) = c == slash

abbrev found_at : Text → Config → Config
found_at path c = record {
  table = c.table;
  no_config_loaded = c.no_config_loaded;
  had_to_search = c.had_to_search;
  path_where_found = path;
  abs_path = c.abs_path;
  cfg_filename = c.cfg_filename;
}

abbrev origin : Option Text → Text → Text
origin none old = old
origin (some d) old = d ++ slash ∷ []

-- The lines of the file, if it can be opened. A relative path replaces `_path_where_found` by the
-- working directory first, and the path is appended.
unfoldable pub check_for_file : World → Text → Text → Config → Config × Option (List Text)
check_for_file w path filename c =
    let whole = w.join path filename in
    elim (w.read whole) [
      | none ↦ (c, none)
      | some lines ↦ (
        found_at
            ((if starts_with_slash whole
                then c.path_where_found
                else origin w.cwd c.path_where_found)
              ++ whole)
            c,
        some lines,
      )
    ]

-- The search along the paths, as far as the first at which the file opens.
unfoldable pub search : World → List Text → Text → Config → Config × Option (List Text)
unfolding check_for_file
search w [] filename c = (c, none)
search w (path ∷ paths) filename c = elim ((check_for_file w path filename c).1) [
  | none ↦ search w paths filename c
  | some lines ↦ check_for_file w path filename c
]

-- How `load` ends: `no_file` is the `IOException`, `bad_entry` and `bad_parameter` the
-- `InvalidParamException` of the parser and of `setup_logger`.
pub data Outcome : Type 0 where
  loaded : Outcome
  no_file : Text → Outcome
  bad_entry : ℕ → Outcome
  bad_parameter : Text → Outcome
  undefined : Outcome

abbrev with_table : List (Text × Text) → Config → Config
with_table t c = record {
  table = t;
  no_config_loaded = false;
  had_to_search = c.had_to_search;
  path_where_found = c.path_where_found;
  abs_path = c.abs_path;
  cfg_filename = c.cfg_filename;
}

abbrev or_bad : Option Text → Outcome → Outcome
or_bad none e = e
or_bad (some k) e = Outcome.bad_parameter k

-- Where the file opens: the lines are read and the logger is set up, also after a bad entry.
unfoldable pub load_lines : World → List Text → Config → Config × List LogCall × Outcome
unfolding read_lines setup_logger
load_lines w lines c =
    let r = read_lines 0 (blank_scan []) c.table lines in
    let d = with_table r.0 c in
    let l = setup_logger w d in
    elim (r.1) [
      | Ended.finished ↦ (d, l.0, or_bad l.1 Outcome.loaded)
      | Ended.bad_entry n ↦ (d, l.0, or_bad l.1 (Outcome.bad_entry n))
      | Ended.undefined ↦ (d, [], Outcome.undefined)
    ]

abbrev begun : Bool → Text → Config → Config
begun had filename c = record {
  table = c.table;
  no_config_loaded = c.no_config_loaded;
  had_to_search = if starts_with_slash filename then false else had;
  path_where_found = c.path_where_found;
  abs_path = if starts_with_slash filename then filename else c.abs_path;
  cfg_filename = filename;
}

unfoldable pub load : World → Text → Bool → Config → Config × List LogCall × Outcome
unfolding reset check_for_file search load_lines
load w given reset_first c =
    let filename = if is_nil given then default_config_filename else given in
    let fresh = if reset_first then reset c else c in
    let start = begun fresh.had_to_search filename fresh in
    let opened =
      if starts_with_slash filename
      then check_for_file w [] filename start
      else search w (default_config_paths w.confdir) filename start in
    elim (opened.1) [
      | none ↦ (opened.0, [], Outcome.no_file filename)
      | some lines ↦ load_lines w lines opened.0
    ]
