-- ===== src/Logger/Files.antt =====
-- opencog/util/Logger.cc: `set_filename` and `get_filename`, with the table of the LogWriters that
-- all Loggers share.
use cogutil.Base.{
  ℕ, zero, suc, Bool, true, false, List, [], ◌∷◌, ◌++◌, Option, none, some, if◌then◌else◌, length,
  ◌≡◌, refl, sym, ◌∙◌, ◌⊎◌, inl, inr, Bool-cases, ap, subst, ◌↔◌,
}
use mathlib.Core.Option.{some-injective}
use cogutil.Config.Strings.{Text, same_text, same_text_eq, same_text_refl}
use package.cogutil.Logger.{Logger, enable}
use package.cogutil.Logger.Levels.{entry}

-- `_loggers`, and the file name of each LogWriter that was made, by its number.
pub record Registry : Type 0 where
  pub loggers : List (Text × ℕ)
  pub names : List Text

unfoldable pub at_name : Text → List (Text × ℕ) → Option ℕ
at_name f [] = none
at_name f ((k, w) ∷ t) = let rest = at_name f t in if same_text k f then some w else rest

abbrev pub switched : Option ℕ → Text → Registry → Registry × ℕ
switched (some w) fname g = (g, w)
switched none fname g =
    let n = length g.names in
    (record { loggers = (fname, n) ∷ g.loggers; names = g.names ++ fname ∷ [] }, n)

-- The table, and the Logger that has switched.
unfoldable pub set_filename : Text → Registry → Logger → Registry × Logger
unfolding at_name enable
set_filename fname g l =
    let found = switched (at_name fname g.loggers) fname g in
    (found.0, enable (record l { log_writer = some found.1 }))

abbrev bad : Text
bad = []

abbrev name_of : Option Text → Text
name_of none = bad
name_of (some f) = f

unfoldable pub get_filename : Registry → Logger → Text
unfolding entry
get_filename g l = elim l.log_writer [ none ↦ bad | some w ↦ name_of (entry w g.names) ]

-- The table has each LogWriter under its file name, and nothing else.
pub record OnePerFile (g : Registry) : Type 0 where
  pub named : (f : Text) (w : ℕ) → at_name f g.loggers ≡ some w → entry w g.names ≡ some f
  pub listed : (w : ℕ) (f : Text) → entry w g.names ≡ some f → at_name f g.loggers ≡ some w

entry-last : (fs : List Text) (f : Text) → entry (length fs) (fs ++ f ∷ []) ≡ some f
unfolding entry
entry-last [] f = refl
entry-last (x ∷ xs) f = entry-last xs f

entry-grown :
    (w : ℕ) (fs : List Text) (f g : Text) → entry w fs ≡ some f → entry w (fs ++ g ∷ []) ≡ some f
unfolding entry
entry-grown w [] f g h = cc
entry-grown zero (x ∷ xs) f g h = h
entry-grown (suc w) (x ∷ xs) f g h = entry-grown w xs f g h

entry-split :
    (w : ℕ) (fs : List Text) (f g : Text)
    → entry w (fs ++ g ∷ []) ≡ some f
    → (entry w fs ≡ some f) ⊎ ((w ≡ length fs) × (g ≡ f))
unfolding entry
entry-split zero [] f g h = inr (refl, cc)
entry-split (suc w) [] f g h = cc
entry-split zero (x ∷ xs) f g h = inl h
entry-split (suc w) (x ∷ xs) f g h = elim (entry-split w xs f g h) [
  | inl p ↦ inl p
  | inr (p, q) ↦ inr (ap suc p, q)
]

added-cases :
    (b : Bool) (n w : ℕ) (o : Option ℕ)
    → (if b then some n else o) ≡ some w
    → ((b ≡ true) × (n ≡ w)) ⊎ (o ≡ some w)
added-cases true n w o h = inl (refl, cc)
added-cases false n w o h = inr h

module _ (g : Registry) (one : OnePerFile g) (fname : Text) where
  found-named :
      (o : Option ℕ)
      → at_name fname g.loggers ≡ o
      → entry (switched o fname g).1 (switched o fname g).0.names ≡ some fname
  found-named (some w) e = one.named fname w e
  found-named none e = entry-last g.names fname

  named-added :
      at_name fname g.loggers ≡ none
      → (f : Text) (w : ℕ) → at_name f (switched none fname g).0.loggers ≡ some w
      → entry w (switched none fname g).0.names ≡ some f
  unfolding at_name
  named-added missing f w h =
      elim (added-cases (same_text fname f) (length g.names) w (at_name f g.loggers) h) [
        | inl (same, last) ↦
            subst (λ k. entry k (g.names ++ fname ∷ []) ≡ some f) last
              (entry-last g.names fname ∙ ap some (same_text_eq fname f same))
        | inr old ↦ entry-grown w g.names f fname (one.named f w old)
      ]

  listed-added :
      at_name fname g.loggers ≡ none
      → (w : ℕ) (f : Text) → entry w (switched none fname g).0.names ≡ some f
      → at_name f (switched none fname g).0.loggers ≡ some w
  unfolding at_name
  listed-added missing w f h = elim (entry-split w g.names f fname h) [
    | inl old ↦ elim (Bool-cases (same_text fname f)) [
      | inl same ↦
          cc
            (missing, ap (λ k. at_name k g.loggers) (same_text_eq fname f same), one.listed w f old)
      | inr other ↦ rw other (one.listed w f old)
    ]
    | inr (at, same) ↦
        rw (ap (same_text fname) (sym same) ∙ same_text_refl fname) (ap some (sym at))
  ]

  switched-OnePerFile :
      (o : Option ℕ) → at_name fname g.loggers ≡ o → OnePerFile (switched o fname g).0
  switched-OnePerFile (some w) e = one
  switched-OnePerFile none e = record { named = named-added e; listed = listed-added e }

module _ (g : Registry) (one : OnePerFile g) (fname : Text) (l : Logger) where
  set_filename-names :
      entry (switched (at_name fname g.loggers) fname g).1 (set_filename fname g l).0.names
      ≡ some fname
  unfolding set_filename
  set_filename-names = found-named g one fname (at_name fname g.loggers) refl

  switched-keeps :
      (o : Option ℕ) (w : ℕ) (f : Text)
      → entry w g.names ≡ some f
      → entry w (switched o fname g).0.names ≡ some f
  switched-keeps (some k) w f h = h
  switched-keeps none w f h = entry-grown w g.names f fname h

  set_filename-keeps :
      (w : ℕ) (f : Text)
      → entry w g.names ≡ some f
      → entry w (set_filename fname g l).0.names ≡ some f
  unfolding set_filename
  set_filename-keeps w f h = switched-keeps (at_name fname g.loggers) w f h

  set_filename-OnePerFile : OnePerFile (set_filename fname g l).0
  unfolding set_filename
  set_filename-OnePerFile = switched-OnePerFile g one fname (at_name fname g.loggers) refl

same_writer :
    (g : Registry) (f f' : Text) (w w' : ℕ)
    → OnePerFile g
    → entry w g.names ≡ some f
    → entry w' g.names ≡ some f'
    → (◌≡◌ {A = Option ℕ} (some w) (some w')) ↔ (f ≡ f')
same_writer g f f' w w' one h h' = (
  λ e. some-injective f f' (sym h ∙ ap (λ (k : ℕ). entry k g.names) (some-injective w w' e) ∙ h'),
  λ e. sym (one.listed w f h) ∙ ap (λ (k : Text). at_name k g.loggers) e ∙ one.listed w' f' h',
)

-- When the table has each LogWriter under its file name and nothing else, and two Loggers then set
-- a file name each, the table still has that, each Logger writes to the file that it has set, and
-- the two have the same LogWriter exactly when the names are the same.
pub set_filename_lem :
    (g : Registry) (f f' : Text) (l l' : Logger)
    → OnePerFile g
    → let one = set_filename f g l in
      let two = set_filename f' one.0 l' in
      OnePerFile two.0
      × (get_filename two.0 one.1 ≡ f)
      × (get_filename two.0 two.1 ≡ f')
      × ((one.1.log_writer ≡ two.1.log_writer) ↔ (f ≡ f'))
unfolding set_filename get_filename enable
set_filename_lem g f f' l l' one =
    let g1 = (set_filename f g l).0 in
    let w1 = (switched (at_name f g.loggers) f g).1 in
    let w2 = (switched (at_name f' g1.loggers) f' g1).1 in
    let one1 : OnePerFile g1 = set_filename-OnePerFile g one f l in
    let one2 : OnePerFile (set_filename f' g1 l').0 = set_filename-OnePerFile g1 one1 f' l' in
    let named1 = set_filename-keeps g1 one1 f' l' w1 f (set_filename-names g one f l) in
    let named2 = set_filename-names g1 one1 f' l' in
    (
      one2,
      ap name_of named1,
      ap name_of named2,
      same_writer (set_filename f' g1 l').0 f f' w1 w2 one2 named1 named2,
    )

pub no_files-OnePerFile : OnePerFile (record { loggers = []; names = [] })
unfolding at_name entry
no_files-OnePerFile = record { named = λ f w h. cc; listed = λ w f h. cc }
