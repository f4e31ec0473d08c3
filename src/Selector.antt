-- ===== src/Selector.antt =====
-- opencog/util/lazy_selector.h and lazy_selector.cc. `select`, which the classes that derive from
-- lazy_selector give, is an argument; `unsigned int` has 32 bits.
pub mod Fresh
pub mod Draws
use cogutil.Base.{
  ℕ, zero, suc, ◌+◌, ◌-◌, ◌%◌, Bool, true, false, not, ◌||◌, List, [], ◌∷◌, Option, none, some,
  ◌==◌, if◌then◌else◌, ltb, leb,
}

-- `_u`, `_l` and `_picked`.
pub record Selector : Type 0 where
  pub u : ℕ
  pub l : ℕ
  pub picked : List ℕ

-- The number that is selected, or a failed assertion, or a search that does not end.
pub data Pick : Type 0 where
  pick : ℕ → Selector → Pick
  failed diverges : Pick

abbrev pub word : ℕ
word = 4294967296

unfoldable pub create : ℕ → ℕ → Option Selector
create u l =
    if (u + word - l) % word == 0 then none else some (record { u = u; l = l; picked = [] })

unfoldable pub empty : Selector → Bool
empty s = leb s.u s.l

abbrev pub member : ℕ → List ℕ → Bool
member n [] = false
member n (m ∷ ms) = n == m || member n ms

unfoldable pub is_free : ℕ → Selector → Bool
is_free n s = not (member n s.picked)

-- The free numbers among the `n` numbers from `i` on.
unfoldable pub count_from : ℕ → ℕ → Selector → ℕ
unfolding is_free
count_from zero i s = 0
count_from (suc n) i s = (if is_free i s then 1 else 0) + count_from n (suc i) s

unfoldable pub count_n_free : Selector → ℕ
unfolding count_from
count_n_free s = count_from (s.u - s.l) s.l s

unfoldable pub reset_upper : ℕ → Selector → Selector
reset_upper new_u s = record s { u = new_u }

unfoldable pub reset_range : ℕ → ℕ → Selector → Option Selector
reset_range new_u new_l s = if leb s.l new_l then some (record s { u = new_u; l = new_l }) else none

-- `increase_l_till_free`: `_l` takes every value of its type in `word` rounds, so that a search
-- that has not ended by then does not end.
unfoldable pub till_free : ℕ → ℕ → List ℕ → Option ℕ
till_free zero l picked = none
till_free (suc fuel) l picked = elim (member ((l + 1) % word) picked) [
  | true ↦ till_free fuel ((l + 1) % word) picked
  | false ↦ some ((l + 1) % word)
]

abbrev pub chosen : ℕ → Selector → ℕ
chosen sel_idx s = if member sel_idx s.picked then s.l else sel_idx

abbrev pub raised : ℕ → Selector → Option ℕ → Pick
raised res s none = Pick.diverges
raised res s (some m) = Pick.pick res (record { u = s.u; l = m; picked = res ∷ s.picked })

-- `operator()`, where `select` gives `sel_idx`.
unfoldable pub call : ℕ → Selector → Pick
unfolding till_free empty
call sel_idx s =
    let res = chosen sel_idx s in
    if empty s
    then Pick.failed
    else if res == s.l
    then raised res s (till_free word s.l s.picked)
    else Pick.pick res (record { u = s.u; l = s.l; picked = res ∷ s.picked })
