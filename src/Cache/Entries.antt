-- ===== src/Cache/Entries.antt =====
-- The `std::list` of arguments and the `std::unordered_map` keyed by iterators into it, as
-- opencog/util/lru_cache.h uses them. A node of the list has an identity, which its iterator
-- stands for, and its argument; hash and equality of the map look through the iterator.
pub mod Laws
use cogutil.Base.{
  ℕ, List, [], ◌∷◌, Option, none, some, ◌≡◌, ◌≢◌, ◌<◌, All, map, ◌==◌, if◌then◌else◌,
}
use mathlib.Core.Logic.{ite}

pub record Node {ℓ} (K : Type ℓ) : Type ℓ where
  pub id : ℕ
  pub key : K

abbrev pub Entry {ℓ} : Type ℓ → Type ℓ → Type ℓ
Entry K V = Node K × V

module _ {ℓ} {K V : Type ℓ} where
  abbrev pub nodes : List (Entry K V) → List (Node K)
  nodes = map (λ e. e.0)

  -- What a cache holds, as arguments and results.
  abbrev pub contents : List (Entry K V) → List (K × V)
  contents = map (λ e. (e.0.key, e.1))

module _ {ℓ} {K V : Type ℓ} (dec : Discrete K) where
  -- `_map.find(it)`: an entry whose node has the argument.
  unfoldable pub find : K → List (Entry K V) → Option (Entry K V)
  find k [] = none
  find k (e ∷ es) = ite (dec e.0.key k) (some e) (find k es)

  -- `_map.erase`, by the argument.
  unfoldable pub erase : K → List (Entry K V) → List (Entry K V)
  erase k [] = []
  erase k (e ∷ es) = ite (dec e.0.key k) es (e ∷ erase k es)

  -- No argument twice.
  abbrev pub Distinct : List (Entry K V) → Type ℓ
  Distinct [] = Unit
  Distinct (e ∷ es) = (find e.0.key es ≡ none) × Distinct es

module _ {ℓ} {K : Type ℓ} where
  -- `_lru.erase(it)`: the node that the iterator points to.
  unfoldable pub unlink : ℕ → List (Node K) → List (Node K)
  unlink i [] = []
  unlink i (n ∷ ns) = if n.id == i then ns else n ∷ unlink i ns

module _ {ℓ} {A : Type ℓ} where
  -- `--l.end()` and `l.pop_back()`.
  unfoldable pub get_last? : List A → Option A
  get_last? [] = none
  get_last? (x ∷ []) = some x
  get_last? (x ∷ y ∷ xs) = get_last? (y ∷ xs)

  unfoldable pub drop_last : List A → List A
  drop_last [] = []
  drop_last (x ∷ []) = []
  drop_last (x ∷ y ∷ xs) = x ∷ drop_last (y ∷ xs)

module _ {ℓ} {K V : Type ℓ} where
  -- No node of the entries has the identity.
  abbrev pub Unused : ℕ → List (Entry K V) → Type 0
  Unused i = All (λ e. e.0.id ≢ i)

  -- No identity twice, and all of them below a bound.
  abbrev pub IdsDistinct : List (Entry K V) → Type 0
  IdsDistinct [] = Unit
  IdsDistinct (e ∷ es) = Unused e.0.id es × IdsDistinct es

  abbrev pub IdsBelow : ℕ → List (Entry K V) → Type 0
  IdsBelow n = All (λ e. e.0.id < n)
