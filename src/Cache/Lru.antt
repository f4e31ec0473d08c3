-- ===== src/Cache/Lru.antt =====
-- `lru_cache` of opencog/util/lru_cache.h. The cached function is a parameter, `none` where it
-- throws. Iterators and the map keyed by them are those of Cache/Entries.antt; where the map keeps
-- a new entry is of no effect, since its arguments differ.
pub mod Ideal
pub mod Inv
pub mod Refine
pub mod Resize
pub mod Histories
use cogutil.Base.{
  ℕ, zero, suc, ◌+◌, Bool, true, false, List, [], ◌∷◌, Option, none, some, if◌then◌else◌, length,
  is_nil, ltb, leb, ◌==◌,
}
use cogutil.Cache.Entries.{Node, Entry, find, erase, unlink, get_last?, drop_last}

-- `raised`: the cached function threw, and the exception goes on. `failed`: an `OC_ASSERT`.
pub data Reply {ℓ} (V : Type ℓ) : Type ℓ where
  value : V → Reply V
  raised failed : Reply V

-- `next` is the identity of the next list node.
pub record Cache {ℓ} (K V : Type ℓ) : Type ℓ where
  pub capacity : ℕ
  pub lru : List (Node K)
  pub map : List (Entry K V)
  pub next : ℕ
  pub hits : ℕ
  pub misses : ℕ

module _ {ℓ} {A : Type ℓ} where
  abbrev pub tail : List A → List A
  tail [] = []
  tail (x ∷ xs) = xs

module _ {ℓ} {K V : Type ℓ} where
  unfoldable pub create : ℕ → Cache K V
  create n = record { capacity = n; lru = []; map = []; next = 0; hits = 0; misses = 0 }

  unfoldable pub full : Cache K V → Bool
  full c = length c.map == c.capacity

  unfoldable pub empty : Cache K V → Bool
  empty c = is_nil c.map

  -- `_lru.push_front(x)`.
  abbrev pub new_node : K → Cache K V → Node K
  new_node x c = record { id = c.next; key = x }

  abbrev pub push_front : K → Cache K V → Cache K V
  push_front x c = record c { lru = new_node x c ∷ c.lru; next = c.next + 1 }

  -- `_lru.pop_front()`.
  abbrev pub pop_front : Cache K V → Cache K V
  pop_front c = record c { lru = tail c.lru }

  -- `ifx_f` and the insertion, once the argument is in front of the list: the miss is counted; if
  -- the function throws, the argument is taken off again.
  unfoldable pub insert_call : (K → Option V) → K → Node K → Cache K V → Option V × Cache K V
  insert_call f x node c = elim (f x) [
    | none ↦ (none, pop_front (record c { misses = c.misses + 1 }))
    | some v ↦ (some v, record c { map = (node, v) ∷ c.map; misses = c.misses + 1 })
  ]

  -- `if_f`: the miss is counted, and nothing is kept.
  unfoldable pub call_only : (K → Option V) → K → Cache K V → Reply V × Cache K V
  call_only f x c = elim (f x) [
    | none ↦ (raised, record c { misses = c.misses + 1 })
    | some v ↦ (value v, record c { misses = c.misses + 1 })
  ]

  unfoldable pub clear : Cache K V → Cache K V
  clear c = record c { lru = []; map = [] }

  -- The two assertions before the result is returned.
  unfoldable pub checked : V → Cache K V → Reply V × Cache K V
  checked v c =
      if leb (length c.map) c.capacity
      then if length c.lru == length c.map then (value v, c) else (failed, c)
      else (failed, c)

  abbrev pub replied : Option V × Cache K V → Reply V × Cache K V
  replied (none, c) = (raised, c)
  replied (some v, c) = (value v, c)

module _ {ℓ} {K V : Type ℓ} (dec : Discrete K) where
  -- `remove` looks the argument up by a temporary node in front of the list.
  unfoldable pub remove_found : Cache K V → Option (Entry K V) → Cache K V
  remove_found c none = c
  remove_found c (some (n, v)) = record c { lru = unlink n.id c.lru; map = erase dec n.key c.map }

  unfoldable pub remove : K → Cache K V → Cache K V
  unfolding remove_found
  remove x c = pop_front (remove_found (push_front x c) (find dec x c.map))

  -- `_map.erase(--_lru.end()); _lru.pop_back();`
  abbrev pub erase_node : Option (Node K) → List (Entry K V) → List (Entry K V)
  erase_node none es = es
  erase_node (some n) es = erase dec n.key es

  unfoldable pub evict : Cache K V → Cache K V
  evict c =
      if ltb c.capacity (length c.map)
      then record c { map = erase_node (get_last? c.lru) c.map; lru = drop_last c.lru }
      else c

  abbrev pub evicted : Option V × Cache K V → Reply V × Cache K V
  evicted (none, c) = (raised, c)
  evicted (some v, c) = checked v (evict c)

  -- The search with the argument in front of the list: on a hit it comes off again, and the node
  -- that is found moves to the front.
  unfoldable pub search_call :
      (K → Option V) → K → Node K → Cache K V → Option (Entry K V) → Reply V × Cache K V
  unfolding insert_call evict checked
  search_call f x node c none = evicted (insert_call f x node c)
  search_call f x node c (some (n, v)) =
      (value v, record c { lru = n ∷ unlink n.id (tail c.lru); hits = c.hits + 1 })

  -- `operator()`.
  unfoldable pub call : (K → Option V) → K → Cache K V → Reply V × Cache K V
  unfolding search_call insert_call call_only full empty
  call f x c =
      let node = new_node x c in
      let pushed = push_front x c in
      if empty c
      then if full c then call_only f x c else replied (insert_call f x node pushed)
      else search_call f x node pushed (find dec x c.map)

  -- `resize`: the node in front of the list goes until the map is small enough. `none` is the
  -- assertion that its argument is in the map.
  unfoldable pub shrink_found : Cache K V → Option (Entry K V) → Option (Cache K V)
  shrink_found c none = none
  shrink_found c (some (n, v)) =
      some (record c { lru = unlink n.id c.lru; map = erase dec n.key c.map })

  abbrev pub front_found : Cache K V → List (Node K) → Option (Entry K V)
  front_found c [] = none
  front_found c (n ∷ ns) = find dec n.key c.map

  unfoldable pub shrink : ℕ → Cache K V → Option (Cache K V)
  unfolding shrink_found
  shrink zero c = some c
  shrink (suc fuel) c =
      if ltb c.capacity (length c.map)
      then elim (shrink_found c (front_found c c.lru)) [ none ↦ none | some c' ↦ shrink fuel c' ]
      else some c

  -- `none` is a failed assertion. Each round takes one entry, so the size is fuel enough.
  unfoldable pub resize : ℕ → Cache K V → Option (Cache K V)
  unfolding shrink
  resize n c = elim (shrink (length c.map) (record c { capacity = n })) [
    | none ↦ none
    | some c' ↦ if length c'.lru == length c'.map then some c' else none
  ]
