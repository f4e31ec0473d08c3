-- ===== src/Cache/ArgResult.antt =====
-- `lru_cache_arg_result` of opencog/util/lru_cache.h: the caller looks for a result and inserts it.
-- The list of arguments and the map keyed by iterators are those of Cache/Entries.
pub mod Refine
pub mod Uses
use cogutil.Base.{
  ℕ, ◌+◌, Bool, List, [], ◌∷◌, Option, none, some, if◌then◌else◌, length, is_nil, ◌==◌,
}
use cogutil.Cache.Entries.{Node, Entry, erase, unlink, get_last?, drop_last}
use cogutil.Cache.Entries
use cogutil.Cache.Lru.{tail, erase_node}

-- `next` is the identity of the next list node.
pub record ArgResult {ℓ} (K V : Type ℓ) : Type ℓ where
  pub capacity : ℕ
  pub lru : List (Node K)
  pub map : List (Entry K V)
  pub next : ℕ

module _ {ℓ} {K V : Type ℓ} where
  unfoldable pub create : ℕ → ArgResult K V
  create n = record { capacity = n; lru = []; map = []; next = 0 }

  unfoldable pub full : ArgResult K V → Bool
  full c = length c.map == c.capacity

  unfoldable pub empty : ArgResult K V → Bool
  empty c = is_nil c.map

  unfoldable pub clear : ArgResult K V → ArgResult K V
  clear c = record c { lru = []; map = [] }

  abbrev pub push_front : K → ArgResult K V → ArgResult K V
  push_front x c = record c { lru = record { id = c.next; key = x } ∷ c.lru; next = c.next + 1 }

  -- The search has taken the argument off the list again; a node that is found moves to the front.
  unfoldable pub spliced : ArgResult K V → Option (Entry K V) → Option (Entry K V) × ArgResult K V
  spliced c none = (none, c)
  spliced c (some e) = (some e, record c { lru = e.0 ∷ unlink e.0.id c.lru })

  -- `is_cache_failure`, of what `find` returns.
  unfoldable pub is_cache_failure : Option (Entry K V) → Bool
  is_cache_failure none = Bool.true
  is_cache_failure (some e) = Bool.false

module _ {ℓ} {K V : Type ℓ} (dec : Discrete K) where
  unfoldable pub find : K → ArgResult K V → Option (Entry K V) × ArgResult K V
  unfolding spliced
  find x c =
      let pushed = push_front x c in
      let searched = record pushed { lru = tail pushed.lru } in
      spliced searched (Entries.find dec x c.map)

  -- `insert` of the map, which keeps what is there.
  abbrev pub added : Option (Entry K V) → Entry K V → List (Entry K V) → List (Entry K V)
  added none e es = e ∷ es
  added (some o) e es = es

  unfoldable pub insert_new : K → V → ArgResult K V → ArgResult K V
  unfolding full
  insert_new x y c =
      let pushed = push_front x c in
      let node : Node K = record { id = c.next; key = x } in
      let inserted = record pushed { map = added (Entries.find dec x c.map) (node, y) c.map } in
      if full inserted
      then record inserted {
        map = erase_node dec (get_last? inserted.lru) inserted.map;
        lru = drop_last inserted.lru;
      }
      else inserted
