-- ===== src/Cache/ArgResult/Uses.antt =====
-- Sequences of calls of `lru_cache_arg_result`.
use cogutil.Base.{
  ℕ, suc, ◌≤◌, List, [], ◌∷◌, Option, none, some, length, ◌≡◌, refl, ◌∙◌, subst, arith,
}
use cogutil.Cache.Entries.{Entry}
use cogutil.Cache.Entries
use cogutil.Cache.Lru.Ideal.{lookup}
use package.cogutil.Cache.ArgResult.{ArgResult, create, find, insert_new, clear, spliced}
use package.cogutil.Cache.ArgResult.Refine.{
  Holds, after_search, after_insertion, value_of, find-Holds, find-value, insert_new-Holds,
}

pub data Use {ℓ} (K V : Type ℓ) : Type ℓ where
  finds : K → Use K V
  inserts : K → V → Use K V
  clears : Use K V

module _ {ℓ} {K V : Type ℓ} (dec : Discrete K) where
  unfoldable pub applied : Use K V → ArgResult K V → ArgResult K V
  unfolding find insert_new clear
  applied (Use.finds x) c = (find dec x c).1
  applied (Use.inserts x y) c = insert_new dec x y c
  applied Use.clears c = clear c

  unfoldable pub run : List (Use K V) → ArgResult K V → ArgResult K V
  unfolding applied
  run [] c = c
  run (u ∷ us) c = run us (applied u c)

  -- The specification: a list of arguments and results, the most recently used first, of at most
  -- `n`.
  abbrev pub ideal_use : ℕ → Use K V → List (K × V) → List (K × V)
  ideal_use n (Use.finds x) a = after_search dec x a (lookup dec x a)
  ideal_use n (Use.inserts x y) a = after_insertion dec n x y a
  ideal_use n Use.clears a = []

  abbrev pub ideal_uses : ℕ → List (Use K V) → List (K × V) → List (K × V)
  ideal_uses n [] a = a
  ideal_uses n (u ∷ us) a = ideal_uses n us (ideal_use n u a)

  abbrev pub IsNew : Use K V → List (K × V) → Type ℓ
  IsNew (Use.finds x) a = Unit
  IsNew (Use.inserts x y) a = lookup dec x a ≡ none
  IsNew Use.clears a = Unit

  -- What is inserted is never there, as the class demands.
  abbrev pub OnlyNew : ℕ → List (Use K V) → List (K × V) → Type ℓ
  OnlyNew n [] a = Unit
  OnlyNew n (u ∷ us) a = IsNew u a × OnlyNew n us (ideal_use n u a)

  capacity-spliced :
      (c : ArgResult K V) (o : Option (Entry K V)) → (spliced c o).1.capacity ≡ c.capacity
  unfolding spliced
  capacity-spliced c none = refl
  capacity-spliced c (some e) = refl

  capacity-applied : (u : Use K V) (c : ArgResult K V) → (applied u c).capacity ≡ c.capacity
  unfolding applied insert_new find clear
  capacity-applied (Use.finds x) c =
      capacity-spliced (record c { next = _ }) (Entries.find dec x c.map)
  capacity-applied (Use.inserts x y) c = ground arith
  capacity-applied Use.clears c = refl

  none_held : (c : ArgResult K V) → Holds dec (clear c) []
  unfolding clear Entries.find
  none_held c = record {
    es = [];
    are = refl;
    inv = record {
      order = refl;
      agrees = λ k. refl;
      sizes = refl;
      bounded = omega arith;
      distinct = tt;
      unique = tt;
      ids = tt;
      fresh = tt;
    };
  }

  applied-Holds :
      (n : ℕ) (u : Use K V) (c : ArgResult K V) (a : List (K × V))
      → c.capacity ≡ suc n
      → IsNew u a
      → Holds dec c a
      → Holds dec (applied u c) (ideal_use n u a)
  unfolding applied
  applied-Holds n (Use.finds x) c a e new h = find-Holds dec x c a h
  applied-Holds n (Use.inserts x y) c a e new h =
      subst (λ (k : ℕ). Holds dec (insert_new dec x y c) (after_insertion dec k x y a))
        (omega (arith, e)) (insert_new-Holds dec x y c a (omega (arith, e)) h new)
  applied-Holds n Use.clears c a e new h = none_held c

  run-Holds :
      (n : ℕ) (us : List (Use K V)) (c : ArgResult K V) (a : List (K × V))
      → c.capacity ≡ suc n
      → OnlyNew n us a
      → Holds dec c a
      → Holds dec (run us c) (ideal_uses n us a) × ((run us c).capacity ≡ suc n)
  unfolding run
  run-Holds n [] c a e new h = (h, e)
  run-Holds n (u ∷ us) c a e new h =
      run-Holds n us (applied u c) (ideal_use n u a) (capacity-applied u c ∙ e) new.1
        (applied-Holds n u c a e new.0 h)

  -- After any calls of a new lru_cache_arg_result of size n + 1 that insert only arguments which are
  -- not there, find gives what an ideal least-recently-used cache of size n holds, and the cache
  -- keeps at most n results: one less than its size.
  pub uses_lem :
      (n : ℕ) (us : List (Use K V)) (x : K)
      → OnlyNew n us []
      → let c = run us (create (suc n)) in
        (value_of dec (find dec x c).0 ≡ lookup dec x (ideal_uses n us [])) × (length c.map ≤ n)
  unfolding create clear
  uses_lem n us x new =
      let c = run us (create (suc n)) in
      let (held, size) = run-Holds n us (create (suc n)) [] refl new (none_held (create (suc n))) in
      (
        find-value dec x c (ideal_uses n us []) held,
        omega (arith, held.inv.sizes, held.inv.bounded, size),
      )
