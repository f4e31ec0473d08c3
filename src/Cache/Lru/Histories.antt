-- ===== src/Cache/Lru/Histories.antt =====
-- Whole histories of one `lru_cache`: calls, `remove`, `clear` and `resize` in any order.
use cogutil.Base.{
  ℕ, ◌-◌, ◌≤◌, List, [], ◌∷◌, Option, none, some, ◌≡◌, refl, arith, length, All, drop, sym, subst,
  ap, ◌∙◌, zero, suc, Bool-cases, Option-cases, inl, inr, ltb,
}
use mathlib.Core.Logic.{if_pos, if_neg}
use cogutil.Cache.Entries.{Entry, contents, erase, drop_last}
use cogutil.Cache.Lru.{Cache, Reply, value, raised, call, remove, clear, resize, create}
use cogutil.Cache.Lru.Ideal.{lookup, drop_key, ideal, missed, contents-erase}
use cogutil.Cache.Lru.Inv.{Inv, length-nodes}
use cogutil.Cache.Lru.Refine.{call-Meets}
use cogutil.Cache.Lru.Resize.{create-Inv, clear-Inv, remove-Inv, resize_lem}

pub data Op {ℓ} (K : Type ℓ) : Type ℓ where
  calls removes : K → Op K
  clears : Op K
  resizes : ℕ → Op K

-- What the function gives, as a reply: its result, or its exception.
abbrev pub reply_of {ℓ} : {V : Type ℓ} → Option V → Reply V
reply_of none = raised
reply_of (some v) = value v

module _ {ℓ} {K V : Type ℓ} (dec : Discrete K) (f : K → Option V) where
  abbrev or_same : Cache K V → Option (Cache K V) → Cache K V
  or_same c none = c
  or_same c (some c') = c'

  unfoldable pub apply : Op K → Cache K V → Cache K V
  apply (calls x) c = (call dec f x c).1
  apply (removes x) c = remove dec x c
  apply clears c = clear c
  apply (resizes n) c = or_same c (resize dec n c)

  unfoldable pub run : List (Op K) → Cache K V → Cache K V
  unfolding apply
  run [] c = c
  run (p ∷ ps) c = run ps (apply p c)

  -- Every result that is kept is what the function gives.
  abbrev pub AreTrue : List (K × V) → Type ℓ
  AreTrue = All (λ p. f p.0 ≡ some p.1)

  -- A state that some entries account for, all of them true.
  pub record Sound (c : Cache K V) : Type ℓ where
    pub es : List (Entry K V)
    pub inv : Inv dec c es
    pub are_true : AreTrue (contents es)

  pub lookup-AreTrue :
      (k : K) (a : List (K × V)) (v : V) → AreTrue a → lookup dec k a ≡ some v → f k ≡ some v
  unfolding lookup
  lookup-AreTrue k [] v t h = cc
  lookup-AreTrue k ((j, w) ∷ a) v t h = elim (dec j k) [
    | yes p ↦ subst (λ z. f z ≡ some v) p (t.0 ∙ (rw (if_pos _ p) at h))
    | no p ↦ lookup-AreTrue k a v t.1 (rw (if_neg _ p) at h)
  ]

  pub drop_key-AreTrue : (k : K) (a : List (K × V)) → AreTrue a → AreTrue (drop_key dec k a)
  unfolding drop_key
  drop_key-AreTrue k [] t = tt
  drop_key-AreTrue k ((j, w) ∷ a) t = elim (dec j k) [
    | yes p ↦ rw (if_pos _ p) t.1
    | no p ↦ rw (if_neg _ p) (t.0, drop_key-AreTrue k a t.1)
  ]

  drop_last-AreTrue : (a : List (K × V)) → AreTrue a → AreTrue (drop_last a)
  unfolding drop_last
  drop_last-AreTrue [] t = tt
  drop_last-AreTrue (p ∷ []) t = tt
  drop_last-AreTrue (p ∷ q ∷ a) t = (t.0, drop_last-AreTrue (q ∷ a) t.1)

  missed-AreTrue :
      (n : ℕ) (k : K) (a : List (K × V)) (r : Option V)
      → AreTrue a
      → f k ≡ r
      → ((missed n k a r).0 ≡ reply_of r) × AreTrue (missed n k a r).1
  missed-AreTrue n k a none t e = (refl, t)
  missed-AreTrue n k a (some v) t e = (
    refl,
    elim (Bool-cases (ltb n (suc (length a)))) [
      | inl more ↦ rw more (drop_last-AreTrue ((k, v) ∷ a) (e, t))
      | inr room ↦ rw room (e, t)
    ],
  )

  ideal-AreTrue :
      (n : ℕ) (k : K) (a : List (K × V))
      → AreTrue a
      → ((ideal dec n f k a).0 ≡ reply_of (f k)) × AreTrue (ideal dec n f k a).1
  unfolding ideal
  ideal-AreTrue n k a t = elim (Option-cases (lookup dec k a)) [
    | inl miss ↦ rw (miss, ideal) (missed-AreTrue n k a (f k) t refl)
    | inr (v, hit) ↦
        let known : f k ≡ some v = lookup-AreTrue k a v t hit in
        rw (hit, ideal) (ap reply_of (sym known), (known, drop_key-AreTrue k a t))
  ]

  pub contents-drop-AreTrue :
      (n : ℕ) (es : List (Entry K V)) → AreTrue (contents es) → AreTrue (contents (drop n es))
  contents-drop-AreTrue zero es t = t
  contents-drop-AreTrue (suc n) [] t = tt
  contents-drop-AreTrue (suc n) (e ∷ es) t = contents-drop-AreTrue n es t.1

  pub call-Sound :
      (x : K) (c : Cache K V)
      → Sound c
      → ((call dec f x c).0 ≡ reply_of (f x)) × Sound (call dec f x c).1
  call-Sound x c s =
      let m = call-Meets dec f x c s.es s.inv in
      let t = ideal-AreTrue c.capacity x (contents s.es) s.are_true in
      (m.reply ∙ t.0, record { es = m.es; inv = m.inv; are_true = rw m.holds t.1 })

  apply-Sound : (p : Op K) (c : Cache K V) → Sound c → Sound (apply p c)
  unfolding apply
  apply-Sound (calls x) c s = (call-Sound x c s).1
  apply-Sound (removes x) c s = record {
    es = erase dec x s.es;
    inv = remove-Inv dec x c s.es s.inv;
    are_true = rw (contents-erase dec x s.es) (drop_key-AreTrue x (contents s.es) s.are_true);
  }
  apply-Sound clears c s = record { es = []; inv = clear-Inv dec c s.es s.inv; are_true = tt }
  apply-Sound (resizes n) c s =
      let (c', done, i, size) = resize_lem dec n c s.es s.inv in
      rw done (record {
        es = drop (length s.es - n) s.es;
        inv = i;
        are_true = contents-drop-AreTrue (length s.es - n) s.es s.are_true;
      })

  run-Sound : (ps : List (Op K)) (c : Cache K V) → Sound c → Sound (run ps c)
  unfolding run
  run-Sound [] c s = s
  run-Sound (p ∷ ps) c s = run-Sound ps (apply p c) (apply-Sound p c s)

  -- The cache is transparent and bounded: after any history of calls, removals, clearings and
  -- resizings of a new cache of any size, a call gives what the function gives, its exception
  -- included, and the map and the list have one and the same size, at most the capacity.
  pub call-run :
      (n : ℕ) (ps : List (Op K)) (x : K)
      → let c = run ps (create n) in
        ((call dec f x c).0 ≡ reply_of (f x))
        × (length c.map ≤ c.capacity)
        × (length c.lru ≡ length c.map)
  call-run n ps x =
      let s = run-Sound ps (create n) (record { es = []; inv = create-Inv dec n; are_true = tt }) in
      (
        (call-Sound x (run ps (create n)) s).0,
        omega (arith, s.inv.sizes, s.inv.bounded),
        omega (arith, s.inv.sizes, ap length s.inv.order, length-nodes s.es),
      )
