-- ===== src/Signals/Connected.antt =====
-- Which slots a SigSlot calls, after any calls of its methods.
use cogutil.Base.{
  ℕ, suc, Bool, true, false, List, [], ◌∷◌, ◌++◌, if◌then◌else◌, ◌==◌, length, ◌≤◌, ◌<◌, ◌≡◌, refl,
  sym, ◌∙◌, ap, arith, Bool-cases, inl, inr, append-nil, append_assoc,
}
use package.cogutil.Signals.{
  SigSlot, Emitted, create, inserted, erased, connect, disconnect, disconnect_all, size, walk, emit,
}

pub data Call {ℓ} (F : Type ℓ) : Type ℓ where
  connects : F → Call F
  disconnects : ℕ → Call F
  disconnects_all : Call F

module _ {ℓ} {F : Type ℓ} where
  unfoldable pub called : Call F → SigSlot F → SigSlot F
  unfolding connect disconnect disconnect_all
  called (Call.connects f) s = connect f s
  called (Call.disconnects k) s = disconnect k s
  called Call.disconnects_all s = disconnect_all s

  unfoldable pub run : List (Call F) → SigSlot F → SigSlot F
  unfolding called
  run [] s = s
  run (c ∷ cs) s = run cs (called c s)

  -- Whether a slot with the number `k` is still connected after the calls.
  abbrev pub survives : ℕ → List (Call F) → Bool
  survives k [] = true
  survives k (Call.connects f ∷ cs) = survives k cs
  survives k (Call.disconnects j ∷ cs) = let rest = survives k cs in if k == j then false else rest
  survives k (Call.disconnects_all ∷ cs) = false

  -- The specification: the n-th slot connected has the number n, and is connected in the end if no
  -- later call disconnects that number, or all. In the order of connection.
  abbrev pub connected : ℕ → List (Call F) → List (ℕ × F)
  connected n [] = []
  connected n (Call.connects f ∷ cs) =
      let rest = connected (suc n) cs in if survives (suc n) cs then (suc n, f) ∷ rest else rest
  connected n (Call.disconnects j ∷ cs) = connected n cs
  connected n (Call.disconnects_all ∷ cs) = connected n cs

  -- What is left of a list of slots.
  abbrev pub left_of : List (ℕ × F) → List (Call F) → List (ℕ × F)
  left_of [] cs = []
  left_of ((k, f) ∷ t) cs = let rest = left_of t cs in if survives k cs then (k, f) ∷ rest else rest

  abbrev pub Ascending : ℕ → List (ℕ × F) → Type 0
  Ascending n [] = Unit
  Ascending n ((k, f) ∷ t) = (n < k) × Ascending k t

  abbrev pub UpTo : ℕ → List (ℕ × F) → Type 0
  UpTo n [] = Unit
  UpTo n ((k, f) ∷ t) = (k ≤ n) × UpTo n t

  inserted-last :
      (n : ℕ) (f : F) (t : List (ℕ × F)) → UpTo n t → inserted (suc n) f t ≡ t ++ (suc n, f) ∷ []
  unfolding inserted
  inserted-last n f [] h = refl
  inserted-last n f ((k, g) ∷ t) (le, h) = ground (arith, inserted-last n f t h)

  left_of-nil : (t : List (ℕ × F)) → left_of t [] ≡ t
  left_of-nil [] = refl
  left_of-nil ((k, f) ∷ t) = ap (λ u. (k, f) ∷ u) (left_of-nil t)

  left_of-connects :
      (f : F) (cs : List (Call F)) (t : List (ℕ × F))
      → left_of t (Call.connects f ∷ cs) ≡ left_of t cs
  left_of-connects f cs [] = refl
  left_of-connects f cs ((k, g) ∷ t) =
      ap (λ u. if survives k cs then (k, g) ∷ u else u) (left_of-connects f cs t)

  left_of-all : (cs : List (Call F)) (t : List (ℕ × F)) → left_of t (Call.disconnects_all ∷ cs) ≡ []
  left_of-all cs [] = refl
  left_of-all cs ((k, f) ∷ t) = left_of-all cs t

  left_of-append :
      (cs : List (Call F)) (t u : List (ℕ × F)) → left_of (t ++ u) cs ≡ left_of t cs ++ left_of u cs
  left_of-append cs [] u = refl
  left_of-append cs ((k, f) ∷ t) u = ground (arith, left_of-append cs t u)

  -- No number of the list is the one that is disconnected.
  left_of-above :
      (k m : ℕ) (cs : List (Call F)) (t : List (ℕ × F))
      → k ≤ m
      → Ascending m t
      → left_of t (Call.disconnects k ∷ cs) ≡ left_of t cs
  left_of-above k m cs [] le h = refl
  left_of-above k m cs ((j, f) ∷ t) le (lt, h) =
      ground (arith, left_of-above k j cs t (omega (arith, le, lt)) h)

  left_of-erased :
      (k m : ℕ) (cs : List (Call F)) (t : List (ℕ × F))
      → Ascending m t
      → left_of t (Call.disconnects k ∷ cs) ≡ left_of (erased k t) cs
  unfolding erased
  left_of-erased k m cs [] h = refl
  left_of-erased k m cs ((j, f) ∷ t) (lt, h) =
      ground (
        arith,
        left_of-erased k j cs t h,
        λ (e : j ≡ k). left_of-above k j cs t (omega (arith, e)) h,
      )

  Ascending-from : (m n : ℕ) (t : List (ℕ × F)) → m ≤ n → Ascending n t → Ascending m t
  Ascending-from m n [] le h = tt
  Ascending-from m n ((k, f) ∷ t) le (lt, h) = (omega (arith, le, lt), h)

  Ascending-erased : (k m : ℕ) (t : List (ℕ × F)) → Ascending m t → Ascending m (erased k t)
  unfolding erased
  Ascending-erased k m [] h = tt
  Ascending-erased k m ((j, f) ∷ t) (lt, h) = elim (Bool-cases (j == k)) [
    | inl same ↦ rw same (Ascending-from m j t (omega (arith, lt)) h)
    | inr other ↦ rw other (lt, Ascending-erased k j t h)
  ]

  Ascending-last :
      (m n : ℕ) (f : F) (t : List (ℕ × F))
      → m ≤ n
      → UpTo n t
      → Ascending m t
      → Ascending m (t ++ (suc n, f) ∷ [])
  Ascending-last m n f [] le up h = (omega (arith, le), tt)
  Ascending-last m n f ((k, g) ∷ t) le (top, up) (lt, h) = (lt, Ascending-last k n f t top up h)

  UpTo-erased : (k n : ℕ) (t : List (ℕ × F)) → UpTo n t → UpTo n (erased k t)
  unfolding erased
  UpTo-erased k n [] h = tt
  UpTo-erased k n ((j, f) ∷ t) (le, h) = elim (Bool-cases (j == k)) [
    | inl same ↦ rw same h
    | inr other ↦ rw other (le, UpTo-erased k n t h)
  ]

  UpTo-last : (n : ℕ) (f : F) (t : List (ℕ × F)) → UpTo n t → UpTo (suc n) (t ++ (suc n, f) ∷ [])
  UpTo-last n f [] h = (omega arith, tt)
  UpTo-last n f ((k, g) ∷ t) (le, h) = (omega (arith, le), UpTo-last n f t h)

  joined :
      (b : Bool) (p : ℕ × F) (xs ys : List (ℕ × F))
      → (xs ++ (if b then p ∷ [] else [])) ++ ys ≡ xs ++ (if b then p ∷ ys else ys)
  joined true p xs ys = append_assoc xs (p ∷ []) ys
  joined false p xs ys = ap (λ l. l ++ ys) (append-nil xs)

  run_lem :
      (cs : List (Call F)) (n : ℕ) (t : List (ℕ × F))
      → UpTo n t
      → Ascending 0 t
      → (run cs (record { slots = t; slot_id = n })).slots ≡ left_of t cs ++ connected n cs
  unfolding run called connect disconnect disconnect_all
  run_lem [] n t up asc = sym (left_of-nil t) ∙ sym (append-nil (left_of t []))
  run_lem (Call.connects f ∷ cs) n t up asc =
      let u = t ++ (suc n, f) ∷ [] in
      ap (λ l. (run cs (record { slots = l; slot_id = suc n })).slots) (inserted-last n f t up)
      ∙ run_lem cs (suc n) u (UpTo-last n f t up) (Ascending-last 0 n f t (omega arith) up asc)
      ∙ ap (λ l. l ++ connected (suc n) cs) (left_of-append cs t ((suc n, f) ∷ []))
      ∙ joined (survives (suc n) cs) (suc n, f) (left_of t cs) (connected (suc n) cs)
      ∙ ap (λ l. l ++ connected n (Call.connects f ∷ cs)) (sym (left_of-connects f cs t))
  run_lem (Call.disconnects k ∷ cs) n t up asc =
      run_lem cs n (erased k t) (UpTo-erased k n t up) (Ascending-erased k 0 t asc)
      ∙ ap (λ l. l ++ connected n cs) (sym (left_of-erased k 0 cs t asc))
  run_lem (Call.disconnects_all ∷ cs) n t up asc =
      run_lem cs n [] tt tt ∙ ap (λ l. l ++ connected n cs) (sym (left_of-all cs t))

  -- Whether some of the slots asks for the lock.
  abbrev pub any : (F → Bool) → List (ℕ × F) → Bool
  any reenters [] = false
  any reenters ((k, f) ∷ t) = let rest = any reenters t in if reenters f then true else rest

  -- The slots, in their order, as far as the first one that asks for the lock.
  abbrev pub until : (F → Bool) → List (ℕ × F) → List F
  until reenters [] = []
  until reenters ((k, f) ∷ t) =
      let rest = until reenters t in if reenters f then f ∷ [] else f ∷ rest

  walk_lem :
      (reenters : F → Bool) (t : List (ℕ × F))
      → walk reenters t ≡ record { called = until reenters t; hangs = any reenters t }
  unfolding walk
  walk_lem reenters [] = refl
  walk_lem reenters ((k, f) ∷ t) = elim (Bool-cases (reenters f)) [
    | inl y ↦ rw y refl
    | inr y ↦ rw y (
        ap (λ (r : Emitted F). record { called = f ∷ r.called; hangs = r.hangs })
          (walk_lem reenters t))
  ]

  emit-walk :
      (reenters : F → Bool) (t : List (ℕ × F)) (n : ℕ)
      → emit reenters (record { slots = t; slot_id = n }) ≡ walk reenters t
  unfolding emit size walk
  emit-walk reenters [] n = refl
  emit-walk reenters (e ∷ t) n = ground arith

  -- After any calls of connect, disconnect and disconnect_all on a new SigSlot, size counts the slots
  -- that are connected, the n-th connect having given the number n, and emit calls each of them once,
  -- in the order in which they were connected. It hangs exactly if one of them calls a method of the
  -- SigSlot that takes the lock, and then the slots up to the first such one have been called.
  pub emit_lem :
      (cs : List (Call F)) (reenters : F → Bool)
      → let s = run cs create in
        (size s ≡ length (connected 0 cs))
        × (emit reenters s ≡ record {
          called = until reenters (connected 0 cs);
          hangs = any reenters (connected 0 cs);
        })
  unfolding create size
  emit_lem cs reenters =
      let s = run cs create in
      let slots = run_lem cs 0 [] tt tt in
      (
        ap (λ (t : List (ℕ × F)). length t) slots,
        emit-walk reenters s.slots s.slot_id
            ∙ ap (walk reenters) slots
            ∙ walk_lem reenters (connected 0 cs),
      )
