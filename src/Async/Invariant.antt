-- ===== src/Async/Invariant.antt =====
-- An invariant of what threads share, with sums over all threads in it, is kept by the steps of all
-- threads if it is kept by each step with the sums over the others left open.
use cogutil.Base.{ℕ, ◌+◌, List, ◌∷◌, some, ◌≡◌, arith, subst}
use cogutil.Concurrent.Monitor.{pick}
use cogutil.Async.Threads.{total, total-pick}

-- Three measures of the writer threads and of the others, and the invariant.
pub record Measures {ℓ} (W C S : Type ℓ) : Type (ℓ ⊔ 1) where
  pub writer_flight : W → ℕ
  pub client_flight : C → ℕ
  pub writer_holds : W → ℕ
  pub client_holds : C → ℕ
  pub writer_weight : W → ℕ
  pub client_weight : C → ℕ
  pub Holds : S → ℕ → ℕ → ℕ → Type 0

module _ {ℓ} {W C S : Type ℓ} (m : Measures W C S) where
  open m use {
    writer_flight, client_flight, writer_holds, client_holds, writer_weight, client_weight, Holds,
  }

  abbrev pub AllHold : S → List W → List C → Type 0
  AllHold s ws cs =
      Holds s (total writer_flight ws + total client_flight cs)
        (total writer_holds ws + total client_holds cs)
        (total writer_weight ws + total client_weight cs)

  Holds-eq : (s : S) {f g h k r q : ℕ} → f ≡ g → h ≡ k → r ≡ q → Holds s f h r → Holds s g k q
  Holds-eq s {f} {g} {h} {k} {r} {q} e d c v =
      subst (λ a. Holds s a k q) e (subst (λ a. Holds s f a q) d (subst (λ a. Holds s f h a) c v))

  -- What a single step of a thread keeps, whatever the others count for.
  abbrev pub WriterKeeps : (W → S → W × S) → Type ℓ
  WriterKeeps step =
      (t : W) (s : S) (f h r : ℕ)
      → Holds s (writer_flight t + f) (writer_holds t + h) (writer_weight t + r)
      → Holds (step t s).1 (writer_flight (step t s).0 + f) (writer_holds (step t s).0 + h)
          (writer_weight (step t s).0 + r)

  abbrev pub ClientKeeps : (C → S → C × S) → Type ℓ
  ClientKeeps step =
      (t : C) (s : S) (f h r : ℕ)
      → Holds s (client_flight t + f) (client_holds t + h) (client_weight t + r)
      → Holds (step t s).1 (client_flight (step t s).0 + f) (client_holds (step t s).0 + h)
          (client_weight (step t s).0 + r)

  module _ (s : S) (ws : List W) (cs : List C) (i : ℕ) where
    pub writer_keeps :
        (step : W → S → W × S) (t : W) (rest : List W)
        → WriterKeeps step
        → pick i ws ≡ some (t, rest)
        → AllHold s ws cs
        → AllHold (step t s).1 ((step t s).0 ∷ rest) cs
    writer_keeps step t rest keeps e v =
        let before : Holds s (writer_flight t + (total writer_flight rest + total client_flight cs))
            (writer_holds t + (total writer_holds rest + total client_holds cs))
            (writer_weight t + (total writer_weight rest + total client_weight cs)) =
          Holds-eq s (omega (arith, total-pick writer_flight i ws t rest e))
            (omega (arith, total-pick writer_holds i ws t rest e))
            (omega (arith, total-pick writer_weight i ws t rest e)) v in
        Holds-eq (step t s).1 (omega arith) (omega arith) (omega arith) (
          keeps t s (total writer_flight rest + total client_flight cs)
            (total writer_holds rest + total client_holds cs)
            (total writer_weight rest + total client_weight cs) before)

    pub client_keeps :
        (step : C → S → C × S) (t : C) (rest : List C)
        → ClientKeeps step
        → pick i cs ≡ some (t, rest)
        → AllHold s ws cs
        → AllHold (step t s).1 ws ((step t s).0 ∷ rest)
    client_keeps step t rest keeps e v =
        let before : Holds s (client_flight t + (total writer_flight ws + total client_flight rest))
            (client_holds t + (total writer_holds ws + total client_holds rest))
            (client_weight t + (total writer_weight ws + total client_weight rest)) =
          Holds-eq s (omega (arith, total-pick client_flight i cs t rest e))
            (omega (arith, total-pick client_holds i cs t rest e))
            (omega (arith, total-pick client_weight i cs t rest e)) v in
        Holds-eq (step t s).1 (omega arith) (omega arith) (omega arith) (
          keeps t s (total writer_flight ws + total client_flight rest)
            (total writer_holds ws + total client_holds rest)
            (total writer_weight ws + total client_weight rest) before)

    -- A writer thread that changes its place, and none of the measures.
    pub writer_turns :
        (t t' : W) (rest : List W)
        → writer_flight t' ≡ writer_flight t
        → writer_holds t' ≡ writer_holds t
        → writer_weight t' ≡ writer_weight t
        → pick i ws ≡ some (t, rest)
        → AllHold s ws cs
        → AllHold s (t' ∷ rest) cs
    writer_turns t t' rest f h r e v =
        Holds-eq s (omega (arith, f, total-pick writer_flight i ws t rest e))
          (omega (arith, h, total-pick writer_holds i ws t rest e))
          (omega (arith, r, total-pick writer_weight i ws t rest e)) v
