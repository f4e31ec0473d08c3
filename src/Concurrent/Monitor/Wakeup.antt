-- ===== src/Concurrent/Monitor/Wakeup.antt =====
-- The invariant of every schedule, for a monitor that keeps a few laws of its wakeups.
use cogutil.Base.{
  ℕ, zero, suc, ◌+◌, ◌≤◌, ◌<◌, Bool, true, false, List, [], ◌∷◌, ◌++◌, Option, none, some, ◌==◌,
  ◌≡◌, refl, ◌⊎◌, inl, inr, length, All, arith, Bool-cases,
}
use cogutil.Concurrent.Chan.{Chan, Outcome, returns, throws, waits}
use cogutil.Concurrent.Monitor.{
  Monitor, System, Event, invoke, resume, wake, send_one, send_all, pick, start, settle, rouse,
  notify, resumed, fire, schedule, ones_of, alls_of,
}

-- How a section may end, for a call that is allowed.
abbrev pub Fair {ℓ κ} :
    {A : Type ℓ} {C : Type κ} → (C → Bool) → C → Chan A → Outcome A (Unit {0}) → Type 0
Fair waiter k c (returns r c' g) =
    (length c'.items ≤ length c.items + ones_of g)
    × ((c'.is_canceled ≡ false) ⊎ ((c.is_canceled ≡ true) ⊎ (0 < alls_of g)))
    × ((waiter k ≡ false) ⊎ ((length c'.items ≡ 0) ⊎ (length c'.items + 1 ≤ length c.items)))
Fair waiter k c throws = c.is_canceled ≡ true
Fair waiter k c waits = (length c.items ≡ 0) × (c.is_canceled ≡ false) × (waiter k ≡ true)

-- The laws: an item more is announced, and so is a cancellation; only a waiter waits, and only
-- where there is no item; and a waiter that returns takes an item, or leaves none.
pub record Laws {ℓ κ} {A : Type ℓ} {C : Type κ} (m : Monitor A C) : Type (ℓ ⊔ κ) where
  pub waiter : C → Bool
  pub waiter_allowed : (k : C) → waiter k ≡ true → m.allowed k ≡ true
  pub fair : (k : C) (c : Chan A) → m.allowed k ≡ true → Fair waiter k c (m.exec k c)

-- While somebody sleeps, a `notify_all` is due, or there is a woken call or a due `notify_one` for
-- every item.
pub record Alert {ℓ κ} {A : Type ℓ} {C : Type κ} (waiter : C → Bool) (s : System A C) : Type 0 where
  pub covered :
      (length s.asleep ≡ 0)
      ⊎ ((0 < s.alls)
          ⊎ ((s.chan.is_canceled ≡ false) × (length s.chan.items ≤ length s.woken + s.ones)))
  pub sleepers : All (λ k. waiter k ≡ true) s.asleep
  pub risen : All (λ k. waiter k ≡ true) s.woken

-- Nothing is on its way: no woken call, and no notification that is due.
abbrev pub IsQuiet {ℓ κ} : {A : Type ℓ} {C : Type κ} → System A C → Type 0
IsQuiet s = (length s.woken ≡ 0) × (s.ones ≡ 0) × (s.alls ≡ 0)

-- No item, and not canceled.
abbrev pub IsIdle {ℓ} : {A : Type ℓ} → Chan A → Type 0
IsIdle c = (length c.items ≡ 0) × (c.is_canceled ≡ false)

module _ {κ} {C : Type κ} (waiter : C → Bool) where
  abbrev Waiting : List C → Type 0
  Waiting = All (λ k. waiter k ≡ true)

  -- What `pick` gives.
  abbrev Picked : List C → Option (C × List C) → Type 0
  Picked ks none = Unit {0}
  Picked ks (some (k, rest)) = (length ks ≡ suc (length rest)) × (waiter k ≡ true) × Waiting rest

  pick-Picked : (i : ℕ) (ks : List C) → Waiting ks → Picked ks (pick i ks)
  unfolding pick
  pick-Picked i [] w = tt
  pick-Picked zero (k ∷ ks) w = (refl, w.0, w.1)
  pick-Picked (suc i) (k ∷ ks) w = ground (arith, pick-Picked i ks w.1)

  Waiting-append : (xs ys : List C) → Waiting xs → Waiting ys → Waiting (xs ++ ys)
  Waiting-append [] ys p q = q
  Waiting-append (x ∷ xs) ys p q = (p.0, Waiting-append xs ys p.1 q)

module _ {ℓ κ} {A : Type ℓ} {C : Type κ} (m : Monitor A C) (laws : Laws m) where
  open laws use {waiter, waiter_allowed, fair}

  settle-Alert :
      (s : System A C) (k : C) (o : Outcome A (Unit {0}))
      → Fair waiter k s.chan o
      → Alert waiter s
      → Alert waiter (settle s k o)
  settle-Alert s k (returns r c g) f v = ground arith
  settle-Alert s k throws f v = v
  settle-Alert s k waits f v = ground arith

  resumed-Alert :
      (s : System A C) (rest : List C) (k : C) (o : Outcome A (Unit {0}))
      → Fair waiter k s.chan o
      → Alert waiter s
      → length s.woken ≡ suc (length rest)
      → waiter k ≡ true
      → Waiting waiter rest
      → Alert waiter (settle (record s { woken = rest }) k o)
  resumed-Alert s rest k (returns r c g) f v e t w = ground arith
  resumed-Alert s rest k throws f v e t w = ground arith
  resumed-Alert s rest k waits f v e t w = ground arith

  resume-Alert :
      (s : System A C) (p : Option (C × List C))
      → Picked waiter s.woken p
      → Alert waiter s
      → Alert waiter (resumed m s p)
  resume-Alert s none p v = v
  resume-Alert s (some (k, rest)) p v =
      resumed-Alert s rest k (m.exec k s.chan) (fair k s.chan (waiter_allowed k p.1)) v p.0 p.1 p.2

  rouse-Alert :
      (s : System A C) (p : Option (C × List C))
      → Picked waiter s.asleep p
      → Alert waiter s
      → Alert waiter (rouse s p)
  rouse-Alert s none p v = v
  rouse-Alert s (some (k, rest)) p v = ground arith

  notify-Alert :
      (s : System A C) (p : Option (C × List C))
      → Picked waiter s.asleep p
      → 0 < s.ones
      → Alert waiter s
      → Alert waiter (notify s p)
  notify-Alert s none p h v = ground arith
  notify-Alert s (some (k, rest)) p h v = ground arith

  fire-Alert : (e : Event C) (s : System A C) → Alert waiter s → Alert waiter (fire m e s)
  unfolding fire
  fire-Alert (invoke k) s v = elim (Bool-cases (m.allowed k)) [
    | inl yes' ↦ rw yes' (settle-Alert s k (m.exec k s.chan) (fair k s.chan yes') v)
    | inr no' ↦ rw no' v
  ]
  fire-Alert (resume i) s v =
      resume-Alert s (pick i s.woken) (pick-Picked waiter i s.woken v.risen) v
  fire-Alert (wake i) s v =
      rouse-Alert s (pick i s.asleep) (pick-Picked waiter i s.asleep v.sleepers) v
  fire-Alert (send_one i) s v = elim (Bool-cases (s.ones == 0)) [
    | inl none' ↦ rw none' v
    | inr due ↦ rw due (
        notify-Alert s (pick i s.asleep) (pick-Picked waiter i s.asleep v.sleepers) (ground arith)
          v)
  ]
  fire-Alert send_all s v =
      ground (arith, Waiting-append waiter s.asleep s.woken v.sleepers v.risen)

  pub schedule-Alert :
      (es : List (Event C)) (s : System A C) → Alert waiter s → Alert waiter (schedule m es s)
  unfolding schedule
  schedule-Alert [] s v = v
  schedule-Alert (e ∷ es) s v = schedule-Alert es (fire m e s) (fire-Alert e s v)

  pub quiescent_lem :
      (es : List (Event C)) (c : Chan A)
      → IsQuiet (schedule m es (start c))
      → 0 < length (schedule m es (start c)).asleep
      → IsIdle (schedule m es (start c)).chan
  quiescent_lem es c q h =
      let v =
        schedule-Alert es (start c) (record { covered = inl refl; sleepers = tt; risen = tt }) in
      ground arith
