-- ===== src/Signals.antt =====
-- opencog/util/sigslot.h: the class SigSlot. A slot is a value of any type `F`, and `reenters` tells
-- which slots, when they are called, call connect, disconnect, disconnect_all or emit of the SigSlot.
pub mod Connected
use cogutil.Base.{
  ℕ, suc, Bool, true, false, List, [], ◌∷◌, ◌++◌, if◌then◌else◌, ltb, ◌==◌, length, is_nil,
}

-- The map, in the order of the numbers, and the last number that was given.
pub record SigSlot {ℓ} (F : Type ℓ) : Type ℓ where
  pub slots : List (ℕ × F)
  pub slot_id : ℕ

-- The slots that `emit` has called, and whether it hangs in the last of them.
pub record Emitted {ℓ} (F : Type ℓ) : Type ℓ where
  pub called : List F
  pub hangs : Bool

module _ {ℓ} {F : Type ℓ} where
  unfoldable pub create : SigSlot F
  create = record { slots = []; slot_id = 0 }

  -- `insert` of the map: a number that is there keeps its slot.
  unfoldable pub inserted : ℕ → F → List (ℕ × F) → List (ℕ × F)
  inserted k f [] = (k, f) ∷ []
  inserted k f ((j, g) ∷ t) =
      let rest = (j, g) ∷ inserted k f t in
      if ltb k j then (k, f) ∷ (j, g) ∷ t else if ltb j k then rest else (j, g) ∷ t

  -- `erase` of the map.
  unfoldable pub erased : ℕ → List (ℕ × F) → List (ℕ × F)
  erased k [] = []
  erased k ((j, g) ∷ t) = let rest = (j, g) ∷ erased k t in if j == k then t else rest

  -- The number is `slot_id` of what is left.
  unfoldable pub connect : F → SigSlot F → SigSlot F
  unfolding inserted
  connect f s = record { slots = inserted (suc s.slot_id) f s.slots; slot_id = suc s.slot_id }

  unfoldable pub disconnect : ℕ → SigSlot F → SigSlot F
  unfolding erased
  disconnect k s = record s { slots = erased k s.slots }

  unfoldable pub disconnect_all : SigSlot F → SigSlot F
  disconnect_all s = record s { slots = [] }

  unfoldable pub size : SigSlot F → ℕ
  size s = length s.slots

  -- The loop, under the lock of a mutex that is not recursive: a slot that asks for it waits for the
  -- thread that it runs in.
  unfoldable pub walk : (F → Bool) → List (ℕ × F) → Emitted F
  walk reenters [] = record { called = []; hangs = false }
  walk reenters ((k, f) ∷ t) =
      let rest = walk reenters t in
      if reenters f
      then record { called = f ∷ []; hangs = true }
      else record { called = f ∷ rest.called; hangs = rest.hangs }

  unfoldable pub emit : (F → Bool) → SigSlot F → Emitted F
  unfolding walk size
  emit reenters s =
      if size s == 0 then record { called = []; hangs = false } else walk reenters s.slots
