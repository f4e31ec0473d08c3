-- ===== src/Tests/Signals.antt =====
-- Slots that are connected, disconnected and called.
use cogutil.Base.{ℕ, true, false, List, [], ◌∷◌, ◌≡◌, refl, ◌==◌}
use cogutil.Signals
use cogutil.Signals.Connected.{Call, run, connected}
use cogutil.Signals.Connected

signal_program : Unit {0}
unfolding Signals.create Signals.inserted Signals.erased Signals.connect Signals.disconnect
    Signals.disconnect_all Signals.size Signals.walk Signals.emit Connected.called Connected.run
signal_program = tt

-- Three slots are connected, and the second one is disconnected.
abbrev calls : List (Call ℕ)
calls = Call.connects 5 ∷ Call.connects 6 ∷ Call.connects 7 ∷ Call.disconnects 2 ∷ []

emit_lem_example :
    (Signals.size (run calls Signals.create) ≡ 2)
    × (Signals.emit (λ f. f == 9) (run calls Signals.create)
        ≡ record { called = 5 ∷ 7 ∷ []; hangs = false })
unfolding signal_program
emit_lem_example = Connected.emit_lem calls (λ f. f == 9)

hangs_in_the_first :
    Signals.emit (λ f. f == 5) (run calls Signals.create) ≡ record { called = 5 ∷ []; hangs = true }
unfolding signal_program
hangs_in_the_first = refl
