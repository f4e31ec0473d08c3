-- ===== src/Tests/Set.antt =====
-- One set, and threads around it.
use cogutil.Base.{
  ℕ, true, false, not, ◌&&◌, ◌||◌, [], ◌∷◌, List, ◌≡◌, refl, arith, is_nil, if◌then◌else◌,
}
use cogutil.Base.Order.{nat_less}
use cogutil.Concurrent.Chan.{returns, throws, waits, notify_one}
use cogutil.Concurrent.Monitor.{invoke, send_one, resume, start, schedule, Event}
use cogutil.Concurrent.Monitor.Wakeup.{IsIdle}
use cogutil.Concurrent.Set
use cogutil.Concurrent.Set.Order
use cogutil.Concurrent.Set.Wakeups
use cogutil.Sorted
use cogutil.Sorted.{same, member}

set_program : Unit {0}
unfolding schedule Set.create Wakeups.exec Set.insert Set.get Set.take_first Sorted.insert
set_program = tt

abbrev set_calls : List (Event (Order.Call ℕ))
set_calls =
    invoke Order.Call.gets
    ∷ invoke (Order.Call.inserts 7)
    ∷ send_one 0
    ∷ resume 0
    ∷ invoke Order.Call.gets
    ∷ []

no_lost_wakeup_on_set_example :
    IsIdle (schedule (Wakeups.set_no_barrier nat_less) set_calls (start Set.create)).chan
unfolding set_program
no_lost_wakeup_on_set_example =
    Wakeups.no_lost_wakeup_on_set nat_less set_calls (refl, refl, refl) (omega arith)

-- 2, 3 and 5 stay.
abbrev set_history : List (Order.Call ℕ)
set_history =
    Order.Call.inserts 3
    ∷ Order.Call.inserts 8
    ∷ Order.Call.inserts 2
    ∷ Order.Call.try_gets true
    ∷ Order.Call.inserts 5
    ∷ []

history_program : Unit {0}
unfolding set_program Order.run Order.step Set.try_get Set.take_last Sorted.insert
history_program = tt

history_reached : (Order.reached nat_less set_history).items ≡ 2 ∷ 3 ∷ 5 ∷ []
unfolding history_program
history_reached = refl

takes_lem_example :
    let c = Order.reached nat_less set_history in
    Order.Gets nat_less true c (Set.try_get true c)
    × (Set.get c
        ≡ (if c.is_canceled then throws else if is_nil c.items then waits else Set.try_get false c))
takes_lem_example = Order.takes_lem nat_less set_history true

insert_lem_example :
    let c = Order.reached nat_less set_history in
    let c' = Order.step nat_less (Order.Call.inserts 3) c in
    (Set.insert nat_less 3 c
      ≡ (if c.is_canceled then throws else returns (not (member nat_less 3 c.items)) c' notify_one))
    × ((a : ℕ)
        → member nat_less a c'.items
          ≡ ((not c.is_canceled && same nat_less a 3) || member nat_less a c.items))
insert_lem_example = Order.insert_lem nat_less set_history 3
