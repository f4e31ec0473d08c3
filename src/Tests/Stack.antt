-- ===== src/Tests/Stack.antt =====
-- Threads around one stack.
use cogutil.Base.{ℕ, [], ◌∷◌, ◌++◌, List}
use mathlib.Core.List.{Perm}
use cogutil.Concurrent.Stack
use cogutil.Concurrent.Stack.Lifo

abbrev lifo_calls : List (Lifo.Call ℕ)
lifo_calls = Lifo.Call.pushes 1 ∷ Lifo.Call.pushes 2 ∷ Lifo.Call.pops ∷ []

outputs-perm_example :
    Perm
      (Lifo.outputs lifo_calls Stack.create ++ (Lifo.run lifo_calls Stack.create).items)
      (Lifo.inputs lifo_calls Stack.create ++ Stack.create.items)
outputs-perm_example = Lifo.outputs-perm lifo_calls Stack.create
