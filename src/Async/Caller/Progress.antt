-- ===== src/Async/Caller/Progress.antt =====
-- How far one writer thread of an async_caller comes, when it alone moves.
use cogutil.Base.{
  ℕ, ◌+◌, ◌-◌, Bool, false, List, [], ◌∷◌, ◌++◌, ◌≡◌, refl, sym, ◌∙◌, arith, ◌≤◌, length,
  append_assoc, append-nil, ap,
}
use cogutil.Concurrent.Monitor.{pick}
use cogutil.Concurrent.Queue
use cogutil.Async.Caller.{Shared, Writer, Client, writer_step, client_step}
use cogutil.Async.Caller.Schedule.{System, Event, fire, run}

module _ {ℓ} {A : Type ℓ} where
  -- Five steps of the first writer thread for each item.
  abbrev pub turns : List A → List (Event A)
  turns [] = []
  turns (x ∷ xs) =
      Event.writes 0 ∷ Event.writes 0 ∷ Event.writes 0 ∷ Event.writes 0 ∷ Event.writes 0 ∷ turns xs

  -- What is left of the shared state when the first items are written.
  abbrev pub worked : List A → Shared A → Shared A
  worked [] s = s
  worked (x ∷ xs) s = worked xs (record s {
    queue = record { items = xs; is_canceled = false };
    busy = s.busy + 1 - 1;
    log = s.log ++ x ∷ [];
    pending = s.pending - 1;
  })

  run-turns :
      (xs : List A) (s : Shared A) (ts : List (Writer A)) (cs : List (Client A))
      → run (turns xs) (record {
        shared = record s { queue = record { items = xs; is_canceled = false } };
        writers = Writer.popping ∷ ts;
        clients = cs;
      })
        ≡ record {
          shared = worked xs (record s { queue = record { items = xs; is_canceled = false } });
          writers = Writer.popping ∷ ts;
          clients = cs;
        }
  unfolding run fire writer_step Queue.pop Queue.take_front pick
  run-turns [] s ts cs = refl
  run-turns (x ∷ xs) s ts cs =
      run-turns xs
        (record s { busy = s.busy + 1 - 1; log = s.log ++ x ∷ []; pending = s.pending - 1 }) ts cs

  worked_lem :
      (xs : List A) (s : Shared A)
      → ((worked xs s).log ≡ s.log ++ xs) × ((worked xs s).pending ≡ s.pending - length xs)
  worked_lem [] s = (sym (append-nil s.log), omega arith)
  worked_lem (x ∷ xs) s =
      let (logged, counted) = worked_lem xs (record s {
        queue = record { items = xs; is_canceled = false };
        busy = s.busy + 1 - 1;
        log = s.log ++ x ∷ [];
        pending = s.pending - 1;
      }) in
      (logged ∙ append_assoc s.log (x ∷ []) xs, omega (arith, counted))

  alone_lem :
      (s : System A) (ts : List (Writer A))
      → s.writers ≡ Writer.popping ∷ ts
      → s.shared.queue.is_canceled ≡ false
      → let items = s.shared.queue.items in
        run (turns items) s ≡ record {
          shared =
              worked items
                (record s.shared { queue = record { items = items; is_canceled = false } });
          writers = Writer.popping ∷ ts;
          clients = s.clients;
        }
  alone_lem s ts w q =
      let items = s.shared.queue.items in
      ap (λ ws. run (turns items) (record s { writers = ws })) w
      ∙ ap
          (λ b. run (turns items) (record {
            shared = record s.shared { queue = record { items = items; is_canceled = b } };
            writers = Writer.popping ∷ ts;
            clients = s.clients;
          }))
          q
      ∙ run-turns items s.shared ts s.clients

  passes_when_drained :
      (joined : Bool) (msec : ℕ) (s : Shared A)
      → s.pending ≡ 0
      → (client_step joined msec Client.barrier_waits s).0 ≡ Client.done
  unfolding client_step
  passes_when_drained joined msec s e = ground arith

  -- In any state in which the queue is not canceled, the first writer thread is at `value_pop`, and
  -- `_pending` counts no more than the queue holds, the first writer thread alone brings a `barrier`
  -- that waits to its end, in five steps for each element: it writes the queue in order.
  pub barrier_returns :
      (joined : Bool) (msec : ℕ) (s : System A) (ts : List (Writer A))
      → s.writers ≡ Writer.popping ∷ ts
      → s.shared.queue.is_canceled ≡ false
      → s.shared.pending ≤ length s.shared.queue.items
      → let s' = run (turns s.shared.queue.items) s in
        (s'.shared.log ≡ s.shared.log ++ s.shared.queue.items)
        × (s'.clients ≡ s.clients)
        × ((client_step joined msec Client.barrier_waits s'.shared).0 ≡ Client.done)
  barrier_returns joined msec s ts w q few =
      let items = s.shared.queue.items in
      let (logged, counted) =
        worked_lem items
          (record s.shared { queue = record { items = items; is_canceled = false } }) in
      let end = alone_lem s ts w q in
      (
        ap (λ z. z.shared.log) end ∙ logged,
        ap (λ z. z.clients) end,
        passes_when_drained joined msec (run (turns items) s).shared
            (ap (λ z. z.shared.pending) end ∙ counted ∙ omega (arith, few)),
      )
