-- ===== src/Client/Retries.antt =====
-- The retries of `start`, as the event loop runs the tasks that were left behind.
use maubot.Base.{ℕ, zero, suc, ◌+◌, ◌≡◌, ◌≢◌, inl, inr, true, false, List, [], ◌∷◌, arith, ap}
use maubot.Base.Exec.{err, Exc, invalid_token}
use maubot.World.{World, Task, start_client}
use maubot.World.Env.{Env}
use maubot.Client.Lifecycle.{start, ask_whoami}
use maubot.Client.Failures.{HasRow, IsDisabled, start_unreachable}

module _ (env : Env) where
  abbrev run_task : List Task → World → World
  run_task [] w = w
  run_task (start_client a n ∷ ts) w = (start env a n (record w { tasks = ts })).1

  -- The next task, a number of times.
  unfoldable pub run_tasks : ℕ → World → World
  run_tasks zero w = w
  run_tasks (suc k) w = run_tasks k (run_task w.tasks w)

  run_tasks-cons :
      (k a n : ℕ) (ts : List Task) (w : World)
      → w.tasks ≡ start_client a n ∷ ts
      → run_tasks (suc k) w ≡ run_tasks k (start env a n (record w { tasks = ts })).1
  unfolding run_tasks
  run_tasks-cons k a n ts w e = ap (λ l. run_tasks k (run_task l w)) e

  -- The server does not answer, ever.
  abbrev pub Unreachable : ℕ → Type 0
  Unreachable a = (w : World) → (x : Exc) × (x ≢ invalid_token) × ((ask_whoami env a w).0 ≡ err x)

  -- A client that waits for its start and has a row.
  abbrev pub Waits : ℕ → World → Type 0
  Waits a w = ((w.clients a).enabled ≡ true) × ((w.clients a).started ≡ false) × HasRow a w

  Waits-same :
      (a : ℕ) (w w₂ : World)
      → w₂.clients ≡ w.clients
      → w₂.client_table ≡ w.client_table
      → Waits a w
      → Waits a w₂
  Waits-same a w w₂ same rows h = rw (same, rows) h

  -- Of a client that is enabled, stopped and has a row, and whose server never answers: the start with
  -- the try number n, and after it 8 - n tasks of the event loop, leave the client disabled in memory
  -- and in its row, stopped, and the tasks those from before the start.
  pub gives_up_from :
      (k n a : ℕ) (w : World)
      → n + k ≡ 8
      → Unreachable a
      → Waits a w
      → IsDisabled a w (run_tasks k (start env a n w).1)
  unfolding run_tasks
  gives_up_from zero n a w e dead (on, idle, row) =
      let (x, ne, failed) = dead w in
      elim (start_unreachable env a n w on idle x ne row failed) [
        | inl p ↦ p.1
        | inr p ↦ absurd (omega (arith, p.0))
      ]
  gives_up_from (suc k) n a w e dead (on, idle, row) =
      let (x, ne, failed) = dead w in
      elim (start_unreachable env a n w on idle x ne row failed) [
        | inl p ↦ absurd (omega (arith, p.0))
        | inr (early, same, rows, queued) ↦
            let w₂ : World = record ((start env a n w).1) { tasks = w.tasks } in
            rw (run_tasks-cons k a (n + 1) w.tasks (start env a n w).1 queued) (
              gives_up_from k (n + 1) a w₂ (omega arith) dead
                (Waits-same a w w₂ same rows (on, idle, row)))
      ]
