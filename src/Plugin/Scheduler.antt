-- ===== src/Plugin/Scheduler.antt =====
-- The scheduler of a plugin (maubot/scheduler.py).
pub mod Cancelling
use maubot.Base.{
  if◌then◌else◌, ℕ, suc, List, [], ◌∷◌, ◌++◌, Bool, true, false, nat_eq, ◌||◌, Option, none, some,
}
use maubot.Base.Dict.{update}

-- BasicScheduler: `tasks`, and of every task that it has made whether it is done and whether `cancel`
-- was called on it.
pub record Sched : Type 0 where
  pub tasks : List ℕ
  pub next : ℕ
  pub done : ℕ → Bool
  pub cancelled : ℕ → Bool

unfoldable pub init : Sched
init = record { tasks = []; next = 0; done = λ t. false; cancelled = λ t. false }

-- asyncio.create_task with _register_task: run_later, run_periodically, and a subtask of the loop
unfoldable pub register_task : Sched → Sched
register_task s = record s {
  tasks = s.tasks ++ (s.next ∷ []);
  next = suc s.next;
  done = update s.done s.next false;
  cancelled = update s.cancelled s.next false;
}

-- self.tasks.discard
unfoldable pub discard : ℕ → List ℕ → List ℕ
discard t [] = []
discard t (u ∷ us) = let rest = discard t us in if nat_eq u t then rest else u ∷ rest

-- A task ends, and its done callback runs.
unfoldable pub finish : ℕ → Sched → Sched
unfolding discard
finish t s = record s { tasks = discard t s.tasks; done = update s.done t true }

unfoldable pub cancel_all : List ℕ → (ℕ → Bool) → ℕ → Bool
cancel_all [] f = f
cancel_all (t ∷ ts) f = update (cancel_all ts f) t true

-- BasicScheduler.stop
unfoldable pub stop : Sched → Sched
unfolding cancel_all
stop s = record s { cancelled = cancel_all s.tasks s.cancelled }

-- How one round of _call_periodically ends.
pub data Round : Type 0 where
  returns raises is_cancelled : Round

-- How the loop stands behind some rounds: it runs on, it raised an error, or it was cancelled.
pub data Loop : Type 0 where
  running raised stopped : Loop

-- _call_periodically, with the number of rounds that it began
unfoldable pub call_periodically : Bool → List Round → ℕ × Loop
call_periodically catch_errors [] = (0, running)
call_periodically catch_errors (is_cancelled ∷ rest) = (1, stopped)
call_periodically catch_errors (returns ∷ rest) =
    let (n, end) = call_periodically catch_errors rest in (suc n, end)
call_periodically catch_errors (raises ∷ rest) =
    let (n, end) = call_periodically catch_errors rest in
    if catch_errors then (suc n, end) else (1, raised)

-- _call_periodically_background, whose errors are always caught
unfoldable pub call_in_background : Round → Loop
call_in_background returns = running
call_in_background raises = running
call_in_background is_cancelled = stopped

-- _call_with_delay, behind its sleep
unfoldable pub call_with_delay : Bool → Round → Loop
call_with_delay catch_errors returns = running
call_with_delay catch_errors raises = if catch_errors then running else raised
call_with_delay catch_errors is_cancelled = stopped

pub data Step : Sched → Sched → Type 0 where
  registers : (s : Sched) → Step s (register_task s)
  finishes : (t : ℕ) (s : Sched) → Step s (finish t s)
  stops : (s : Sched) → Step s (stop s)

pub data Steps : Sched → Sched → Type 0 where
  stay : {s : Sched} → Steps s s
  then : {s t u : Sched} → Step s t → Steps t u → Steps s u
