-- ===== src/World/Gather.antt =====
-- `asyncio.gather` of the plugin instances in a set: its tasks run one after another here, and
-- the first exception is raised when all have run.
use maubot.Base.{⊤, ℕ, Bool, [], ◌∷◌, if◌then◌else◌}
use maubot.Base.Exec.{Exec, Result, ok, err, attempt, reraise, skip, ◌>>=◌}
use maubot.World.{World}
use maubot.World.Refs.{RefSet}

-- The exception that `gather` raises: the first.
abbrev pub first_error : Result ⊤ → Result ⊤ → Result ⊤
first_error (ok _) r = r
first_error (err e) _ = err e

-- `asyncio.gather(*[f(x) for x in references])`
unfoldable pub gather : (ℕ → Exec World ⊤) → RefSet → Exec World ⊤
gather f [] = skip
gather f ((h, i) ∷ refs) = do
  r ← attempt (f i)
  rest ← attempt (gather f refs)
  reraise (first_error r rest)

-- `[x for x in references if test(x)]`, which is made before any task runs
unfoldable pub select : (ℕ → Bool) → RefSet → RefSet
select test [] = []
select test ((h, i) ∷ refs) = let rest = select test refs in if test i then (h, i) ∷ rest else rest
