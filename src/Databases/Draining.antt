-- ===== src/Databases/Draining.antt =====
-- Theorems on the connections of ProxyPostgresDatabase and on `stop` (maubot/lib/plugin_db.py).
use maubot.Base.{String, ◌+◌, ◌≡◌, true, ◌⊎◌}
use maubot.Base.Lists.{length, All}
use maubot.Databases.{Proxy, Returned, cancelled}

module _ (default_search_path schema : String) where
  -- A connection came back closed or with the default search_path, unless its reset was cancelled.
  abbrev pub IsReset : Returned → Type 0
  IsReset r =
      (r.is_closed ≡ true) ⊎ ((r.search_path ≡ default_search_path) ⊎ (r.outcome ≡ cancelled))

  -- Every pass of the semaphore is free, held or taken by `stop`, and what was given back was reset.
  record IsClean (s : Proxy) : Type 0 where
    passes : s.conn_sema + length s.held + s.drained ≡ s.max_conns
    given_back : All IsReset s.returned
