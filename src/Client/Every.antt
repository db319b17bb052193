-- ===== src/Client/Every.antt =====
-- Client.all of maubot/client.py: an object for every row of the table.
use maubot.Base.{ℕ, String, none, some, List, [], ◌∷◌}
use maubot.Base.Dict.{Dict, lookup}
use maubot.Base.Exec.{Exec, pure, gets, ◌>>=◌, ◌>>◌}
use maubot.World.{World, ClientRow}
use maubot.World.Env.{Env}
use maubot.Client.{allocate, postinit}

module _ (env : Env) where
  -- One round of the loop: the object of the cache, or a new one.
  unfoldable pub object_of : String → ClientRow → Exec World ℕ
  object_of user_id r = do
    hit ← gets (λ w. lookup user_id w.client_cache)
    elim hit [ some a ↦ pure a | none ↦ (do a ← allocate env r; postinit env a; pure a) ]

  unfoldable pub all_of : Dict ClientRow → Exec World (List ℕ)
  unfolding object_of
  all_of [] = pure []
  all_of ((user_id, r) ∷ rows) = do a ← object_of user_id r; rest ← all_of rows; pure (a ∷ rest)

  -- `Client.all()`
  unfoldable pub all : Exec World (List ℕ)
  unfolding all_of
  all = do rows ← gets (λ w. w.client_table); all_of rows
