-- ===== src/Client/Lifecycle.antt =====
-- `start`, `stop` and `update_started` of maubot/client.py.
use maubot.Base.{
  ⊤, ℕ, ◌+◌, Bool, true, false, ◌&&◌, not, Option, none, some, ◌∷◌, ◌==◌, leb, if◌then◌else◌,
  truthy, opt_eq, bool_eq,
}
use maubot.Base.Exec.{
  Exec, Result, ok, err, invalid_token, gets, attempt, modify, skip, when, ◌>>=◌, ◌>>◌,
}
use maubot.World.{World, Client, Instance, start_client}
use maubot.World
use maubot.World.Env.{Env, WhoAmI, ask}
use maubot.World.Gather.{gather, select}
use maubot.Client.{
  client_at, modify_client, save, start_sync, stop_sync, start_crypto, update_remote_profile,
}
use maubot.Client.Update.{set_enabled}
use maubot.Instance.Lifecycle.{start as start_instance, stop as stop_instance}

-- `self.enabled = False; await self.update()`
abbrev pub disable : ℕ → Exec World ⊤
disable a = do modify_client a (set_enabled false); save a

-- The devices differ, and both sides name one.
abbrev pub device_differs : WhoAmI → Client → Bool
device_differs w c =
    truthy w.device_id && truthy c.device_id && not (opt_eq w.device_id c.device_id)

module _ (env : Env) where
  -- `start_plugins`, `stop_plugins`
  unfoldable pub start_plugins : ℕ → Exec World ⊤
  start_plugins a = do c ← client_at a; gather (start_instance env) c.references

  unfoldable pub stop_plugins : ℕ → Exec World ⊤
  stop_plugins a = do
    refs ← gets (λ w. select (λ i. (w.instances i).started) (w.clients a).references)
    gather (stop_instance env) refs

  -- The filter is created once.
  unfoldable pub ensure_filter : ℕ → Exec World ⊤
  ensure_filter a = do
    c ← client_at a
    if not (c.filter_id == "") then skip else do
      filter_id ← ask World.create_filter (env.create_filter c.client)
      modify_client a (λ o. record o { row = record (o.row) { filter_id = filter_id } })
      save a

  unfoldable pub push_profile : ℕ → Exec World ⊤
  push_profile a = do
    c ← client_at a
    when (not (c.displayname == "disable"))
        (ask (World.set_displayname c.displayname) (env.set_displayname c.client c.displayname))
    when (not (c.avatar_url == "disable"))
        (ask (World.set_avatar_url c.avatar_url) (env.set_avatar_url c.client c.avatar_url))

  -- `_start`, from where the server has confirmed the identity
  unfoldable pub start_confirmed : ℕ → Exec World ⊤
  unfolding ensure_filter push_profile
  start_confirmed a = do
    ensure_filter a
    push_profile a
    c ← client_at a
    when c.crypto (start_crypto env a)
    start_sync a
    update_remote_profile env a
    modify_client a (λ o. record o { started = true })
    start_plugins a

  -- What `_start` does with the answer to `whoami`.
  unfoldable pub check_whoami : ℕ → ℕ → Result WhoAmI → Exec World ⊤
  check_whoami a try_n (err invalid_token) = disable a
  check_whoami a try_n (err _) =
      if leb 8 try_n
      then disable a
      else modify (λ w. record w { tasks = start_client a (try_n + 1) ∷ w.tasks })
  check_whoami a try_n (ok who) = do
    c ← client_at a
    if not (who.user_id == c.id)
        then disable a
        else if device_differs who c
        then disable a
        else start_confirmed a

  unfoldable pub ask_whoami : ℕ → Exec World WhoAmI
  ask_whoami a = do
    c ← client_at a
    ask World.versions (env.versions c.client)
    ask World.whoami (env.whoami c.client)

  -- `_start`
  unfoldable pub start_inner : ℕ → ℕ → Exec World ⊤
  unfolding check_whoami
  start_inner a try_n = do
    c ← client_at a
    if not c.enabled
        then skip
        else if c.started
        then skip
        else do who ← attempt (ask_whoami a); check_whoami a try_n who

  -- `start`: whatever `_start` raises is logged. The sleep before a retry only takes time.
  unfoldable pub start : ℕ → ℕ → Exec World ⊤
  unfolding start_inner
  start a try_n = do _ ← attempt (start_inner a try_n); skip

  -- `stop`
  unfoldable pub stop : ℕ → Exec World ⊤
  stop a = do
    c ← client_at a
    if not c.started then skip else do
      modify_client a (λ o. record o { started = false })
      stop_plugins a
      stop_sync a
      when c.crypto (ask World.crypto_close env.crypto_close)

  -- `update_started`
  unfoldable pub update_started : ℕ → Option Bool → Exec World ⊤
  update_started a none = skip
  update_started a (some b) = do
    c ← client_at a
    if bool_eq b c.started then skip else if b then start a 0 else stop a
