-- ===== src/Instance/Stores.antt =====
-- maubot/instance.py: the databases of the instances, and `delete`.
use maubot.Base.{
  ⊤, ℕ, String, Bool, false, ◌&&◌, ◌||◌, not, Option, none, some, if◌then◌else◌, is_some,
}
use maubot.Base.Dict.{erase}
use maubot.Base.Exec.{Exec, runtime_error, raise, gets, attempt, modify, skip, when, ◌>>=◌, ◌>>◌}
use maubot.World.{World, Client, Instance, InstanceRow, Loader, PluginMeta, PluginClass}
use maubot.World.{InstDb, engine, proxy_postgres, sqlite_db}
use maubot.World.{DatabaseType, sqlalchemy, asyncpg, extension, DatabaseEngine, sqlite, postgres}
use maubot.World
use maubot.World.Env.{Env, ask}
use maubot.Loader.Files.{trash}
use maubot.Instance.{
  instance_at, modify_instance, engine_eq, update_db_engine, meta_of, remove_from_loader,
  remove_from_client, disable_webapp,
}

module _ (env : Env) where
  -- `start_database`
  abbrev set_db : ℕ → InstDb → Exec World ⊤
  set_db a d = modify_instance a (λ i. record i { inst_db = some d })

  abbrev start_legacy_database : ℕ → Option DatabaseEngine → Exec World ⊤
  start_legacy_database a none = do update_db_engine a sqlite; set_db a engine
  start_legacy_database a (some postgres) = raise runtime_error
  start_legacy_database a (some sqlite) = set_db a engine

  abbrev choose_engine : ℕ → Option DatabaseEngine → Exec World ⊤
  choose_engine a (some e) = skip
  choose_engine a none = do
    i ← instance_at a
    there ← gets (λ w. env.file_exists (env.sqlite_path i.id) w.trace)
    update_db_engine a (if there || not env.has_postgres then sqlite else postgres)

  start_async_database : ℕ → Bool → Exec World ⊤
  start_async_database a actually_start = do
    i ← instance_at a
    choose_engine a i.database_engine
    j ← instance_at a
    if engine_eq postgres j.database_engine
        then if not env.has_postgres then raise runtime_error else set_db a proxy_postgres
        else set_db a sqlite_db
    when actually_start (ask (World.db_start a) (env.db_start a))

  unfoldable pub start_database : ℕ → Bool → Exec World ⊤
  unfolding start_async_database
  start_database a actually_start = do
    i ← instance_at a
    meta ← meta_of env i.loader
    elim meta.database_type [
      | sqlalchemy ↦ start_legacy_database a i.database_engine
      | asyncpg ↦ start_async_database a actually_start
      | extension _ ↦ raise runtime_error
    ]

  -- `stop_database`; disposing of an engine leaves nothing to see
  unfoldable pub stop_database : ℕ → Exec World ⊤
  stop_database a = do
    i ← instance_at a
    elim i.inst_db [
      | none ↦ raise runtime_error
      | some engine ↦ skip
      | some proxy_postgres ↦ ask (World.db_stop a) (env.db_stop a)
      | some sqlite_db ↦ ask (World.db_stop a) (env.db_stop a)
    ]

  delete_async_database : ℕ → String → Exec World ⊤
  unfolding start_database
  delete_async_database a instance_id = do
    i ← instance_at a
    when (not (is_some i.inst_db)) (start_database a false)
    j ← instance_at a
    elim j.inst_db [
      | some proxy_postgres ↦ (do _ ← attempt (ask (World.db_delete a) (env.db_delete a)); skip)
      | _ ↦ trash env (env.sqlite_path instance_id) "deleted"
    ]

  -- `delete_database`
  unfoldable pub delete_database : ℕ → Exec World ⊤
  unfolding delete_async_database
  delete_database a = do
    i ← instance_at a
    meta ← meta_of env i.loader
    elim meta.database_type [
      | sqlalchemy ↦ trash env (env.sqlite_path i.id) "deleted"
      | asyncpg ↦ delete_async_database a i.id
      | extension _ ↦ raise runtime_error
    ]
    modify_instance a (λ o. record o { inst_db = none })

  -- `delete`; the last test asks for the truth of the web app object, a `Mapping` of aiohttp's
  unfoldable pub delete : ℕ → Exec World ⊤
  unfolding remove_from_loader remove_from_client stop_database delete_database disable_webapp
  delete a = do
    i ← instance_at a
    elim i.loader [ none ↦ skip | some l ↦ remove_from_loader env a l ]
    elim i.client [ none ↦ skip | some c ↦ remove_from_client env a c ]
    modify (λ w. record w { instance_cache = erase i.id w.instance_cache })
    modify (λ w. record w { instance_table = erase i.id w.instance_table })
    when (is_some i.inst_db) (do stop_database a; delete_database a)
    truth ← gets (λ w. env.webapp_truth w.trace)
    when (i.inst_webapp && truth) (disable_webapp env a)
