-- ===== src/Instance.antt =====
-- maubot/instance.py: the objects of `class PluginInstance`, their lookup, loading of
-- dependencies and web apps. Databases and `delete` are in Instance/Stores, starting and stopping is in Instance/Lifecycle, the
-- `update_*` methods in Instance/Update.
pub mod Lifecycle
pub mod Update
pub mod Stopping
pub mod Renaming
pub mod Running
pub mod Links
pub mod Lookup
pub mod Failing
pub mod Starting
pub mod Switching
pub mod Homes
pub mod Deletion
pub mod Every
pub mod Stores
pub mod Introspection
use maubot.Base.{
  ⊤, ℕ, ◌+◌, String, Bool, true, false, ◌&&◌, ◌||◌, not, Option, none, some, List, [], ◌∷◌, ◌==◌,
  if◌then◌else◌, bool_eq, truthy, is_some, default,
}
use maubot.Base.Dict.{lookup, insert, erase, update, contains}
use maubot.Base.Exec.{
  Exec, Result, ok, err, key_error, runtime_error, other_error, pure, raise, gets, attempt, modify,
  skip, when, ◌>>=◌, ◌>>◌,
}
use maubot.World.{World, Client, Instance, InstanceRow, Loader, PluginMeta, PluginClass}
use maubot.World.{InstDb, engine, proxy_postgres, sqlite_db}
use maubot.World.{DatabaseType, sqlalchemy, asyncpg, extension, DatabaseEngine, sqlite, postgres}
use maubot.World
use maubot.World.Refs.{add, remove, RefSet}
use maubot.World.Env.{Env, ask, ask_value, tell}
use maubot.World.Access.{set_instance, save_instance, equal_to}
use maubot.Client
use maubot.Client.{modify_client}
use maubot.Loader.{modify_loader}
use maubot.Loader.Files.{trash}
use maubot.Server.{get_instance_subapp, remove_instance_webapp}

abbrev pub instance_at : ℕ → Exec World Instance
instance_at a = gets (λ w. w.instances a)

abbrev pub modify_instance : ℕ → (Instance → Instance) → Exec World ⊤
modify_instance a f = modify (λ w. set_instance a (f (w.instances a)) w)

-- `await self.update()`
abbrev pub save : ℕ → Exec World ⊤
save a = modify (save_instance a)

abbrev pub with_row : (InstanceRow → InstanceRow) → Instance → Instance
with_row f i = record i { row = f i.row }

abbrev pub engine_eq : DatabaseEngine → Option DatabaseEngine → Bool
engine_eq sqlite (some sqlite) = true
engine_eq postgres (some postgres) = true
engine_eq _ _ = false

-- `update_enabled`
unfoldable pub update_enabled : ℕ → Option Bool → Exec World ⊤
update_enabled a none = skip
update_enabled a (some b) = do
  i ← instance_at a
  if bool_eq b i.enabled
      then skip
      else do modify_instance a (with_row (λ r. record r { enabled = b })); save a

-- `update_db_engine`
unfoldable pub update_db_engine : ℕ → DatabaseEngine → Exec World ⊤
update_db_engine a e = do
  i ← instance_at a
  if engine_eq e i.database_engine
      then skip
      else do modify_instance a (with_row (λ r. record r { database_engine = some e })); save a

abbrev fresh_state : Instance → Instance
fresh_state i = record i {
  started = false;
  loader = none;
  client = none;
  plugin = none;
  inst_db = none;
  inst_db_tables = none;
  inst_webapp = false;
  base_cfg = none;
}

-- `postinit`
unfoldable pub postinit : ℕ → Exec World ⊤
postinit a = do
  i ← instance_at a
  modify (λ w. record w { instance_cache = insert i.id a w.instance_cache })
  modify_instance a fresh_state

abbrev new_object : InstanceRow → Instance
new_object r = record {
  row = r;
  loader = none;
  client = none;
  plugin = none;
  inst_db = none;
  inst_db_tables = none;
  inst_webapp = false;
  base_cfg = none;
  started = false;
}

abbrev allocate : InstanceRow → Exec World ℕ
allocate r w = (
  ok w.next_instance,
  record w {
    instances = update w.instances w.next_instance (new_object r);
    next_instance = w.next_instance + 1;
  },
)

abbrev new_row : String → String → String → InstanceRow
new_row instance_id type primary_user = record {
  id = instance_id;
  type = type;
  enabled = true;
  primary_user = primary_user;
  config_str = "";
  database_engine = none;
}

abbrev create : String → Option String → Option String → Exec World (Option ℕ)
create instance_id (some type) (some primary_user) =
    if truthy (some type) && truthy (some primary_user)
    then (do
      a ← allocate (new_row instance_id type primary_user)
      modify (λ w. record w {
        instance_table = insert instance_id (w.instances a).row w.instance_table;
      })
      postinit a
      pure (some a))
    else pure none
create instance_id _ _ = pure none

-- `PluginInstance.get(instance_id, type=…, primary_user=…)`
unfoldable pub get : String → Option String → Option String → Exec World (Option ℕ)
get instance_id type primary_user = do
  hit ← gets (λ w. lookup instance_id w.instance_cache)
  elim hit [
    | some a ↦ pure (some a)
    | none ↦ (do
      row ← gets (λ w. lookup instance_id w.instance_table)
      elim row [
        | some r ↦ (do a ← allocate r; postinit a; pure (some a))
        | none ↦ create instance_id type primary_user
      ])
  ]

module _ (env : Env) where
  -- `self.loader.references`, `self.client.references`
  abbrev pub hash_of : ℕ → World → ℕ
  hash_of a w = env.hash (w.instances a).id

  abbrev pub add_to_loader : ℕ → ℕ → Exec World ⊤
  add_to_loader a l = do
    h ← gets (hash_of a)
    objects ← gets (λ w. w.instances)
    modify_loader l (λ o. record o { references = add h a (equal_to a objects) o.references })

  abbrev pub add_to_client : ℕ → ℕ → Exec World ⊤
  add_to_client a c = do
    h ← gets (hash_of a)
    objects ← gets (λ w. w.instances)
    modify_client c (λ o. record o { references = add h a (equal_to a objects) o.references })

  unfoldable pub remove_from_loader : ℕ → ℕ → Exec World ⊤
  remove_from_loader a l = do
    h ← gets (hash_of a)
    left ← gets (λ w. remove h (equal_to a w.instances) (w.loaders l).references)
    elim left [
      | none ↦ raise key_error
      | some refs ↦ modify_loader l (λ o. record o { references = refs })
    ]

  unfoldable pub remove_from_client : ℕ → ℕ → Exec World ⊤
  remove_from_client a c = do
    h ← gets (hash_of a)
    left ← gets (λ w. remove h (equal_to a w.instances) (w.clients c).references)
    elim left [
      | none ↦ raise key_error
      | some refs ↦ modify_client c (λ o. record o { references = refs })
    ]

  -- `enable_webapp`, `disable_webapp`
  unfoldable pub enable_webapp : ℕ → Exec World ⊤
  enable_webapp a = do
    i ← instance_at a
    get_instance_subapp env i.id
    modify_instance a (λ o. record o { inst_webapp = true })

  unfoldable pub disable_webapp : ℕ → Exec World ⊤
  disable_webapp a = do
    i ← instance_at a
    remove_instance_webapp env i.id
    modify_instance a (λ o. record o { inst_webapp = false })

  -- `self.loader.meta`: reading a field of `None` raises AttributeError.
  abbrev pub meta_of : Option ℕ → Exec World PluginMeta
  meta_of none = raise other_error
  meta_of (some l) = do
    o ← gets (λ w. w.loaders l)
    elim o.meta [ none ↦ raise other_error | some meta ↦ pure meta ]

  -- The two lookups of `load`, each of which disables the instance where it fails.
  unfoldable pub find_loader : ℕ → Exec World Bool
  find_loader a = do
    i ← instance_at a
    elim i.loader [
      | some _ ↦ pure true
      | none ↦ (do
        hit ← gets (λ w. lookup i.type w.id_cache)
        elim hit [
          | none ↦ (do update_enabled a (some false); pure false)
          | some l ↦ (do modify_instance a (λ o. record o { loader = some l }); pure true)
        ])
    ]

  unfoldable pub find_client : ℕ → Exec World Bool
  find_client a = do
    i ← instance_at a
    elim i.client [
      | some _ ↦ pure true
      | none ↦ (do
        hit ← Client.get env i.primary_user none none none
        elim hit [
          | none ↦ (do update_enabled a (some false); pure false)
          | some c ↦ (do modify_instance a (λ o. record o { client = some c }); pure true)
        ])
    ]

  -- The end of `load`: the instance enters the sets of its loader and its client.
  unfoldable pub link : ℕ → Exec World ⊤
  link a = do
    i ← instance_at a
    meta ← meta_of i.loader
    when meta.webapp (enable_webapp a)
    elim i.loader [ none ↦ skip | some l ↦ add_to_loader a l ]
    elim i.client [ none ↦ skip | some c ↦ add_to_client a c ]

  -- `load`
  unfoldable pub load : ℕ → Exec World Bool
  load a = do
    has_loader ← find_loader a
    if not has_loader then pure false else do
      has_client ← find_client a
      if not has_client then pure false else do link a; pure true
