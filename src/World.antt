-- ===== src/World.antt =====
-- The shared state of the program: the objects of client.py, instance.py and loader/zip.py, which
-- refer to one another by address, the class-level caches, the tables of db/client.py and
-- db/instance.py, the plugin files, and what was asked of the outside world.
pub mod Env
pub mod Refs
pub mod Gather
pub mod Access
use maubot.Base.{ℕ, ◌∷◌, String, Bool, Option, List}
use maubot.Base.Dict.{Dict}
use maubot.World.Refs.{RefSet}

-- loader/meta.py. `ExtensibleEnum` lets a plugin name a type that maubot does not know.
pub data DatabaseType : Type 0 where
  sqlalchemy asyncpg : DatabaseType
  extension : String → DatabaseType

pub data DatabaseEngine : Type 0 where
  sqlite postgres : DatabaseEngine

pub record PluginMeta : Type 0 where
  pub id : String
  pub version : String
  pub modules : List String
  pub main_class : String
  pub maubot_version : String
  pub database : Bool
  pub database_type : DatabaseType
  pub webapp : Bool

-- The plugin's main class, as the loader and the instances use it.
pub record PluginClass : Type 0 where
  pub name : String
  pub has_config_class : Bool

-- What maubot registers with a Matrix client.
pub data Handler : Type 0 where
  invite tombstone sync_errored sync_successful : Handler
  otk_count device_lists to_device_encrypted room_key_request crypto_member : Handler
  plugin_handler : String → Handler

-- The state of a `MaubotMatrixClient` that maubot reads or writes.
pub record MatrixClient : Type 0 where
  pub base_url : Option String
  pub token : Option String
  pub device_id : Option String
  pub event_handlers : List Handler
  pub event_middleware : List Handler
  pub presence_online : Bool
  pub ignore_initial_sync : Bool
  pub ignore_first_sync : Bool
  pub syncing : Bool
  pub has_crypto : Bool

-- The columns of the table `client`.
pub record ClientRow : Type 0 where
  pub id : String
  pub homeserver : Option String
  pub access_token : Option String
  pub device_id : Option String
  pub enabled : Bool
  pub next_batch : String
  pub filter_id : String
  pub sync : Bool
  pub autojoin : Bool
  pub online : Bool
  pub displayname : String
  pub avatar_url : String

pub record Client : Type 0 where
  pub row : ClientRow
  pub open row use *
  pub postinited : Bool
  pub references : RefSet
  pub client : MatrixClient
  pub crypto : Bool
  pub started : Bool
  pub sync_ok : Bool
  pub remote_displayname : Option String
  pub remote_avatar_url : Option String
  pub trust_state : Option String

-- The columns of the table `instance`.
pub record InstanceRow : Type 0 where
  pub id : String
  pub type : String
  pub enabled : Bool
  pub primary_user : String
  pub config_str : String
  pub database_engine : Option DatabaseEngine

-- `inst_db`: an SQLAlchemy engine, a proxy of the Postgres pool, or another database.
pub data InstDb : Type 0 where
  engine proxy_postgres sqlite_db : InstDb

pub record Instance : Type 0 where
  pub row : InstanceRow
  pub open row use *
  pub loader : Option ℕ
  pub client : Option ℕ
  pub plugin : Option PluginClass
  pub inst_db : Option InstDb
  pub inst_db_tables : Option String
  pub inst_webapp : Bool
  pub base_cfg : Option String
  pub started : Bool

pub record Loader : Type 0 where
  pub path : Option String
  pub meta : Option PluginMeta
  pub main_class : Option String
  pub main_module : Option String
  pub loaded : Option PluginClass
  pub importer : Option String
  pub file : Option String
  pub references : RefSet

-- A task that was created and not awaited.
pub data Task : Type 0 where
  start_client : ℕ → ℕ → Task

-- The integers, for power levels.
pub data ℤ : Type 0 where
  pos negsuc : ℕ → ℤ

-- What was asked of code outside the repository, and of the plugins' own code.
pub data Call : Type 0 where
  versions whoami create_filter crypto_open crypto_delete crypto_load share_keys : Call
  crypto_device resolve_trust crypto_close get_profile : Call
  put_device_id : Option String → Call
  set_displayname set_avatar_url : String → Call
  is_joined join_room leave_room get_state : String → Call
  plugin_init plugin_start plugin_stop config_update : ℕ → Call
  db_start db_stop db_delete : ℕ → Call
  load_module : String → Call
  get_code find_module main_class : String → Call
  open_importer reset_cache remove_cache unload_modules : String → Call
  rename list_directory : String → Call

pub record World : Type 0 where
  pub clients : ℕ → Client
  pub next_client : ℕ
  pub client_cache : Dict ℕ
  pub client_table : Dict ClientRow
  pub instances : ℕ → Instance
  pub next_instance : ℕ
  pub instance_cache : Dict ℕ
  pub instance_table : Dict InstanceRow
  pub loaders : ℕ → Loader
  pub next_loader : ℕ
  pub id_cache : Dict ℕ
  pub path_cache : Dict ℕ
  pub files : Dict String
  pub plugin_routes : Dict (List String)
  pub trace : List Call
  pub tasks : List Task
