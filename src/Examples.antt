-- ===== src/Examples.antt =====
-- A small state of the program and an environment to run it in, and in the children the theorems
-- at this state.
pub mod Clients
pub mod Forwarding
pub mod Alone
pub mod Tools
pub mod Starting
pub mod Reading
pub mod Instances
pub mod Plugins
pub mod Commands
pub mod Access
pub mod Listening
pub mod Library
use maubot.Base.{
  if◌then◌else◌, ⊤, ℕ, String, Bool, true, false, Option, none, some, List, [], ◌∷◌, ◌==◌,
}
use maubot.Base.Exec.{Exc, Result, ok, err, connection_error}
use maubot.World.{
  World, Client, ClientRow, MatrixClient, Instance, InstanceRow, Loader, PluginMeta, PluginClass,
}
use maubot.World.{pos, invite, sync_errored, sync_successful, sqlite, asyncpg}
use maubot.World.Env.{Env, WhoAmI}

abbrev pub meta : PluginMeta
meta = record {
  id = "echo";
  version = "1.0.0";
  modules = "echo" ∷ [];
  main_class = "Echo";
  maubot_version = "0.1.0";
  database = false;
  database_type = asyncpg;
  webapp = false;
}

abbrev pub echo : PluginClass
echo = record { name = "Echo"; has_config_class = false }

abbrev pub client_row : Bool → ClientRow
client_row on = record {
  id = "@bot:hs";
  homeserver = some "https://hs";
  access_token = some "token";
  device_id = some "DEV";
  enabled = on;
  next_batch = "";
  filter_id = "";
  sync = true;
  autojoin = true;
  online = true;
  displayname = "disable";
  avatar_url = "disable";
}

abbrev pub matrix : MatrixClient
matrix = record {
  base_url = some "https://hs";
  token = some "token";
  device_id = some "DEV";
  event_handlers = invite ∷ sync_errored ∷ sync_successful ∷ [];
  event_middleware = [];
  presence_online = true;
  ignore_initial_sync = true;
  ignore_first_sync = true;
  syncing = false;
  has_crypto = false;
}

abbrev pub client : Bool → List (ℕ × ℕ) → Client
client on refs = record {
  row = client_row true;
  postinited = true;
  references = refs;
  client = matrix;
  crypto = false;
  started = on;
  sync_ok = true;
  remote_displayname = none;
  remote_avatar_url = none;
  trust_state = none;
}

abbrev pub instance_row : InstanceRow
instance_row = record {
  id = "one";
  type = "echo";
  enabled = true;
  primary_user = "@bot:hs";
  config_str = "";
  database_engine = some sqlite;
}

abbrev pub instance_with : Option ℕ → Option ℕ → Bool → Instance
instance_with loader user on = record {
  row = instance_row;
  loader = loader;
  client = user;
  plugin = none;
  inst_db = none;
  inst_db_tables = none;
  inst_webapp = false;
  base_cfg = none;
  started = on;
}

abbrev pub loader : List (ℕ × ℕ) → Loader
loader refs = record {
  path = some "plugins/echo.mbp";
  meta = some meta;
  main_class = some "Echo";
  main_module = some "echo";
  loaded = some echo;
  importer = none;
  file = some "archive";
  references = refs;
}

abbrev pub world : Client → Instance → Loader → World
world c i l = record {
  clients = λ a. c;
  next_client = 1;
  client_cache = ("@bot:hs", 0) ∷ [];
  client_table = ("@bot:hs", c.row) ∷ [];
  instances = λ a. i;
  next_instance = 1;
  instance_cache = ("one", 0) ∷ [];
  instance_table = ("one", i.row) ∷ [];
  loaders = λ a. l;
  next_loader = 1;
  id_cache = ("echo", 0) ∷ [];
  path_cache = ("plugins/echo.mbp", 0) ∷ [];
  files = ("plugins/echo.mbp", "archive") ∷ [];
  plugin_routes = [];
  trace = [];
  tasks = [];
}

-- A server that gives this answer to `whoami`, and plugins that start.
abbrev pub env : Result WhoAmI → Env
env who = record {
  versions = λ m t. ok tt;
  whoami = λ m t. who;
  create_filter = λ m t. ok "filter";
  set_displayname = λ m s t. ok tt;
  set_avatar_url = λ m s t. ok tt;
  get_profile = λ m t. err connection_error;
  default_presence = true;
  is_joined = λ r t. ok false;
  join_room = λ r t. ok r;
  leave_room = λ r t. ok tt;
  get_levels = λ r t. ok (record { user_level = λ u c. pos 0; invite = pos 50 });
  get_create = λ r t. ok "create";
  has_olm = false;
  has_crypto_db = false;
  olm_handlers = [];
  crypto_open = λ t. ok tt;
  crypto_device = λ t. ok none;
  crypto_delete = λ t. ok tt;
  crypto_load = λ t. ok true;
  put_device_id = λ t. ok tt;
  share_keys = λ t. ok tt;
  resolve_trust = λ t. ok none;
  crypto_close = λ t. ok tt;
  hash = λ s. if s == "one" then 1 else 2;
  plugin_init = λ i t. ok tt;
  plugin_start = λ i t. ok tt;
  plugin_stop = λ i t. ok tt;
  config_update = λ i t. ok tt;
  db_start = λ i t. ok tt;
  db_stop = λ i t. ok tt;
  db_delete = λ i t. ok tt;
  sqlite_path = λ s. s;
  file_exists = λ s t. false;
  has_postgres = false;
  plugin_base_path = "/_matrix/maubot/plugin/";
  webapp_truth = λ t. true;
  maubot_yaml = λ s. some (some "maubot.yaml");
  yaml_load = λ s. some s;
  deserialize = λ s. some meta;
  newer_than_maubot = λ s. false;
  lower = λ s. s;
  abspath = λ s. s;
  open_importer = λ s t. true;
  reset_cache = λ s t. true;
  trash_path = "trash";
  trash_name = λ s r t. "trash/old.mbp";
  rename_works = λ t. true;
  remove_works = λ path t. true;
  list_directory = λ s t. [];
  base_config = λ s. none;
  get_code = λ p m t. some ("Echo" ∷ []);
  has_module = λ p m t. true;
  load_module = λ p m t. ok tt;
  main_class = λ p c t. ok echo;
}

abbrev pub confirmed : WhoAmI
confirmed = record { user_id = "@bot:hs"; device_id = some "DEV" }
