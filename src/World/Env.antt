-- ===== src/World/Env.antt =====
-- What the program calls and does not implement: the Matrix library and the homeservers, the
-- encryption library, zip and YAML readers, and the code of the plugins. Each answer may depend
-- on everything that was asked before.
use maubot.Base.{⊤, ℕ, String, Bool, Option, List}
use maubot.Base.Exec.{Exec, Result, ok}
use maubot.World.{ℤ, World, Call, MatrixClient, Handler, PluginMeta, PluginClass}
use maubot.Base.{◌∷◌}

pub record WhoAmI : Type 0 where
  pub user_id : String
  pub device_id : Option String

-- The power levels of a room: of a user, by what the event that created the room says, and for invites.
pub record Levels : Type 0 where
  pub user_level : String → String → ℤ
  pub invite : ℤ

pub record Env : Type 0 where
  -- mautrix.client
  pub versions : MatrixClient → List Call → Result ⊤
  pub whoami : MatrixClient → List Call → Result WhoAmI
  pub create_filter : MatrixClient → List Call → Result String
  pub set_displayname : MatrixClient → String → List Call → Result ⊤
  pub set_avatar_url : MatrixClient → String → List Call → Result ⊤
  pub get_profile : MatrixClient → List Call → Result (Option String × Option String)
  pub default_presence : Bool
  pub is_joined : String → List Call → Result Bool
  pub join_room : String → List Call → Result String
  pub leave_room : String → List Call → Result ⊤
  pub get_levels : String → List Call → Result Levels
  pub get_create : String → List Call → Result String
  -- mautrix.crypto
  pub has_olm : Bool
  pub has_crypto_db : Bool
  pub olm_handlers : List Handler
  pub crypto_open : List Call → Result ⊤
  pub crypto_device : List Call → Result (Option String)
  pub crypto_delete : List Call → Result ⊤
  pub crypto_load : List Call → Result Bool
  pub put_device_id : List Call → Result ⊤
  pub share_keys : List Call → Result ⊤
  pub resolve_trust : List Call → Result (Option String)
  pub crypto_close : List Call → Result ⊤
  -- `hash` of a text
  pub hash : String → ℕ
  -- plugins and their databases
  pub plugin_init : ℕ → List Call → Result ⊤
  pub plugin_start : ℕ → List Call → Result ⊤
  pub plugin_stop : ℕ → List Call → Result ⊤
  pub config_update : ℕ → List Call → Result ⊤
  pub db_start : ℕ → List Call → Result ⊤
  pub db_stop : ℕ → List Call → Result ⊤
  pub db_delete : ℕ → List Call → Result ⊤
  pub sqlite_path : String → String
  pub file_exists : String → List Call → Bool
  pub has_postgres : Bool
  -- config["server.plugin_base_path"]
  pub plugin_base_path : String
  -- `bool` of a `PluginWebApp`, as aiohttp's `UrlDispatcher` has it
  pub webapp_truth : List Call → Bool
  -- zip files
  pub maubot_yaml : String → Option (Option String)
  pub yaml_load : String → Option String
  pub deserialize : String → Option PluginMeta
  pub newer_than_maubot : String → Bool
  pub lower : String → String
  pub abspath : String → String
  pub open_importer : String → List Call → Bool
  pub reset_cache : String → List Call → Bool
  pub trash_path : String
  pub trash_name : String → String → List Call → String
  pub rename_works : List Call → Bool
  -- whether os.remove removes this file, which is there
  pub remove_works : String → List Call → Bool
  pub list_directory : String → List Call → List String
  pub base_config : String → Option String
  pub get_code : String → String → List Call → Option (List String)
  pub has_module : String → String → List Call → Bool
  pub load_module : String → String → List Call → Result ⊤
  pub main_class : String → String → List Call → Result PluginClass

-- One call: the answer, and its place in the record of calls.
abbrev pub ask : {A : Type 0} → Call → (List Call → Result A) → Exec World A
ask c f w = (f w.trace, record w { trace = c ∷ w.trace })

-- A call whose outcome is a plain value, and one that only leaves its trace.
abbrev pub ask_value : {A : Type 0} → Call → (List Call → A) → Exec World A
ask_value c f w = (ok (f w.trace), record w { trace = c ∷ w.trace })

abbrev pub tell : Call → Exec World ⊤
tell c w = (ok tt, record w { trace = c ∷ w.trace })
