-- ===== src/Standalone/Setup.antt =====
-- maubot/standalone/__main__.py, what runs when the module is loaded: the plugin's class, the
-- encryption store, the plugin's configuration, the web app and the requests to it.
use maubot.Base.{
  String, Bool, true, false, ◌&&◌, ◌||◌, Option, none, some, List, if◌then◌else◌, truthy,
}
use maubot.Base.Text.{before, after, begins_with, drop, size, last, mem}
use maubot.Standalone.{Failure, Outcome, Answer, gives, fails, done, exits, raised}

-- The module and the name of the plugin's class; `none` is the IndexError of no modules.
unfoldable pub find_class : String → List String → Option (String × String)
find_class main_class modules = elim (after b'/' main_class) [
  | some name ↦ some (before b'/' main_class, name)
  | none ↦ elim (last modules) [ none ↦ none | some module_name ↦ some (module_name, main_class) ]
]

-- Whether there is an encryption store: for a device id, where the dependencies are installed.
abbrev pub has_store : Option String → Bool → Bool
has_store device_id has_olm = truthy device_id && has_olm

-- `meta.config`, which a plugin of the older form leaves out.
unfoldable pub uses_config : Bool → List String → Bool
uses_config configured extra_files = configured || mem "base-config.yaml" extra_files

-- The plugin's configuration, if it has one; an exception of its class ends the program.
unfoldable pub load_config : {C : Type 0} → Bool → Answer C → Outcome (Option C)
load_config false loaded = done none
load_config true (gives config) = done (some config)
load_config true (fails Failure.interrupt) = raised Failure.interrupt
load_config true (fails e) = exits 1

-- _handle_plugin_request: the path that the plugin's web app sees; `none` is the answer 404.
unfoldable pub handle_plugin_request : String → String → Option String
handle_plugin_request web_base_path path =
    if begins_with path web_base_path then some (drop (size web_base_path) path) else none

-- PrefixResource(web_base_path) with raw_match, which decides what the handler is called for
unfoldable pub raw_match : String → String → Bool
raw_match prefix path = truthy (some path) && begins_with path prefix
