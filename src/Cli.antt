-- ===== src/Cli.antt =====
-- maubot/cli: the command-line tools. This file has the stored servers and tokens (config.py) and
-- the two commands that read and write them (login of commands/login.py, with_authenticated_http of
-- cliq/cliq.py); Cli/Prompts has the questions that a command asks, Cli/Build the command build.
pub mod Prompts
pub mod Build
pub mod Accounts
pub mod Asking
pub mod Excuses
pub mod Overwriting
use maubot.Base.{
  [], String, ◌==◌, Bool, true, false, not, Option, none, some, ℕ, nat_eq, if◌then◌else◌, default,
  truthy,
}
use maubot.Base.Dict.{Dict, lookup, insert}

pub record Config : Type 0 where
  pub servers : Dict String
  pub aliases : Dict String
  pub default_server : Option String

-- `_get_token` and `_resolve_alias`
unfoldable pub saved_token : Config → String → Option String
saved_token c server = lookup server c.servers

unfoldable pub resolve_alias : Config → String → Option String
resolve_alias c alias = lookup alias c.aliases

-- The server and its token.
unfoldable pub get_default_server : Config → Option String × Option String
unfolding saved_token
get_default_server c = elim c.default_server [
  | none ↦ (none, none)
  | some server ↦ (some server, saved_token c server)
]

unfoldable pub get_token : Config → Option String → Option String × Option String
unfolding get_default_server saved_token
get_token c none = get_default_server c
get_token c (some server) =
    let known = default server (lookup server c.aliases) in
    if server == "" then get_default_server c else (some known, saved_token c known)

-- load_config, from the fields that the file has; without a file nothing changes.
pub record Loaded : Type 0 where
  pub servers : Option (Dict String)
  pub aliases : Option (Dict String)
  pub default_server : Option String

unfoldable pub load_config : Option Loaded → Config → Config
load_config none c = c
load_config (some file) c = record {
  servers = default [] file.servers;
  aliases = default [] file.aliases;
  default_server = file.default_server;
}

-- The dictionary that save_config writes.
unfoldable pub save_config : Config → Loaded
save_config c = record {
  servers = some c.servers;
  aliases = some c.aliases;
  default_server = c.default_server;
}

-- login, behind an answer of the status 200
unfoldable pub store_token : String → String → String → Config → Config
store_token server token alias c = record {
  servers = insert server token c.servers;
  aliases = if alias == "" then c.aliases else insert alias server c.aliases;
  default_server = if truthy c.default_server then c.default_server else some server;
}

-- login: the server's answer is its status and the token, which is read for the status 200.
unfoldable pub login : String → ℕ → String → String → Config → Config
unfolding store_token
login server status token alias c =
    if nat_eq status 200 then store_token server token alias c else c

-- with_authenticated_http: the server and the token that the command runs with; `none` is the
-- return without a token.
unfoldable pub with_token : Config → Option String → Option (Option String × String)
with_token c server = elim (get_token c server).1 [
  | none ↦ none
  | some token ↦ if token == "" then none else some ((get_token c server).0, token)
]

-- upload_plugin of commands/build.py: the decorator, and get_token once more for what it gave.
unfoldable pub upload_target : Config → Option String → Option (Option String × String)
unfolding with_token
upload_target c server = elim (with_token c server) [
  | none ↦ none
  | some (resolved, token) ↦ elim (with_token c resolved) [
    | none ↦ none
    | some (target, again) ↦ some (target, token)
  ]
]
