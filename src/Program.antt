-- ===== src/Program.antt =====
-- maubot/__main__.py: which databases the program opens, and how it starts and stops.
pub mod Counting
pub mod Opening
use maubot.Base.{
  ⊤, ℕ, String, ◌==◌, Bool, true, false, not, ◌&&◌, Option, none, some, List, [], ◌∷◌, ◌++◌,
  if◌then◌else◌, nat_eq,
}
use maubot.Base.Exec.{Exec, pure, skip, ◌>>=◌, ◌>>◌}
use maubot.World.{World}
use maubot.World.Env.{Env}
use mathlib.Core.List.{map}
use maubot.World.Gather.{gather}
use maubot.World.Refs.{RefSet}
use maubot.Client.Every as Clients
use maubot.Client.Lifecycle
use maubot.Instance
use maubot.Instance.Every

pub data Scheme : Type 0 where
  sqlite postgres : Scheme

-- config["plugin_databases.postgres"]: "default", another URL, or none.
pub data PluginUrl : Type 0 where
  off same : PluginUrl
  url : Scheme → PluginUrl

pub record Config : Type 0 where
  pub database : Scheme
  -- config["crypto_database"] == "default"
  pub crypto_is_default : Bool
  pub plugin_postgres : PluginUrl

-- The databases of the program. Two of them can be the main one.
pub data Database : Type 0 where
  main crypto plugin : Database

pub record Pools : Type 0 where
  pub crypto_db : Option Database
  pub plugin_postgres_db : Option Database

-- The value or the code that sys.exit is called with.
pub data Prepared (A : Type 0) : Type 0 where
  ready : A → Prepared A
  exits : ℕ → Prepared A

unfoldable pub crypto_of : Bool → Config → Option Database
crypto_of has_store c =
    if has_store then if c.crypto_is_default then some main else some crypto else none

unfoldable pub pool_of : PluginUrl → Scheme → Prepared (Option Database)
pool_of off database = ready none
pool_of same Scheme.postgres = ready (some main)
pool_of same Scheme.sqlite = exits 24
pool_of (url Scheme.postgres) database = ready (some plugin)
pool_of (url Scheme.sqlite) database = exits 24

-- prepare_db
unfoldable pub prepare_db : Bool → Config → Prepared Pools
unfolding crypto_of pool_of
prepare_db has_store c = elim (pool_of c.plugin_postgres c.database) [
  | exits n ↦ exits n
  | ready pool ↦ ready (record { crypto_db = crypto_of has_store c; plugin_postgres_db = pool })
]

-- start_db and stop, as calls: a database is opened or closed, or one of the two schemas that are not
-- the program's own is upgraded in the main one.
pub data Call : Type 0 where
  open_db close_db : Database → Call
  upgrade_state upgrade_crypto stop_server : Call

-- How a call ends: it works, raises a DatabaseException, or raises something else.
pub data Answer : Type 0 where
  works database_exception other_exception : Answer

pub data Outcome : Type 0 where
  done raised : Outcome
  exited : ℕ → Outcome

-- The calls that have worked, in order.
abbrev pub Calls : Type 0
Calls = List Call

module _ (answer : Call → Calls → Answer) where
  -- Some calls one after another, inside the `try` of start_db: a DatabaseException becomes the exit
  -- code 25.
  unfoldable pub run_all : Calls → Calls → Outcome × Calls
  run_all [] made = (done, made)
  run_all (c ∷ cs) made =
      let rest = run_all cs (made ++ (c ∷ [])) in
      elim (answer c made) [
        | works ↦ rest
        | database_exception ↦ (exited 25, made)
        | other_exception ↦ (raised, made)
      ]

  abbrev pub of_plugin : Option Database → Calls
  of_plugin (some plugin) = open_db plugin ∷ []
  of_plugin (some crypto) = open_db crypto ∷ []
  of_plugin (some main) = []
  of_plugin none = []

  abbrev pub of_crypto : Option Database → Calls
  of_crypto (some main) = upgrade_crypto ∷ []
  of_crypto (some crypto) = open_db crypto ∷ []
  of_crypto (some plugin) = open_db plugin ∷ []
  of_crypto none = []

  unfoldable pub start_db : Pools → Outcome × Calls
  unfolding run_all
  start_db p =
      run_all
        (open_db main ∷ upgrade_state ∷ (of_plugin p.plugin_postgres_db ++ of_crypto p.crypto_db))
        []

-- stop behind the clients: the server, whose timeout is caught, and the main database.
unfoldable pub stop_calls : Calls → Calls
stop_calls made = made ++ (stop_server ∷ close_db main ∷ [])

module _ (env : Env) where
  unfoldable pub as_tasks : List ℕ → RefSet
  as_tasks [] = []
  as_tasks (a ∷ rest) = (0, a) ∷ as_tasks rest

  abbrev load_only : ℕ → Exec World ⊤
  load_only a = do loaded ← Instance.load env a; skip

  unfoldable pub load_each : List ℕ → Exec World ⊤
  load_each [] = skip
  load_each (a ∷ rest) = do load_only a; load_each rest

  -- `start` behind start_db: the instances are loaded, the clients started, and the instances loaded
  -- again.
  unfoldable pub start_objects : Exec World ⊤
  unfolding as_tasks load_each
  start_objects = do
    plugins ← Every.all
    gather load_only (as_tasks plugins)
    clients ← Clients.all env
    gather (λ a. Lifecycle.start env a 0) (as_tasks clients)
    again ← Every.all
    load_each again

  -- `stop`: the clients of the cache, before the calls above
  unfoldable pub stop_clients : Exec World ⊤
  unfolding as_tasks
  stop_clients w =
      gather (Lifecycle.stop env) (as_tasks (map (λ (e : String × ℕ). e.1) w.client_cache)) w
