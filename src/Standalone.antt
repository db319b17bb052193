-- ===== src/Standalone.antt =====
-- maubot/standalone: one plugin on one client as a program of its own. This file has what the
-- program reads, the state that it keeps, and how an action of it can end; Standalone/Setup has what
-- it does when its module is loaded, Standalone/Start the function main, Standalone/Run stop and the
-- end of the program, Standalone/Batches the table of sync tokens and the configuration.
pub mod Setup
pub mod Start
pub mod Run
pub mod Batches
pub mod Identity
pub mod Retrying
pub mod Ending
pub mod Leaving
pub mod Resuming
use maubot.Base.{
  ⊤, ℕ, String, Bool, true, false, Option, none, some, List, [], ◌∷◌, ◌+◌, if◌then◌else◌,
}
use maubot.World.{DatabaseType}
use maubot.World.Env.{WhoAmI}

-- What a call can raise: a RuntimeError, another Exception, or KeyboardInterrupt, which is none.
pub data Failure : Type 0 where
  runtime_error other_error interrupt : Failure

-- How a part of the program ends: it returns, it raises, sys.exit is called, or the tries of the
-- loop that waits for the homeserver are used up.
pub data Outcome (A : Type 0) : Type 0 where
  done : A → Outcome A
  raised : Failure → Outcome A
  exits : ℕ → Outcome A
  waiting : Outcome A

-- The outcome of a call of a library.
pub data Answer (A : Type 0) : Type 0 where
  gives : A → Answer A
  fails : Failure → Answer A

abbrev pub lift : {A : Type 0} → Answer A → Outcome A
lift (gives a) = done a
lift (fails e) = raised e

pub data Call : Type 0 where
  db_start upgrade_store open_store load_crypto put_device : Call
  web_setup web_start sleep put_filter_id share_keys : Call
  set_avatar_url set_displayname create_engine upgrade_plugin_db : Call
  new_plugin internal_start internal_stop web_shutdown web_cleanup db_stop : Call

-- config["user…"] and what follows from it when the module is loaded: whether the encryption store
-- and the web runner exist.
pub record Settings : Type 0 where
  pub id : String
  pub device_id : Option String
  pub appservice : Bool
  pub crypto_store : Bool
  pub web_runner : Bool
  pub sync : Bool
  pub autojoin : Bool
  pub displayname : String
  pub avatar_url : String
  -- the plugin's metadata
  pub database : Bool
  pub database_type : DatabaseType
  pub has_upgrade_table : Bool

-- The libraries, the plugin and the homeserver. An answer may depend on all the calls before; that
-- of the homeserver to whoami on the number of the try.
pub record Machine : Type 0 where
  pub works : Call → List Call → Answer ⊤
  pub crypto_device : List Call → Answer (Option String)
  -- NextBatch.load and create_filter, each with the id of a filter
  pub stored_filter : List Call → Answer String
  pub create_filter : List Call → Answer String
  pub whoami : ℕ → Answer WhoAmI
  -- `client.crypto.account.shared`
  pub shared : List Call → Bool
  -- how run_forever ends
  pub forever : List Call → Answer ⊤

-- The variables of the module and what runs behind them. `client` is whether the client syncs,
-- `bot` whether the plugin object was started, and `web` whether the runner has a server.
pub record State : Type 0 where
  pub db_open : Bool
  pub client : Option Bool
  pub has_crypto : Bool
  pub autojoins : Bool
  pub bot : Option Bool
  pub web : Bool
  pub filter_id : String
  pub trace : List Call

abbrev pub Main : Type 0 → Type 0
Main A = State → Outcome A × State

module _ {A B : Type 0} where
  abbrev pub continue : Outcome A → (A → Main B) → Main B
  continue (done a) f s = f a s
  continue (raised e) f s = (raised e, s)
  continue (exits n) f s = (exits n, s)
  continue waiting f s = (waiting, s)

  infixl 5 ◌>>=◌
  abbrev pub ◌>>=◌ : Main A → (A → Main B) → Main B
  ◌>>=◌ m f s = let (r, s') = m s in continue r f s'

infixl 5 ◌>>◌
abbrev pub ◌>>◌ : {B : Type 0} → Main ⊤ → Main B → Main B
m >> k = m >>= λ _. k

abbrev pub pure : {A : Type 0} → A → Main A
pure a s = (done a, s)

-- An outcome that is known, such as an exception that is raised again.
abbrev pub give : {A : Type 0} → Outcome A → Main A
give outcome s = (outcome, s)

abbrev pub exit : ℕ → Main ⊤
exit n s = (exits n, s)

abbrev pub modify : (State → State) → Main ⊤
modify f s = (done tt, f s)

abbrev pub gets : {A : Type 0} → (State → A) → Main A
gets f s = (done (f s), s)

abbrev pub when : Bool → Main ⊤ → Main ⊤
when b m s = if b then m s else (done tt, s)

module _ (m : Machine) where
  -- One call: its outcome, and its place in the record of calls.
  unfoldable pub call : Call → Main ⊤
  call c s = (lift (m.works c s.trace), record s { trace = c ∷ s.trace })
