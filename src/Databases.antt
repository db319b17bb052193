-- ===== src/Databases.antt =====
-- The database of a plugin instance on a shared Postgres pool (maubot/lib/plugin_db.py,
-- ProxyPostgresDatabase): its schema, its connections and the draining in `stop`.
pub mod Draining
pub mod Schema
use Prim.Native.Char.{code}
use maubot.Base.{
  ◌≡◌, if◌then◌else◌, String, ℕ, suc, ◌-◌, Option, none, some, List, [], ◌∷◌, ◌++◌, Bool, true,
  false, nat_eq, not, ◌&&◌, ◌||◌, ltb,
}
use maubot.Base.Text.{append}
use maubot.Base.Dict.{update}

-- s.translate({'"': "_"})
unfoldable pub remove_double_quotes : String → String
remove_double_quotes String.[] = String.[]
remove_double_quotes (String.◌∷◌ c s) =
    String.◌∷◌ (if nat_eq (code c) b'"' then "_" else c) (remove_double_quotes s)

unfoldable pub schema_name : String → String
unfolding remove_double_quotes
schema_name instance_id = append "mbp_" (remove_double_quotes instance_id)

-- _quoted_schema
unfoldable pub quoted_schema : String → String
unfolding schema_name
quoted_schema instance_id = append "\"" (append (schema_name instance_id) "\"")

-- The statements that `start`, `delete` and `acquire_direct` make of it.
unfoldable pub create_schema : String → String
unfolding quoted_schema
create_schema instance_id = append "CREATE SCHEMA IF NOT EXISTS " (quoted_schema instance_id)

unfoldable pub drop_schema : String → String
unfolding quoted_schema
drop_schema instance_id =
    append "DROP SCHEMA IF EXISTS " (append (quoted_schema instance_id) " CASCADE")

-- How the statement ends that sets the search_path back: it works, raises an Exception, or is
-- cancelled, which is none.
pub data Reset : Type 0 where
  resets fails cancelled : Reset

-- A connection as it is given back to the shared pool, and how its reset ended, if there was one.
pub record Returned : Type 0 where
  pub connection : ℕ
  pub search_path : String
  pub is_closed : Bool
  pub outcome : Reset

-- _conn_sema and _max_conns, the connections that the plugin holds, those that it has given back, the
-- passes of the semaphore that `stop` took, and of every connection of the shared pool its search_path
-- and whether it is closed.
pub record Proxy : Type 0 where
  pub conn_sema : ℕ
  pub max_conns : ℕ
  pub held : List ℕ
  pub returned : List Returned
  pub drained : ℕ
  pub search_path : ℕ → String
  pub is_closed : ℕ → Bool

-- __init__, on the connections of the shared pool
unfoldable pub init : ℕ → (ℕ → String) → (ℕ → Bool) → Proxy
init max_conns search_path is_closed = record {
  conn_sema = max_conns;
  max_conns = max_conns;
  held = [];
  returned = [];
  drained = 0;
  search_path = search_path;
  is_closed = is_closed;
}

unfoldable pub take : String → ℕ → Proxy → Proxy
take schema c s = record s {
  conn_sema = s.conn_sema - 1;
  held = c ∷ s.held;
  search_path = update s.search_path c schema;
}

-- Whether the statement that sets the own schema works; where it does not, the pool and the semaphore
-- have back what they gave.
unfoldable pub take_if : Bool → String → ℕ → Proxy → Proxy
unfolding take
take_if true schema c s = take schema c s
take_if false schema c s = s

-- acquire_direct up to its `yield`, with the connection that the shared pool gives and the own schema.
-- Where the semaphore has no pass left, it waits.
unfoldable pub acquire : String → Bool → ℕ → Proxy → Option Proxy
unfolding take_if
acquire schema works c s = if nat_eq s.conn_sema 0 then none else some (take_if works schema c s)

unfoldable pub reset_open : String → Reset → ℕ → Proxy → Proxy
reset_open default_search_path resets c s = record s {
  search_path = update s.search_path c default_search_path;
}
reset_open default_search_path fails c s = record s { is_closed = update s.is_closed c true }
reset_open default_search_path cancelled c s = s

-- The `finally` of acquire_direct: a connection that cannot be set back is closed; a cancellation
-- comes out, and leaves it as it is.
unfoldable pub reset : String → Reset → ℕ → Proxy → Proxy
unfolding reset_open
reset default_search_path outcome c s =
    if s.is_closed c then s else reset_open default_search_path outcome c s

abbrev give_back : ℕ → Reset → List ℕ → Proxy → Proxy
give_back c outcome left s = record s {
  conn_sema = suc s.conn_sema;
  held = left;
  returned =
      record {
        connection = c;
        search_path = s.search_path c;
        is_closed = s.is_closed c;
        outcome = outcome;
      }
      ∷ s.returned;
}

-- The end of acquire_direct: `left` are the other connections that are held.
unfoldable pub release : String → Reset → ℕ → List ℕ → Proxy → Proxy
unfolding reset
release default_search_path outcome c left s =
    give_back c outcome left (reset default_search_path outcome c s)

unfoldable pub take_pass : Proxy → Proxy
take_pass s = record s { conn_sema = s.conn_sema - 1; drained = suc s.drained }

-- One turn of the loop of `stop`; `none` is the timeout, which ends it.
unfoldable pub drain : Proxy → Option Proxy
unfolding take_pass
drain s = if nat_eq s.conn_sema 0 then none else some (take_pass s)

-- What is done with a connection of the pool, by whoever holds it.
unfoldable pub run : ℕ → String → Bool → Proxy → Proxy
run c path closed s = record s {
  search_path = update s.search_path c path;
  is_closed = update s.is_closed c (s.is_closed c || closed);
}

module _ (default_search_path schema : String) where
  -- `runs` is this plugin on a connection that it holds, or another one that has the pool too.
  pub data Step : Proxy → Proxy → Type 0 where
    acquires :
        (works : Bool) (c : ℕ) (s s' : Proxy) → acquire schema works c s ≡ some s' → Step s s'
    runs : (c : ℕ) (path : String) (closed : Bool) (s : Proxy) → Step s (run c path closed s)
    releases :
        (outcome : Reset) (c : ℕ) (before after : List ℕ) (s : Proxy)
        → s.held ≡ before ++ (c ∷ after)
        → Step s (release default_search_path outcome c (before ++ after) s)
    drains : (s s' : Proxy) → drain s ≡ some s' → Step s s'

  pub data Steps : Proxy → Proxy → Type 0 where
    stay : {s : Proxy} → Steps s s
    then : {s t u : Proxy} → Step s t → Steps t u → Steps s u
