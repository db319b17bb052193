-- ===== src/Api/Tables.antt =====
-- Theorems on the handlers of maubot/management/api/instance_database.py.
use maubot.Base.{ℕ, String, ◌≡◌, ◌≢◌, refl, some, List}
use maubot.Base.Dict.{lookup}
use maubot.Base.Exec.{err, other_error}
use maubot.World.{World, InstDb, engine, proxy_postgres, sqlite_db}
use maubot.World.Env.{Env}
use maubot.Instance
use maubot.Api.Databases.{Database, TableQuery, get_table}

-- A request for a table that an instance has in a database that is not SQLAlchemy's raises, and
-- changes nothing, if the instance is known under the id of the path in lower case.
get_table-raises :
    (env : Env) (db : Database) (path_id table : String) (q : TableQuery) (w : World) (a : ℕ)
    (d : InstDb) (columns : List String)
    → lookup (env.lower path_id) w.instance_cache ≡ some a
    → (w.instances a).inst_db ≡ some d
    → d ≢ engine
    → lookup table (db.tables a) ≡ some columns
    → get_table env db path_id table q w ≡ (err other_error, w)
unfolding get_table Instance.get
get_table-raises env db path_id table q w a engine columns known has_db not_engine has_table =
    elim (not_engine refl) [ ]
get_table-raises env db path_id table q w a proxy_postgres columns known has_db not_engine
      has_table =
    rw (known, has_db, has_table) refl
get_table-raises env db path_id table q w a sqlite_db columns known has_db not_engine has_table =
    rw (known, has_db, has_table) refl
