-- ===== src/Api/Databases.antt =====
-- maubot/management/api/instance_database.py: the handlers for the databases of instances.
use maubot.Base.Text.{mem}
use maubot.Base.{
  if◌then◌else◌, [], ◌∷◌, ◌&&◌, [], if◌then◌else◌, ℕ, String, Option, none, some, List, Bool, true,
}
use maubot.Base.Dict.{Dict, lookup}
use maubot.Base.Exec.{Exec, other_error, pure, raise, ◌>>=◌}
use maubot.World.{World, InstDb, engine, proxy_postgres, sqlite_db}
use maubot.World.Env.{Env}
use maubot.Instance
use maubot.Instance.{instance_at}
use maubot.Api.Responses.{Response}
use maubot.Api.Responses

-- How a database takes a statement: rows or a status, an error of the database, which of SQLAlchemy's
-- may be an IntegrityError or an OperationalError, or another exception.
pub data Outcome : Type 0 where
  result : String → Outcome
  sql_error integrity_error operational_error : Outcome
  other : Outcome

-- What is not in this repository: the introspection of the tables, each with its columns, and the
-- statements, as the JSON of their result. `select` is given the table, the columns of an order that
-- is known and the limit.
pub record Database : Type 0 where
  pub tables : ℕ → Dict (List String)
  pub select : ℕ → String → List (String × String) → ℕ → Outcome
  pub execute : ℕ → String → Bool → Outcome

-- What is sent: a response, or the JSON of tables or of a result.
pub data Reply : Type 0 where
  response : Response → Reply
  tables : Dict (List String) → Reply
  json : String → Reply

-- The query parameters of get_table: the pairs of `order`, and the limit, 100 by default.
pub record TableQuery : Type 0 where
  pub order : List (String × String)
  pub limit : ℕ

-- _execute_query_sqlalchemy, of the statement's outcome
unfoldable pub execute_query_sqlalchemy : Outcome → Exec World Reply
execute_query_sqlalchemy (result r) = pure (json r)
execute_query_sqlalchemy integrity_error = pure (response Responses.sql_integrity_error)
execute_query_sqlalchemy operational_error = pure (response Responses.sql_operational_error)
execute_query_sqlalchemy sql_error = raise other_error
execute_query_sqlalchemy other = raise other_error

-- The `try` around _execute_query_asyncpg in `query`
unfoldable pub execute_query_asyncpg : Outcome → Exec World Reply
execute_query_asyncpg (result r) = pure (json r)
execute_query_asyncpg sql_error = pure (response Responses.sql_error)
execute_query_asyncpg integrity_error = pure (response Responses.sql_error)
execute_query_asyncpg operational_error = pure (response Responses.sql_error)
execute_query_asyncpg other = raise other_error

all_known : List String → List (String × String) → Bool
all_known columns [] = true
all_known columns ((column, sort) ∷ rest) = mem column columns && all_known columns rest

-- The order, or none of it where a column is not known.
unfoldable pub known_order : List String → List (String × String) → List (String × String)
unfolding all_known
known_order columns order = if all_known columns order then order else []

module _ (env : Env) (db : Database) where
  -- The instance of a path and its database, or the refusal.
  abbrev with_database : String → (ℕ → InstDb → Exec World Reply) → Exec World Reply
  with_database path_id k = do
    hit ← Instance.get (env.lower path_id) none none
    elim hit [
      | none ↦ pure (response Responses.instance_not_found)
      | some a ↦ (do
        i ← instance_at a
        elim i.inst_db [ none ↦ pure (response Responses.plugin_has_no_database) | some d ↦ k a d ])
    ]

  -- get_database
  unfoldable pub get_database : String → Exec World Reply
  get_database path_id = with_database path_id (λ a d. pure (tables (db.tables a)))

  -- get_table: where the database is not SQLAlchemy's, the handler returns nothing, which aiohttp
  -- makes an error of.
  unfoldable pub get_table : String → String → TableQuery → Exec World Reply
  unfolding execute_query_sqlalchemy known_order
  get_table path_id table q = with_database path_id (λ a d. elim (lookup table (db.tables a)) [
    | none ↦ pure (response Responses.table_not_found)
    | some columns ↦ elim d [
      | engine ↦ execute_query_sqlalchemy (db.select a table (known_order columns q.order) q.limit)
      | proxy_postgres ↦ raise other_error
      | sqlite_db ↦ raise other_error
    ]
  ])

  -- query: every database that is not SQLAlchemy's is a Database. The statement is missing where the body does not have it.
  unfoldable pub query : String → Option String → Bool → Exec World Reply
  unfolding execute_query_sqlalchemy execute_query_asyncpg
  query path_id sql rows_as_dict = with_database path_id (λ a d. elim sql [
    | none ↦ pure (response Responses.query_missing)
    | some sql_query ↦ elim d [
      | engine ↦ execute_query_sqlalchemy (db.execute a sql_query rows_as_dict)
      | proxy_postgres ↦ execute_query_asyncpg (db.execute a sql_query rows_as_dict)
      | sqlite_db ↦ execute_query_asyncpg (db.execute a sql_query rows_as_dict)
    ]
  ])
