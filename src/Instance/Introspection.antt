-- ===== src/Instance/Introspection.antt =====
-- The tables of a plugin's database, as maubot/instance.py reads them: _introspect_sqlite,
-- _introspect_postgres and get_db_tables.
pub mod Columns
use maubot.Base.{
  String, ◌==◌, Bool, true, false, Option, none, some, List, [], ◌∷◌, default, if◌then◌else◌, ℕ,
  nat_eq, not,
}
use maubot.Base.Dict.{Dict, lookup, insert}

-- `nullable` is the text of information_schema, or a Boolean from SQLite.
pub data Nullable : Type 0 where
  as_text : String → Nullable
  as_bool : Bool → Nullable

pub record Column : Type 0 where
  pub type : String
  pub nullable : Nullable
  pub default_value : Option String
  pub primary : Bool
  pub unique : Bool

-- The columns of each table.
abbrev pub Tables : Type 0
Tables = Dict (Dict Column)

pub data Constraint : Type 0 where
  primary_key unique_key no_constraint : Constraint

-- A row of the query on information_schema.
pub record Row : Type 0 where
  pub table_name : String
  pub column_name : String
  pub data_type : String
  pub is_nullable : String
  pub column_default : Option String
  pub constraint_type : Constraint

-- The value of setdefault.
unfoldable pub fresh : Row → Column
fresh row = record {
  type = row.data_type;
  nullable = as_text row.is_nullable;
  default_value = row.column_default;
  primary = false;
  unique = false;
}

unfoldable pub mark : Constraint → Column → Column
mark primary_key column = record column { primary = true }
mark unique_key column = record column { unique = true }
mark no_constraint column = column

-- One round of the loop. `tables` is a defaultdict.
unfoldable pub add_row : Row → Tables → Tables
unfolding fresh mark
add_row row tables =
    let columns = default [] (lookup row.table_name tables) in
    let column = default (fresh row) (lookup row.column_name columns) in
    insert row.table_name (insert row.column_name (mark row.constraint_type column) columns) tables

unfoldable pub add_rows : List Row → Tables → Tables
unfolding add_row
add_rows [] tables = tables
add_rows (row ∷ rows) tables = add_rows rows (add_row row tables)

-- _introspect_postgres, from the answer to its query
unfoldable pub introspect_postgres : List Row → Tables
unfolding add_rows
introspect_postgres rows = add_rows rows []

-- A row of the query on pragma_table_info. `not_null` is its column notnull, which the query gives the
-- name is_nullable.
pub record SqliteRow : Type 0 where
  pub table_name : String
  pub column_name : String
  pub data_type : String
  pub is_primary : ℕ
  pub column_default : Option String
  pub not_null : ℕ

unfoldable pub sqlite_column : SqliteRow → Column
sqlite_column row = record {
  type = row.data_type;
  nullable = as_bool (not (nat_eq row.not_null 0));
  default_value = row.column_default;
  primary = not (nat_eq row.is_primary 0);
  unique = false;
}

unfoldable pub add_sqlite_row : SqliteRow → Tables → Tables
unfolding sqlite_column
add_sqlite_row row tables =
    let columns = default [] (lookup row.table_name tables) in
    insert row.table_name (insert row.column_name (sqlite_column row) columns) tables

-- _introspect_sqlite, from the answer to its query. The columns have no entry for uniqueness, which
-- is `unique = false` here.
unfoldable pub introspect_sqlite : List SqliteRow → Tables → Tables
unfolding add_sqlite_row
introspect_sqlite [] tables = tables
introspect_sqlite (row ∷ rows) tables = introspect_sqlite rows (add_sqlite_row row tables)

-- get_db_tables: the tables that were read before, or those that are read now.
unfoldable pub get_db_tables : Option Tables → Tables → Tables
get_db_tables none read = read
get_db_tables (some tables) read = tables
