-- ===== src/Instance/Introspection/Columns.antt =====
-- Theorems on the columns that _introspect_postgres finds (maubot/instance.py).
use maubot.Base.{
  String, ◌==◌, Bool, true, false, ◌&&◌, ◌||◌, Option, none, some, List, [], ◌∷◌, ◌≡◌, refl, arith,
  default, if◌then◌else◌, eq_iff, ◌∙◌, Bool-cases, inl, inr, ap, eq_refl, sym,
}
use maubot.Base.Rules.{eq_sound}
use maubot.Base.Dict.{Dict, lookup, insert, lookup-insert}
use maubot.Instance.Introspection.{
  Column, Tables, Constraint, primary_key, unique_key, Row, fresh, mark, add_row, add_rows,
  introspect_postgres, SqliteRow, sqlite_column, add_sqlite_row,
}

abbrev pub column_at : String → String → Tables → Option Column
column_at t c tables = lookup c (default [] (lookup t tables))

abbrev pub is_of : String → String → Row → Bool
is_of t c row = (row.table_name == t) && (row.column_name == c)

abbrev pub is_primary : Constraint → Bool
is_primary primary_key = true
is_primary _ = false

abbrev pub is_unique : Constraint → Bool
is_unique unique_key = true
is_unique _ = false

module _ (t c : String) where
  -- The first row of the column, and whether some row of it has a key.
  unfoldable pub first_of : List Row → Option Row
  first_of [] = none
  first_of (row ∷ rows) = let rest = first_of rows in if is_of t c row then some row else rest

  unfoldable pub any_of : (Constraint → Bool) → List Row → Bool
  any_of test [] = false
  any_of test (row ∷ rows) = (is_of t c row && test row.constraint_type) || any_of test rows

  column_at-insert :
      (t' : String) (columns : Dict Column) (tables : Tables)
      → column_at t c (insert t' columns tables)
        ≡ (if t' == t then lookup c columns else column_at t c tables)
  column_at-insert t' columns tables = ground (arith, lookup-insert t' t columns tables)

  lookup-cell :
      (row : Row) (columns : Dict Column)
      → lookup c (
          insert row.column_name
            (mark row.constraint_type (default (fresh row) (lookup row.column_name columns)))
            columns)
        ≡ (if row.column_name == c
            then some (mark row.constraint_type (default (fresh row) (lookup c columns)))
            else lookup c columns)
  lookup-cell row columns =
      lookup-insert row.column_name c _ columns ∙ ground (arith, eq_iff row.column_name c)

  column_at-add_row :
      (row : Row) (tables : Tables)
      → column_at t c (add_row row tables) ≡ (
          if is_of t c row
          then some (mark row.constraint_type (default (fresh row) (column_at t c tables)))
          else column_at t c tables)
  unfolding add_row
  column_at-add_row row tables =
      let columns = default [] (lookup row.table_name tables) in
      let column =
        mark row.constraint_type (default (fresh row) (lookup row.column_name columns)) in
      column_at-insert row.table_name (insert row.column_name column columns) tables
      ∙ elim (Bool-cases (row.table_name == t)) [
        | inl same ↦
            rw same
              (rw (eq_sound row.table_name t same) (lookup-cell row (default [] (lookup t tables))))
        | inr other ↦ rw other refl
      ]

  -- A column with the keys that some rows add.
  abbrev pub keyed : List Row → Column → Column
  keyed rows column = record column {
    primary = column.primary || any_of is_primary rows;
    unique = column.unique || any_of is_unique rows;
  }

  abbrev pub listed : List Row → Option Row → Option Column
  listed rows none = none
  listed rows (some row) = some (keyed rows (fresh row))

  first_of-same :
      (row : Row) (rows : List Row) → is_of t c row ≡ true → first_of (row ∷ rows) ≡ some row
  unfolding first_of
  first_of-same row rows e = rw e refl

  first_of-other :
      (row : Row) (rows : List Row) → is_of t c row ≡ false → first_of (row ∷ rows) ≡ first_of rows
  unfolding first_of
  first_of-other row rows e = rw e refl

  abbrev later : List Row → Option Column → Option Column
  later rows (some column) = some (keyed rows column)
  later rows none = listed rows (first_of rows)

  keyed-mark :
      (row : Row) (rows : List Row) (column : Column)
      → is_of t c row ≡ true
      → keyed rows (mark row.constraint_type column) ≡ keyed (row ∷ rows) column
  unfolding any_of mark
  keyed-mark row rows column e = ground arith

  keyed-other :
      (row : Row) (rows : List Row) (column : Column)
      → is_of t c row ≡ false
      → keyed rows column ≡ keyed (row ∷ rows) column
  unfolding any_of
  keyed-other row rows column e = ground arith

  later-same :
      (row : Row) (rows : List Row) (before : Option Column)
      → is_of t c row ≡ true
      → some (keyed rows (mark row.constraint_type (default (fresh row) before)))
        ≡ later (row ∷ rows) before
  unfolding first_of
  later-same row rows (some column) e = ap some (keyed-mark row rows column e)
  later-same row rows none e =
      ap some (keyed-mark row rows (fresh row) e)
      ∙ sym (ap (listed (row ∷ rows)) (first_of-same row rows e))

  listed-other :
      (row : Row) (rows : List Row) (found : Option Row)
      → is_of t c row ≡ false
      → listed rows found ≡ listed (row ∷ rows) found
  listed-other row rows none e = refl
  listed-other row rows (some r) e = ap some (keyed-other row rows (fresh r) e)

  later-other :
      (row : Row) (rows : List Row) (before : Option Column)
      → is_of t c row ≡ false
      → later rows before ≡ later (row ∷ rows) before
  unfolding first_of
  later-other row rows (some column) e = ap some (keyed-other row rows column e)
  later-other row rows none e =
      listed-other row rows (first_of rows) e
      ∙ sym (ap (listed (row ∷ rows)) (first_of-other row rows e))

  later-nil : (before : Option Column) → before ≡ later [] before
  unfolding first_of any_of
  later-nil none = refl
  later-nil (some column) = ground arith

  later-cons :
      (row : Row) (rows : List Row) (before : Option Column)
      → later rows (
          if is_of t c row
          then some (mark row.constraint_type (default (fresh row) before))
          else before)
        ≡ later (row ∷ rows) before
  later-cons row rows before = elim (Bool-cases (is_of t c row)) [
    | inl same ↦ rw same (later-same row rows before same)
    | inr other ↦ rw other (later-other row rows before other)
  ]

  column_at-add_rows :
      (rows : List Row) (tables : Tables)
      → column_at t c (add_rows rows tables) ≡ later rows (column_at t c tables)
  unfolding add_rows
  column_at-add_rows [] tables = later-nil (column_at t c tables)
  column_at-add_rows (row ∷ rows) tables =
      column_at-add_rows rows (add_row row tables)
      ∙ (ap (later rows) (column_at-add_row row tables)
          ∙ later-cons row rows (column_at t c tables))

  -- Whatever the order of the rows in which the query joins columns and constraints, a column is listed
  -- if and only if there is a row of it; its type, its nullability and its default value are those of
  -- the first such row, and it is primary or unique if and only if some row of it has that constraint.
  pub column_at-introspect_postgres :
      (rows : List Row) → column_at t c (introspect_postgres rows) ≡ listed rows (first_of rows)
  unfolding introspect_postgres lookup
  column_at-introspect_postgres rows = column_at-add_rows rows []

-- The nullability that SQLite columns are listed with is whether they are declared NOT NULL.
column_at-add_sqlite_row :
    (row : SqliteRow) (tables : Tables)
    → column_at row.table_name row.column_name (add_sqlite_row row tables)
      ≡ some (sqlite_column row)
unfolding add_sqlite_row
column_at-add_sqlite_row row tables =
    let columns = default [] (lookup row.table_name tables) in
    column_at-insert row.table_name row.column_name row.table_name
      (insert row.column_name (sqlite_column row) columns) tables
    ∙ rw (eq_refl row.table_name) (
        lookup-insert row.column_name row.column_name (sqlite_column row) columns
        ∙ rw (eq_refl row.column_name) refl)
