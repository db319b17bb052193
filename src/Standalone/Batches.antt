-- ===== src/Standalone/Batches.antt =====
-- maubot/standalone/database.py: the sync token and the filter of a user, as an object and as the
-- row behind it; and maubot/standalone/config.py, where the environment comes before the file.
use maubot.Base.{String, Option, none, some}
use maubot.Base.Dict.{Dict, lookup, insert}

pub record NextBatch : Type 0 where
  pub user_id : String
  pub next_batch : String
  pub filter_id : String

pub record Row : Type 0 where
  pub next_batch : String
  pub filter_id : String

-- `NextBatch(db, user_id).load()`: from the row, or a new row.
unfoldable pub load_row : String → Dict Row → Option Row → NextBatch × Dict Row
load_row user_id rows (some row) =
    (record { user_id = user_id; next_batch = row.next_batch; filter_id = row.filter_id }, rows)
load_row user_id rows none = (
  record { user_id = user_id; next_batch = ""; filter_id = "" },
  insert user_id (record { next_batch = ""; filter_id = "" }) rows,
)

unfoldable pub load : String → Dict Row → NextBatch × Dict Row
unfolding load_row
load user_id rows = load_row user_id rows (lookup user_id rows)

-- An UPDATE of the row of a user, which does nothing where there is none.
unfoldable pub update_row : String → (Row → Row) → Dict Row → Dict Row
update_row user_id change rows = elim (lookup user_id rows) [
  | none ↦ rows
  | some row ↦ insert user_id (change row) rows
]

unfoldable pub put_filter_id : String → NextBatch × Dict Row → NextBatch × Dict Row
unfolding update_row
put_filter_id filter_id (nb, rows) = (
  record nb { filter_id = filter_id },
  update_row nb.user_id (λ row. record row { filter_id = filter_id }) rows,
)

unfoldable pub put_next_batch : String → NextBatch × Dict Row → NextBatch × Dict Row
unfolding update_row
put_next_batch token (nb, rows) = (
  record nb { next_batch = token },
  update_row nb.user_id (λ row. record row { next_batch = token }) rows,
)

-- `Config.__getitem__`, with the names of the environment's variables as the library's `upper` and
-- `replace` spell them, and the file's value.
unfoldable pub get_item :
    {V : Type 0} → (String → String) → Dict V → (String → Option V) → String → Option V
get_item upper environment file key = elim (lookup (upper key) environment) [
  | some value ↦ some value
  | none ↦ file key
]
