-- ===== src/Examples/Reading.antt =====
-- The theorems on what is read for a plugin and for its user: events and the columns of its tables.
use maubot.Base.{String, ◌≡◌, false, Option, none, some, List, [], ◌∷◌}
use maubot.Messages.Events.{
  Event, message, encrypted, dispatch_event, get_event, IsUsable, IsAnswer, events-AreUsable,
}
use maubot.Instance.Introspection.{
  Constraint, primary_key, unique_key, Row, fresh, introspect_postgres,
}
use maubot.Instance.Introspection.Columns.{
  column_at, keyed, first_of, column_at-introspect_postgres,
}

-- An encrypted reply with the keys to read it.
abbrev keys : String → Option Event
keys ciphertext = some (message "hello" false false)

events-AreUsable_example :
    IsUsable (dispatch_event (encrypted "x" false) false)
    × IsAnswer (some keys) (encrypted "x" false) (get_event (some keys) (encrypted "x" false))
events-AreUsable_example = events-AreUsable (some keys) (encrypted "x" false)

-- A primary key that is unique too, as two rows of the join.
abbrev join : Constraint → Row
join constraint = record {
  table_name = "users";
  column_name = "id";
  data_type = "text";
  is_nullable = "NO";
  column_default = none;
  constraint_type = constraint;
}

abbrev joined : List Row
joined = join unique_key ∷ join primary_key ∷ []

column_at-introspect_postgres_example :
    column_at "users" "id" (introspect_postgres joined)
    ≡ some (keyed "users" "id" joined (fresh (join unique_key)))
unfolding first_of
column_at-introspect_postgres_example = column_at-introspect_postgres "users" "id" joined
