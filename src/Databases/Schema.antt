-- ===== src/Databases/Schema.antt =====
-- Theorems on the schema names of maubot/lib/plugin_db.py.
use Prim.Native.Char.{Char, code}
use maubot.Base.{if◌then◌else◌, inl, inr, Bool-cases, String, ◌≡◌, refl, Bool, false, nat_eq, ◌||◌}
use maubot.Base.Text.{append}
use maubot.Databases.{remove_double_quotes, schema_name}

-- The text has a double quote in it.
unfoldable pub has_quote : String → Bool
has_quote String.[] = false
has_quote (String.◌∷◌ c s) = nat_eq (code c) b'"' || has_quote s

code_replaced : (c : Char) → nat_eq (code (if nat_eq (code c) b'"' then "_" else c)) b'"' ≡ false
code_replaced c = elim (Bool-cases (nat_eq (code c) b'"')) [
  | inl same ↦ rw (same) refl
  | inr other ↦ rw (other) other
]

has_quote-remove : (s : String) → has_quote (remove_double_quotes s) ≡ false
unfolding has_quote remove_double_quotes
has_quote-remove String.[] = refl
has_quote-remove (String.◌∷◌ c s) = rw (code_replaced c) (has_quote-remove s)

-- Whatever the id of an instance is, the name of its schema has no double quote.
has_quote-schema_name : (instance_id : String) → has_quote (schema_name instance_id) ≡ false
unfolding has_quote schema_name append
has_quote-schema_name instance_id = has_quote-remove instance_id
