-- ===== src/Commands/Decorators.antt =====
-- The decorators of maubot/handlers/command.py that make command handlers: new, subcommand, argument
-- and Argument.__call__, and the __init__ of the arguments.
use Prim.Native.Char.{code}
use maubot.Base.{
  nat_eq, if◌then◌else◌, ℕ, String, ◌==◌, Option, none, some, List, [], ◌∷◌, ◌++◌, Bool, true,
  false, ◌||◌, truthy,
}
use maubot.Base.Text.{append, mem}
use maubot.Commands.{
  Matcher, Kind, simple, custom, regex, Argument, Handler, node, Handlers, hnil, hcons, config,
}

-- CommandHandler.__init__
unfoldable pub init : ℕ → String → Handler
init func func_name =
    node
      (record {
        func = func;
        func_name = func_name;
        bound = none;
        parent = none;
        arguments = [];
        help = "None";
        get_name = λ who. "noname";
        is_command_match = none;
        require_subcommand = true;
        must_consume_args = true;
        arg_fallthrough = true;
        event_handler = true;
        event_types = "m.room.message" ∷ [];
        msgtypes = "m.text" ∷ [];
      })
      hnil

-- The parameter `name` of the decorators: a text, a callable without or with the object, or nothing.
pub data Prefix : Type 0 where
  fixed : String → Prefix
  computed : (Option ℕ → String) → Prefix
  unnamed : Prefix

-- s.replace("_", "-")
unfoldable pub dashes : String → String
dashes String.[] = String.[]
dashes (String.◌∷◌ c s) = String.◌∷◌ (if nat_eq (code c) b'_' then "-" else c) (dashes s)

get_name : Prefix → String → Option ℕ → String
unfolding dashes
get_name (fixed s) func_name who = if s == "" then dashes func_name else s
get_name (computed f) func_name who = f who
get_name unnamed func_name who = dashes func_name

-- The parameter `aliases`: a callable, with or without the object, a collection, or nothing.
pub data Aliases : Type 0 where
  callable : (Option ℕ → String → Bool) → Aliases
  names : List String → Aliases
  no_aliases : Aliases

matches : Aliases → (Option ℕ → String) → Option ℕ → String → Bool
matches (callable f) name who val = f who val
matches (names aliases) name who val = val == name who || mem val aliases
matches no_aliases name who val = val == name who

unfoldable pub reverse : List Argument → List Argument
reverse [] = []
reverse (a ∷ rest) = reverse rest ++ (a ∷ [])

-- The keyword parameters of `new`.
pub record Options : Type 0 where
  pub name : Prefix
  pub help : String
  pub aliases : Aliases
  pub event_type : String
  pub msgtypes : List String
  pub require_subcommand : Bool
  pub arg_fallthrough : Bool
  pub must_consume_args : Bool

or_own : List String → List String → List String
or_own [] own = own
or_own (m ∷ ms) own = m ∷ ms

-- new(...)(func) of a CommandHandler
unfoldable pub new : Options → Handler → Handler
unfolding get_name matches reverse or_own
new o (node c subs) =
    node
      (record c {
        help = o.help;
        get_name = get_name o.name c.func_name;
        is_command_match = some (matches o.aliases (get_name o.name c.func_name));
        arguments = reverse c.arguments;
        require_subcommand = o.require_subcommand;
        arg_fallthrough = o.arg_fallthrough;
        must_consume_args = o.must_consume_args;
        event_types = o.event_type ∷ [];
        msgtypes = or_own o.msgtypes c.msgtypes;
      })
      subs

-- handler.subcommand(...)(func): the subcommand as it is then, and the handler with it. Of the options,
-- this decorator has the name, the help, the aliases and the two on subcommands.
unfoldable pub subcommand_of : Handler → Options → Handler → Handler
unfolding new
subcommand_of parent o func =
    elim (new (record o { must_consume_args = true; event_type = "m.room.message"; msgtypes = [] })
      func) [
        | node c subs ↦
            node (record c { parent = some (config parent).get_name; event_handler = false }) subs
      ]

unfoldable pub add : Handlers → Handler → Handlers
add hnil h = hcons h hnil
add (hcons g gs) h = hcons g (add gs h)

unfoldable pub subcommand : Handler → Options → Handler → Handler
unfolding subcommand_of add
subcommand (node c subs) o func = node c (add subs (subcommand_of (node c subs) o func))

-- Argument.__call__
unfoldable pub add_argument : Argument → Handler → Handler
add_argument a (node c subs) = node (record c { arguments = c.arguments ++ (a ∷ []) }) subs

-- f"^{matches}" if self.pass_raw else f"^{matches}$"
unfoldable pub anchored : Bool → String → String
anchored pass_raw pattern = if pass_raw then append "^" pattern else append "^" (append pattern "$")

kind : Bool → Option String → Option Matcher → Kind
unfolding anchored
kind pass_raw matches parser =
    if truthy matches
    then (elim matches [ none ↦ simple | some pattern ↦ regex (anchored pass_raw pattern) ])
    else elim parser [ none ↦ simple | some m ↦ custom m ]

-- argument(name, label, required, matches, parser, pass_raw)
unfoldable pub argument :
    String → Option String → Bool → Option String → Option Matcher → Bool → Argument
unfolding kind
argument name label required matches parser pass_raw = record {
  name = name;
  label = elim label [ none ↦ name | some l ↦ if l == "" then name else l ];
  required = required;
  pass_raw = pass_raw;
  kind = kind pass_raw matches parser;
}

-- A function below the decorators `argument`, as they are written from top to bottom: the last one
-- runs first.
unfoldable pub decorate : List Argument → Handler → Handler
unfolding add_argument
decorate [] h = h
decorate (a ∷ rest) h = add_argument a (decorate rest h)
