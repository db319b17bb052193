-- ===== src/Commands.antt =====
-- Command handlers of plugins (maubot/handlers/command.py): the objects that the decorators make.
-- The children cut texts into words, match arguments, print usages and dispatch messages.
pub mod Words
pub mod Arguments
pub mod Usage
pub mod Dispatch
pub mod Decorators
pub mod Passive
pub mod Splitting
pub mod Outcomes
pub mod Turns
pub mod Leading
pub mod Serving
pub mod Binding
pub mod Reaching
pub mod Order
pub mod Required
use maubot.Base.{true, false, ℕ, String, List, Option, Bool}
use maubot.Base.Text.{append}

-- What a plugin's function is given for an argument: a text, the groups of a regular expression
-- (`None` for one that took no part), or an object that the plugin's own parser made.
pub data Value : Type 0 where
  text : String → Value
  groups : List (Option String) → Value
  parsed : ℕ → Value

-- call_args
abbrev pub Args : Type 0
Args = List (String × Option Value)

-- A call of a matcher: it returns, raises ArgumentSyntaxError or another ValueError, or raises
-- something that the dispatcher does not catch.
pub data Attempt (A : Type 0) : Type 0 where
  returned : A → Attempt A
  syntax_error : String → Bool → Attempt A
  value_error : Attempt A
  raised : Attempt A

-- The callable of a CustomArgument. With `pass_raw` its result is the pair of the rest and the value.
pub record Matcher : Type 0 where
  pub value : String → Attempt (Option Value)
  pub pair : String → Attempt (String × Option Value)

-- The three subclasses of Argument. A RegexArgument holds the pattern that was compiled.
pub data Kind : Type 0 where
  simple : Kind
  custom : Matcher → Kind
  regex : String → Kind

pub record Argument : Type 0 where
  pub name : String
  pub label : String
  pub required : Bool
  pub pass_raw : Bool
  pub kind : Kind

-- A match object: its span and its groups.
pub record Match : Type 0 where
  pub start : ℕ
  pub end : ℕ
  pub groups : List (Option String)

-- Python's own: str.lower, and `re`: Pattern.match, search and finditer for the text of a pattern.
pub record Python : Type 0 where
  pub lower : String → String
  pub match : String → String → Option Match
  pub search : String → String → Option Match
  pub finditer : String → String → List Match

-- The fields of a CommandHandler but its subcommands. `func_name` is
-- __mb_func__.__name__, `bound` is the plugin object that it is bound
-- to, `parent` the parent's __mb_get_name__, and the test of the command name raises
-- NotImplementedError while it is unset.
pub record Config : Type 0 where
  pub func : ℕ
  pub func_name : String
  pub bound : Option ℕ
  pub parent : Option (Option ℕ → String)
  pub arguments : List Argument
  pub help : String
  pub get_name : Option ℕ → String
  pub is_command_match : Option (Option ℕ → String → Bool)
  pub require_subcommand : Bool
  pub must_consume_args : Bool
  pub arg_fallthrough : Bool
  pub event_handler : Bool
  pub event_types : List String
  pub msgtypes : List String

mutual
  pub data Handler : Type 0 where
    node : Config → Handlers → Handler

  -- __mb_subcommands__
  pub data Handlers : Type 0 where
    hnil : Handlers
    hcons : Handler → Handlers → Handlers

unfoldable pub config : Handler → Config
config (node c subs) = c

unfoldable pub subcommands : Handler → Handlers
subcommands (node c subs) = subs

-- len(self.__mb_subcommands__) > 0
unfoldable pub has_any : Handlers → Bool
has_any hnil = false
has_any (hcons h hs) = true

-- A message as a handler sees it: `own` is evt.client.mxid, and a missing body is the empty text.
pub record Event : Type 0 where
  pub sender : String
  pub own : String
  pub msgtype : String
  pub body : String

-- What a handler does with a message: nothing, one reply, a call of a plugin's function with the
-- object that it is bound to, or an exception.
pub data Outcome : Type 0 where
  ignored : Outcome
  replied : String → Outcome
  called : ℕ → Option ℕ → Args → Outcome
  failed : Outcome
