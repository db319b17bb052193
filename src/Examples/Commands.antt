-- ===== src/Examples/Commands.antt =====
-- The theorems on commands, at a handler with one subcommand.
use maubot.Base.{
  ◌↔◌, ℕ, String, ◌==◌, ◌≡◌, ◌≢◌, refl, Bool, true, false, Option, none, some, List, [], ◌∷◌,
}
use maubot.Base.Dict.{lookup}
use maubot.Commands
use maubot.Commands.{
  Argument, Config, Handler, node, hnil, hcons, Event, Python, Args, called, simple,
}
use maubot.Commands.Words.{is_space}
use maubot.Commands.Arguments.{parse_args, bound}
use maubot.Commands.Dispatch.{call, get, entry}
use maubot.Commands.Decorators.{Options, fixed, no_aliases}
use maubot.Commands.Splitting.{spaceless, words_of}
use maubot.Commands.Leading.{Serves}
use maubot.Commands.Serving.{call-Serves}
use maubot.Commands.Binding.{IsBoundTo, call-get}
use maubot.Commands.Required.{HasDistinctNames, AreGiven}
use maubot.Commands.Words.{split_in_two}

-- A Python whose regular expressions match nothing.
abbrev python : Python
python = record {
  lower = λ s. s;
  match = λ pattern s. none;
  search = λ pattern s. none;
  finditer = λ pattern s. [];
}

abbrev command : ℕ → String → List Argument → Config
command func name arguments = record {
  func = func;
  func_name = name;
  bound = none;
  parent = none;
  arguments = arguments;
  help = "None";
  get_name = λ who. name;
  is_command_match = some (λ who val. val == name);
  require_subcommand = true;
  must_consume_args = true;
  arg_fallthrough = true;
  event_handler = true;
  event_types = "m.room.message" ∷ [];
  msgtypes = "m.text" ∷ [];
}

-- !karma up <user>
abbrev karma : Handler
karma =
    node (command 1 "karma" []) (hcons (node (command 2 "up" (words_of ("user" ∷ []))) hnil) hnil)

abbrev message : String → Event
message body = record { sender = "@me:hs"; own = "@bot:hs"; msgtype = "m.text"; body = body }

abbrev given : Args
given = ("user", some (Commands.text "@a:hs")) ∷ []

karma_called : call python (message "!karma up @a:hs") karma [] none ≡ called 2 none given
unfolding call words_of maubot.Base.Text.mem Commands.config maubot.Commands.Dispatch.fall_through
    parse_args Commands.has_any Commands.subcommands is_space maubot.Commands.Words.is_empty
    maubot.Base.Text.drop maubot.Base.Text.size maubot.Commands.Words.word maubot.Base.Dict.insert
karma_called = refl

call-Serves_example :
    (call python (message "!karma up @a:hs") karma [] none ≡ called 2 none given)
    ↔ Serves python (message "!karma up @a:hs") 2 none given karma [] none
call-Serves_example = call-Serves python (message "!karma up @a:hs") karma [] none 2 none given

karma_Serves : Serves python (message "!karma up @a:hs") 2 none given karma [] none
karma_Serves =
    (call-Serves python (message "!karma up @a:hs") karma [] none 2 none given).0 karma_called

karma_bound :
    call python (message "!karma up @a:hs") (get 5 karma) [] none ≡ called 2 (some 5) given
unfolding call words_of get maubot.Base.Text.mem Commands.config
    maubot.Commands.Dispatch.fall_through parse_args Commands.has_any Commands.subcommands is_space
    maubot.Commands.Words.is_empty maubot.Base.Text.drop maubot.Base.Text.size
    maubot.Commands.Words.word maubot.Base.Dict.insert
karma_bound = refl

karma-IsBoundTo : IsBoundTo none karma
unfolding IsBoundTo
karma-IsBoundTo = (refl, ((refl, tt), tt))

call-get_example : ◌≡◌ {A = Option ℕ} (some 5) (some 5)
call-get_example =
    call-get python (message "!karma up @a:hs") 5 karma [] none 2 (some 5) given karma-IsBoundTo
      karma_bound

abbrev options : Options
options = record {
  name = fixed "rate";
  help = "Rate a user";
  aliases = no_aliases;
  event_type = "m.room.message";
  msgtypes = [];
  require_subcommand = true;
  arg_fallthrough = true;
  must_consume_args = true;
}

two_parsed :
    parse_args python "usage" (words_of ("user" ∷ "points" ∷ [])) [] "@a:hs 5"
    ≡ bound (("user", some (Commands.text "@a:hs")) ∷ ("points", some (Commands.text "5")) ∷ []) ""
unfolding parse_args words_of maubot.Base.Dict.insert maubot.Base.Text.drop
    maubot.Commands.Words.word maubot.Base.Text.size maubot.Commands.Words.strip is_space
    maubot.Commands.Words.is_empty
two_parsed = refl

two-HasDistinctNames : HasDistinctNames (words_of ("user" ∷ "points" ∷ []))
unfolding HasDistinctNames words_of maubot.Commands.Required.names
two-HasDistinctNames = (refl, (refl, tt))

karma_spaceless : spaceless "karma" ≡ true
unfolding spaceless is_space
karma_spaceless = refl
