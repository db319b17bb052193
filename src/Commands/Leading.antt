-- ===== src/Commands/Leading.antt =====
-- Which plugin's function a message leads to, as a relation on the tree of handlers
-- (CommandHandler.__call__ of maubot/handlers/command.py).
use maubot.Base.{ℕ, String, Option, some, ◌≡◌, true, false, not, ◌&&◌}
use maubot.Commands.{
  Args, Config, Handler, node, Handlers, hnil, hcons, config, has_any, Event, Python,
}
use maubot.Commands.Words.{strip, split_in_two}
use maubot.Commands.Arguments.{bound, parse_args}
use maubot.Commands.Usage.{usage}
use maubot.Commands.Turns.{IsFinished, Accepts}
use maubot.Commands.Dispatch.{entry, is_match}

-- The name that __call_subcommand__ looks for, and the text behind it.
abbrev pub name_in : String → String
name_in val = (split_in_two (strip val)).0

abbrev pub behind_name : String → String
behind_name val = (split_in_two (strip val)).1

-- No subcommand has this name.
unfoldable pub NoneMatches : Handlers → String → Type 0
NoneMatches hnil command = Unit
NoneMatches (hcons h hs) command =
    (is_match (config h) command ≡ some false) × NoneMatches hs command

abbrev pub Passed : Handlers → String → Type 0
Passed subs val = NoneMatches subs (name_in val)

mutual
  -- Which function runs for a message, with the arguments of the handlers above and the text that they
  -- left, or none for the root: the handler's own, or, before or behind its arguments, the one of a
  -- subcommand.
  pub data Serves (py : Python) (evt : Event) (f : ℕ) (who : Option ℕ) (out : Args)
      : Handler → Args → Option String → Type 0 where
    here :
        (c : Config) (subs : Handlers) (args : Args) (remaining : Option String) (val : String)
        → Accepts evt c
        → entry py c evt remaining ≡ some (some val)
        → IsFinished py (node c subs) f who out (Passed subs) args val
        → Serves py evt f who out (node c subs) args remaining
    before :
        (c : Config) (subs : Handlers) (args : Args) (remaining : Option String) (val : String)
        → Accepts evt c
        → entry py c evt remaining ≡ some (some val)
        → not c.arg_fallthrough && has_any subs ≡ true
        → SomeServes py evt f who out subs (name_in val) args (behind_name val)
        → Serves py evt f who out (node c subs) args remaining
    behind :
        (c : Config) (subs : Handlers) (args : Args) (remaining : Option String) (val : String)
        (args' : Args) (left : String)
        → Accepts evt c
        → entry py c evt remaining ≡ some (some val)
        → c.arg_fallthrough && has_any subs ≡ true
        → parse_args py (usage (node c subs)) c.arguments args val ≡ bound args' left
        → SomeServes py evt f who out subs (name_in left) args' (behind_name left)
        → Serves py evt f who out (node c subs) args remaining

  -- The first of the subcommands that has the name does it.
  pub data SomeServes (py : Python) (evt : Event) (f : ℕ) (who : Option ℕ) (out : Args)
      : Handlers → String → Args → String → Type 0 where
    first :
        (h : Handler) (hs : Handlers) (command : String) (args : Args) (left : String)
        → is_match (config h) command ≡ some true
        → Serves py evt f who out h args (some left)
        → SomeServes py evt f who out (hcons h hs) command args left
    later :
        (h : Handler) (hs : Handlers) (command : String) (args : Args) (left : String)
        → is_match (config h) command ≡ some false
        → SomeServes py evt f who out hs command args left
        → SomeServes py evt f who out (hcons h hs) command args left
